-- ===== src/Lib.antt =====
-- A model of iptv2hdhr, a service that turns M3U playlists into a virtual HDHomeRun tuner, and what
-- is proved of it.
--
-- The program reads a configuration (internal/config), fetches playlists (internal/playlist) and
-- guides (internal/guide), matches the configured channels to playlist entries (internal/lineup),
-- and serves streams (internal/streamproxy), logos, the guide and the HDHomeRun endpoints.
--
-- Base: shared names; Go's strings as bytes (Text, TextLaws, Net) and Go's maps as association
--   lists (Maps). `strings.ToLower` of a text that is not ASCII reads Unicode's tables, which are a
--   parameter (`Unicode`); white space is modelled exactly.
-- Config: internal/config/config.go. Schema is its records, Defaults is `applyDefaults`, Validate is
--   `Validate` with a value for each message, DeviceId is `generateDeviceID`, over any random bytes,
--   and Load is `Load`, over any file reader and YAML decoder.
-- Playlist: internal/playlist. Entry is types.go; Options is `parseVLCOpt` and `splitURLHeaders`;
--   Extinf is `attrRegex` and `parseEntry`; Parser is `Parse`. A nil header map is the empty one.
-- Lineup: internal/lineup. Lineup is lineup.go with `New`, `ChannelByNumber`, `Stream`; Rebuild is
--   `Rebuild`; Match is match.go. The atomic pointer to the snapshot is a field.
-- StreamProxy: internal/streamproxy. Subscriber is the client queue (`push`, `take`, `close`);
--   Session holds the session's record and the join prebuffer of `broadcast`; Handler has the
--   registry and the locked operations; Handler.Steps interleaves them as the goroutines do, a step
--   for each section under a lock, where each session's `runSession` has a place in its program
--   (`RunPc`); the call of `s.cancel()` that ends a `stop` is a step of its own, behind the lock.
--   Below it, Registry, Sessions, Cancels and Runs (with Places) are its invariants, Over is how
--   sessions end, Delivery (with Deliveries, Loud and Chunks) is what clients get, and Views (with
--   Queues and Moves) ties these steps to those of Client. Serve is
--   `ServeHTTP` up to the session that a request joins, and Client the rest of it, in steps beside
--   the session's goroutines. Pump is `pump`; Upstream is what is asked of the upstream and of ffmpeg,
--   and `isHLS`; Run is `runSession` and `runRemux`, with no other goroutine in between, over a
--   network and an ffmpeg that are the parameter `Network`.
-- LogoProxy: internal/logoproxy. `ServeHTTP` is split where it unlocks (`begin_logo`, `keep_logo`),
--   and LogoProxy.Cached interleaves requests.
-- Server: internal/server: the routes of `New` on a model of http.ServeMux, and the handlers behind
--   them. The cleaning of paths, the encoding of XML and gzip are the parameter `Encoders`, and Urls is
--   what is assumed of the path of a URL. Writer is
--   Go's ResponseWriter and `statusWriter`; Replies is what each handler writes to it, over the
--   encoders of JSON and XML and the router's redirects (`Texts`).
-- Main: cmd/iptv2hdhr/main.go: the start, the goroutines that refresh the playlists, the guides and
--   the lineup while it runs (`Running`), `advertise`, and Life, the steps of the process to its exit.
--   Ssdp: internal/ssdp: the advertisement, and the goroutine that repeats it, over the library.
-- Fetch: internal/fetchutil, and Fetch.Sources: `refreshSource` of both fetchers, which differ in the
--   document and its parser only. Playlist.Fetcher and Guide.Fetcher are fetcher.go of
--   internal/playlist and internal/guide, and their Loop is the goroutine that `Start` runs for a
--   source. HTTP, files and gzip are the parameter `World`, and each refresh has a fetch of its own
--   as a parameter.
-- Guide: internal/guide. Listing is merge.go, up to the encoding of XML. Xmltv is xmltv/types.go;
--   Filler is filler.go: `clipToWindow`, `fillerBlocks` and `BuildChannelProgrammes`. The parser
--   and printer of timestamps (Go's package time) are the parameter `TimeFormat`, and `sort.Slice`
--   is the parameter `Sorter`, which Sorting.Insertion fills.
-- Hdhr: internal/hdhr, the documents before their encoding as JSON or XML.
--
-- Numbers are natural numbers, or signed ones (Base.Int) where the configuration may be negative:
-- byte counts, ports and times stay far below the bounds of Go's integers. Loops recur on their
-- list. Two run on fuel: `fillerBlocks`, with one round for each whole block in the gap and one
-- more, where each round but the last takes a whole block off it; and the digits of a number
-- (`decimal`), with more rounds than it has digits.
-- Not modelled: flags, the listener and `outboundIP` of cmd/iptv2hdhr; the SSDP library; the
-- encodings of JSON, XML and YAML; HTTP, ffmpeg, files, timers' clocks and logging, but for the status
-- in the server's log.
pub mod Base
pub mod Config
pub mod Fetch
pub mod Playlist
pub mod Lineup
pub mod LogoProxy
pub mod Guide
pub mod Hdhr
pub mod Server
pub mod Ssdp
pub mod Main
pub mod StreamProxy
