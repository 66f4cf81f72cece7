-- ===== src/Playlist.antt =====
-- internal/playlist: the entries of an extended M3U playlist, its parser, and the fetcher that keeps
-- the merged list of entries.
pub mod Entry
pub mod Options
pub mod Extinf
pub mod Parser
pub mod Fetcher
mod Tests
