-- ===== src/Guide.antt =====
-- internal/guide: the programme guide. Xmltv holds the records of an XMLTV document and the interface
-- to its timestamps; Filler makes a channel's programmes for the guide window.
pub mod Xmltv
pub mod Seconds
pub mod Sorting
pub mod Filler
pub mod Fetcher
pub mod Listing
mod Tests
