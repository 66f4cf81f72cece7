-- ===== src/Playlist/Entry.antt =====
-- internal/playlist/types.go.
use iptv2hdhr.Base.{Bytes, Dict}

-- `headers` is the nil map where the entry has none, here the empty one.
pub record Entry : Type 0 where
  pub name : Bytes
  pub tvg_id : Bytes
  pub tvg_name : Bytes
  pub tvg_logo : Bytes
  pub group_title : Bytes
  pub url : Bytes
  pub headers : Dict Bytes
