-- ===== src/Main/Life/Tests.antt =====
-- A process that is interrupted: it ends before the advertisement has said goodbye.
use iptv2hdhr.Base.{ℕ, true, Option, none, some, [], inr, codes}
use iptv2hdhr.Base.Int.{pos}
use iptv2hdhr.Config.Schema.{Config}
use iptv2hdhr.Ssdp.{Advertisement, new_advertiser}
use iptv2hdhr.Main.Life.{returned_from_main, shut_down, Life, begin_life}

abbrev cfg : Config
cfg = record {
  device = record {
    friendly_name = codes "T";
    manufacturer = codes "M";
    model_number = codes "N";
    device_id = codes "12345678";
    tuner_count = pos 4;
    http_port = pos 8080;
    base_url = codes "http://tuner";
  };
  playlists = [];
  guides = [];
  channels = [];
}

abbrev library : Advertisement → Option ℕ
library ad = none

abbrev begun : Life ℕ
begun = begin_life library cfg (inr (codes "10.0.0.2"))

-- The process is over, and its advertisement still stands at the select, without a call of `Bye`.
abbrev unsaid : Life ℕ
unsaid = record {
  main = returned_from_main;
  on_signal = shut_down;
  ctx_done = true;
  server_closed = true;
  advertiser = some new_advertiser;
}
