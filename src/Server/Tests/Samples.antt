-- ===== src/Server/Tests/Samples.antt =====
-- States and packages that the tests share.
use zo_tunnel.Prelude.{refl, true, none, some, [], ◌∷◌, text, text_eq}
use zo_tunnel.Server.Clock.{second}
use zo_tunnel.Server.Config.{ServerConfig, default, is_reserved}
use zo_tunnel.Server.Http.{Http, Request}
use zo_tunnel.Server.Metrics.{Metrics}
use zo_tunnel.Server.Registry.{Registry, ClientEntry, new_metrics}
use zo_tunnel.Server.Registry.Invariant.{IsWellFormed}
use zo_tunnel.Server.Proxy.{World}

-- Header values and texts are the same here, and a path has no query.
abbrev pub sample_http : Http
sample_http = record {
  to_str = λ b. some b;
  from_str = λ t. some t;
  parse_uri = λ t. some (t, none);
}

abbrev pub sample_config : ServerConfig
sample_config = record default {
  domain = text "t.io";
  auth = record { tokens = text "secret" ∷ [] };
}

-- One client, `api2`, is registered.
abbrev pub sample_entry : ClientEntry
sample_entry = record {
  client_id = text "api2";
  handle = 7;
  connected_at = second;
  metrics = new_metrics;
  supports_heartbeat = true;
}

abbrev pub sample_registry : Registry
sample_registry = record { clients = (text "api2", 0) ∷ []; entries = sample_entry ∷ [] }

pub sample-IsWellFormed : IsWellFormed sample_registry
unfolding is_reserved text_eq
sample-IsWellFormed = record {
  held = ((refl, (sample_entry, refl, refl)), tt);
  distinct = (tt, tt);
}

abbrev pub sample_metrics : Metrics
sample_metrics = record {
  started_at = 0;
  total_requests = 0;
  total_bytes_in = 0;
  total_bytes_out = 0;
  active_connections = 0;
  total_connections = 0;
  failed_auth = 0;
  rate_limited = 0;
}

abbrev pub sample_world : World
sample_world = record {
  registry = sample_registry;
  metrics = sample_metrics;
  rate_limiter = record { max_per_second = 2; counters = [] };
}

abbrev pub sample_request : Request
sample_request = record {
  headers = (text "host", text "api2.t.io:443") ∷ [];
  path = text "/x";
  query = none;
  body = [];
}
