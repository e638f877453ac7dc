-- ===== src/Server/Metrics.antt =====
-- metrics.rs: the server's counters and their snapshot.
use zo_tunnel.Prelude.{ℕ}
use zo_tunnel.Server.Clock.{Instant, secs_since}

pub record Metrics : Type 0 where
  pub started_at : Instant
  pub total_requests : ℕ
  pub total_bytes_in : ℕ
  pub total_bytes_out : ℕ
  pub active_connections : ℕ
  pub total_connections : ℕ
  pub failed_auth : ℕ
  pub rate_limited : ℕ

unfoldable pub new : Instant → Metrics
new now = record {
  started_at = now;
  total_requests = 0;
  total_bytes_in = 0;
  total_bytes_out = 0;
  active_connections = 0;
  total_connections = 0;
  failed_auth = 0;
  rate_limited = 0;
}

pub record MetricsSnapshot : Type 0 where
  pub uptime_secs : ℕ
  pub total_requests : ℕ
  pub total_bytes_in : ℕ
  pub total_bytes_out : ℕ
  pub active_connections : ℕ
  pub total_connections : ℕ
  pub failed_auth : ℕ
  pub rate_limited : ℕ

unfoldable pub snapshot : Instant → Metrics → MetricsSnapshot
snapshot now m = record {
  uptime_secs = secs_since m.started_at now;
  total_requests = m.total_requests;
  total_bytes_in = m.total_bytes_in;
  total_bytes_out = m.total_bytes_out;
  active_connections = m.active_connections;
  total_connections = m.total_connections;
  failed_auth = m.failed_auth;
  rate_limited = m.rate_limited;
}
