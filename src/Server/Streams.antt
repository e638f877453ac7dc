-- ===== src/Server/Streams.antt =====
-- server.rs and proxy.rs: what the server writes first on a stream that it opens to a client, and what
-- comes of a heartbeat.
pub mod Heartbeats
use zo_tunnel.Prelude.{
  ℕ, Bool, false, not, List, [], ◌∷◌, Exec, pure, Result, ok, err, if◌then◌else◌,
}
use zo_tunnel.Protocol.{Error, stream_type_proxy, stream_type_heartbeat}
use zo_tunnel.Protocol.Stream.{Stream, write_all}
use zo_tunnel.Server.Clock.{Instant}
use zo_tunnel.Server.Driver.{Beat, answered, failed, timed_out}

-- The marker of a stream for a request, for a client that knows markers.
unfoldable pub mark : Bool → Exec Stream Error Unit
mark supports_heartbeat = if supports_heartbeat then write_all (stream_type_proxy ∷ []) else pure tt

-- The package yamux, on a stream that is opened at an instant: whether it opens; what can be read from
-- it within ten seconds once the bytes are written, by whether the connection is polled meanwhile;
-- and whether it closes.
pub record Yamux : Type 0 where
  pub opens : Instant → Bool
  pub exchange : Instant → Bool → List ℕ → Result Error (List ℕ)
  pub closes : Instant → Bool

-- A heartbeat runs inside its arm of `select!`, where nothing polls the connection. The byte that
-- comes back is not looked at.
unfoldable pub beat : Yamux → Instant → Beat
beat y now =
    if not (y.opens now) then failed else elim (y.exchange now false (stream_type_heartbeat ∷ [])) [
      | err e ↦ failed
      | ok [] ↦ timed_out
      | ok (pong ∷ rest) ↦ if y.closes now then answered else failed
    ]
