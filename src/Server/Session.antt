-- ===== src/Server/Session.antt =====
-- server.rs: `accept_clients` and `handle_client`, the control connection of one client. The yamux
-- driver runs between `start` and `finish`, and is named by a number.
pub mod Admission
pub mod Entries
pub mod Ownership
use zo_tunnel.Prelude.{
  ℕ, Bool, true, false, not, Option, none, some, List, [], ◌∷◌, ◌++◌, Result, ok, err, Text, text,
  if◌then◌else◌,
}
use zo_tunnel.Protocol.{Message, AuthReq, AuthRes, supports_heartbeat}
use zo_tunnel.Protocol
use zo_tunnel.Protocol.Stream.{Stream}
use zo_tunnel.Protocol.Codec.{Wire, read_message, write_message}
use zo_tunnel.Server.Clock.{Instant, fetch_add}
use zo_tunnel.Server.Config.{ServerConfig, validate_token}
use zo_tunnel.Server.Metrics.{Metrics}
use zo_tunnel.Server.Registry.{Registry, register, unregister}

-- What a session works on: its own stream, and what all sessions share.
pub record Control : Type 0 where
  pub stream : Stream
  pub registry : Registry
  pub metrics : Metrics

pub data SessionError : Type 0 where
  auth_timeout : SessionError
  protocol : Protocol.Error → SessionError

-- A client that is registered, while its driver runs.
pub record Serving : Type 0 where
  pub client_id : Text
  pub place : ℕ

-- `metrics.total_connections.fetch_add(1)` of `accept_clients`, for every accepted connection.
unfoldable pub accept : Metrics → Metrics
accept m = record m { total_connections = fetch_add m.total_connections }

abbrev pub denial : AuthRes
denial = record {
  success = false;
  message = text "Invalid token";
  public_port = none;
  assigned_route = none;
}

abbrev pub welcome_message : ServerConfig → Text → AuthRes
welcome_message config client_id = record {
  success = true;
  message = text "OK — " ++ (client_id ++ b'.' ∷ config.domain);
  public_port = some config.public_port;
  assigned_route = some client_id;
}

-- The registration behind the handshake: a refusal ends the session without an error.
unfoldable pub enrol :
    ℕ → Instant → AuthReq → Control → Result SessionError (Option Serving) × Control
enrol handle now auth c =
    let (r, registry) = register auth.client_id handle (supports_heartbeat auth) now c.registry in
    elim r [
      | err e ↦ (ok none, record c { registry = registry })
      | ok place ↦ (
        ok (some (record { client_id = auth.client_id; place = place })),
        record c { registry = registry },
      )
    ]

module _ (w : Wire) (config : ServerConfig) where
  unfoldable pub refuse : Control → Result SessionError (Option Serving) × Control
  refuse c =
      let (r, s) = write_message w (Message.auth_res denial) c.stream in
      elim r [
        | err e ↦ (err (protocol e), record c { stream = s })
        | ok _ ↦ (
          ok none,
          record c {
            stream = s;
            metrics = record c.metrics { failed_auth = fetch_add c.metrics.failed_auth };
          },
        )
      ]

  unfoldable pub welcome :
      ℕ → Instant → AuthReq → Control → Result SessionError (Option Serving) × Control
  welcome handle now auth c =
      let (r, s) =
        write_message w (Message.auth_res (welcome_message config auth.client_id)) c.stream in
      elim r [
        | err e ↦ (err (protocol e), record c { stream = s })
        | ok _ ↦ enrol handle now auth (record c { stream = s })
      ]

  unfoldable pub authenticate :
      ℕ
      → Instant
      → Result Protocol.Error Message
      → Control
      → Result SessionError (Option Serving) × Control
  authenticate handle now (err e) c = (err (protocol e), c)
  authenticate handle now (ok (Message.auth_req auth)) c =
      if not (validate_token config auth.token) then refuse c else welcome handle now auth c
  authenticate handle now (ok other) c = (ok none, c)

  -- `handle_client` up to the wait for the driver; `timely` says that the first message came
  -- within ten seconds.
  unfoldable pub start :
      ℕ → Instant → Bool → Control → Result SessionError (Option Serving) × Control
  start handle now timely c =
      let (r, s) = read_message w c.stream in
      if timely then authenticate handle now r (record c { stream = s }) else (err auth_timeout, c)

-- `handle_client` after the driver has ended.
unfoldable pub finish : Serving → Registry → Registry
finish s r = unregister s.client_id r
