-- ===== src/Server/Registry.antt =====
-- registry.rs: the connected clients. An `Arc<ClientEntry>` is its place in `entries`, so that a
-- request keeps the entry that it looked up, also after the client has left or come back.
pub mod Invariant
pub mod View
use zo_tunnel.Prelude.{
  ℕ, Bool, Option, none, some, List, [], ◌∷◌, ◌++◌, Result, ok, err, Exec, length, get_elem?, set,
  Text, Assoc, lookup, insert, remove, if◌then◌else◌,
}
use zo_tunnel.Server.Clock.{Instant, secs_since}
use zo_tunnel.Server.Config.{is_reserved}

pub record ClientMetrics : Type 0 where
  pub bytes_in : ℕ
  pub bytes_out : ℕ
  pub requests : ℕ
  pub active_streams : ℕ

abbrev pub new_metrics : ClientMetrics
new_metrics = record { bytes_in = 0; bytes_out = 0; requests = 0; active_streams = 0 }

-- `handle` names the yamux driver.
pub record ClientEntry : Type 0 where
  pub client_id : Text
  pub handle : ℕ
  pub connected_at : Instant
  pub metrics : ClientMetrics
  pub supports_heartbeat : Bool

pub record ClientInfo : Type 0 where
  pub client_id : Text
  pub connected_at_secs : ℕ
  pub bytes_in : ℕ
  pub bytes_out : ℕ
  pub total_requests : ℕ
  pub active_streams : ℕ

pub record Registry : Type 0 where
  pub clients : Assoc ℕ
  pub entries : List ClientEntry

pub data RegisterError : Type 0 where
  reserved already_registered : RegisterError

abbrev pub new : Registry
new = record { clients = []; entries = [] }

unfoldable pub register : Text → ℕ → Bool → Instant → Exec Registry RegisterError ℕ
register client_id handle supports_heartbeat now r =
    let entry : ClientEntry = record {
      client_id = client_id;
      handle = handle;
      connected_at = now;
      metrics = new_metrics;
      supports_heartbeat = supports_heartbeat;
    } in
    let place = length r.entries in
    if is_reserved client_id then (err reserved, r) else elim (lookup client_id r.clients) [
      | some _ ↦ (err already_registered, r)
      | none ↦ (
        ok place,
        record { clients = insert client_id place r.clients; entries = r.entries ++ entry ∷ [] },
      )
    ]

unfoldable pub unregister : Text → Registry → Registry
unregister client_id r = record r { clients = remove client_id r.clients }

unfoldable pub get : Text → Registry → Option ℕ
get client_id r = lookup client_id r.clients

-- What stands behind an `Arc`.
unfoldable pub entry_at : ℕ → Registry → Option ClientEntry
entry_at place r = get_elem? r.entries place

-- A change of an entry's counters through its `Arc`.
unfoldable pub update_metrics : ℕ → (ClientMetrics → ClientMetrics) → Registry → Registry
update_metrics place change r = elim (get_elem? r.entries place) [
  | none ↦ r
  | some e ↦ record r { entries = set r.entries place (record e { metrics = change e.metrics }) }
]

abbrev pub info : Instant → ClientEntry → ClientInfo
info now e = record {
  client_id = e.client_id;
  connected_at_secs = secs_since e.connected_at now;
  bytes_in = e.metrics.bytes_in;
  bytes_out = e.metrics.bytes_out;
  total_requests = e.metrics.requests;
  active_streams = e.metrics.active_streams;
}

unfoldable pub infos : Instant → List ClientEntry → Assoc ℕ → List ClientInfo
infos now entries [] = []
infos now entries ((_, place) ∷ clients) =
    let rest = infos now entries clients in
    elim (get_elem? entries place) [ none ↦ rest | some e ↦ info now e ∷ rest ]

unfoldable pub list : Instant → Registry → List ClientInfo
unfolding infos
list now r = infos now r.entries r.clients

unfoldable pub count : Registry → ℕ
count r = length r.clients
