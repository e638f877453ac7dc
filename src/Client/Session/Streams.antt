-- ===== src/Client/Session/Streams.antt =====
-- The streams of a session from both ends: proxy.rs writes a marker first, client.rs reads it.
use zo_tunnel.Prelude.{◌≡◌, none, some, ℕ, List, [], ◌>>◌, true, Text, arith}
use zo_tunnel.Protocol.{supports_heartbeat}
use zo_tunnel.Protocol.Stream.{read_exact, write_all}
use zo_tunnel.Protocol.Delivery.{arriving}
use zo_tunnel.Server.Streams.{mark}
use zo_tunnel.Client.Session.{
  Client, Local, Handled, forwarded, dropped, handle_tunnel_stream, handle_stream, auth_req,
}

-- A request on a stream of its own: the server writes the marker that the client's first message asks
-- for, and the bytes; the client's task makes of it what it makes of a stream.
abbrev pub proxied : Local → Text → Client → List ℕ → Handled
proxied local version c request =
    let marked = mark (supports_heartbeat (auth_req version c)) in
    let sent = ((marked >> write_all request) (arriving [] [] true)).1 in
    handle_stream local c.local_addr true (arriving sent.outgoing [] true)

-- A request to a client, whatever its bytes: the local service is sent exactly them and the server is
-- sent its answer, or the stream is dropped where the service cannot be reached; neither the marker
-- nor a request that begins as a heartbeat is taken for the other.
pub proxied_lem :
    (local : Local) (version : Text) (c : Client) (request : List ℕ)
    → proxied local version c request ≡ elim (local c.local_addr) [
      | none ↦ dropped (arriving request [] true)
      | some service ↦ forwarded (arriving [] (service request) true)
    ]
unfolding supports_heartbeat mark handle_stream handle_tunnel_stream read_exact write_all
proxied_lem local version c request = ground arith
