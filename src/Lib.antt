-- ===== src/Lib.antt =====
-- zo-tunnel: a client opens a control connection to a server and is then reachable at
-- <client_id>.<domain>. The server takes public HTTP requests and forwards each of them through the
-- connection of the client that its host names; it also serves a dashboard, and answers Caddy when
-- that asks whether a domain may get a certificate.
--
-- The files and the code they are about, paths from the repository's root:
--   Protocol             crates/zo-tunnel-protocol/src/lib.rs: message types and payloads; Protocol/Codec
--                        has encode_payload, decode, write_message and read_message on the connection
--                        of Protocol/Stream, Protocol/Utf8 the conversions of texts to bytes and back.
--                        Protocol/Delivery has what arrives at the other end of a connection.
--   Protocol/SelfUpdate, Protocol/Files, Protocol/Upgrade, Protocol/Uninstall
--                        self_update.rs beside it: which release is newer and the name of the target,
--                        the copying of the binary, the upgrade, the removal.
--   Server/Config        crates/zo-tunnel-server/src/config.rs: settings, reserved names, token checks.
--   Server/Registry      registry.rs beside it: the connected clients.
--   Server/Metrics, Server/RateLimiter
--                        metrics.rs beside it; Server/Clock has the instants and the atomic counters.
--   Server/Proxy         proxy.rs beside it: handle_proxy_request, cut into steps at its awaits;
--                        Proxy/System interleaves many requests with clients that come and go,
--                        and with requests that hyper drops between two awaits.
--   Server/Session       server.rs beside it: accept_clients and handle_client; Session/Ownership has
--                        many sessions on one registry.
--   Server/Driver, Server/Streams
--                        server.rs: the loop of spawn_yamux_driver; what its heartbeats come to, and
--                        the marker that proxy.rs puts in front of a request.
--   Server/Dispatch      server.rs: serve_http, between dashboard and proxy.
--   Server/Dashboard     dashboard.rs beside it: sessions, cookies and the API handlers.
--   Server/Caddy         caddy.rs beside it: the manager of Caddy's on-demand endpoint.
--   Server/Lifecycle     server.rs: Server::run, with what others do at Caddy meanwhile, and the state
--                        that its dashboard starts with.
--   Server/Commands      main.rs beside it, config.rs and self_update.rs: the files of settings and the
--                        commands that start, stop and restart the service.
--   Client/Config        crates/zo-tunnel-client/src/config.rs: the list of tunnels.
--   Client/Storage       config.rs: the files of the tunnels and of the credentials.
--   Client/Credentials   config.rs: the part of the saved token that is shown.
--   Client/Session       client.rs beside it: the connection, the handshake, the loop of the session and
--                        the tasks of its streams. Session/Handshake and Session/Streams join them
--                        with the server's side of the same connection.
--   Client/Manager       tunnel_manager.rs beside it: the tunnels that run, and their backoff.
--   Client/WebServer     web_server.rs beside it: the state behind the page, connect and disconnect;
--                        WebServer/Api has the replies, WebServer/Handlers and WebServer/Upgrades the
--                        handlers, WebServer/Router the requests in the order in which they come.
--   Client/Process       main.rs beside it: the file of the process id, start, stop, foreground;
--                        Process/Uninstall has uninstall.
--   Prelude              texts, lists, maps and results that these share.
-- The proofs stand in child modules named for what they are about, and the tests at concrete states
-- in modules named Tests, with the states and packages they use in modules named Samples.
--
-- State is passed explicitly: a method takes the object and returns it, with a Result where the code
-- returns one, and what was changed before an error stays changed. A text is the list of its Unicode
-- scalar values. DashMap is an association list without repeated keys. An Arc<ClientEntry> is a place
-- in a list of entries that only grows. Counters wrap at 2 ^ 64, the length of a frame is cast to 32
-- bits as the code casts it, and time is a number of nanoseconds. Code between two awaits runs without
-- interruption in the model, and any order of such pieces is a list of events.
--
-- Parameters stand for the packages: serde_json and bytes (Wire), hyper's headers and URIs (Http),
-- subtle's ct_eq, uuid, yamux through the events of the driver and one stream of it (Yamux), the
-- sockets and the TLS library of the client (Network), and the HTTP requests to Caddy. Their
-- documented behaviour is a record of laws or a named hypothesis where a theorem needs it. What the
-- operating system answers is an argument too: a file is what its reader gets, a write succeeds or
-- fails (Io, Write), a program that is run ends well or not, and a process is there or not after so
-- many pauses of 100 ms (Os). The local service is a function from what it is sent to what it
-- answers, and char::is_alphanumeric is any test.
--
-- Recursion is structural everywhere but in two places with fuel: from_utf8_lossy has as much as
-- there are bytes, since each step takes one at least, and the numeral of a 64-bit number has twenty
-- digits at most. The loop that waits for a process counts the twenty pauses of the code.
--
-- Not modelled: the inside of sockets, TLS and YAML; the parsers of the arguments and the commands that
-- only print (status, logs); the unit that systemd reads; the static web pages with their headers, and
-- the scripts. They pass values on to the operating system or to packages, without state of their own.
-- Requests to the client's page are handled one after the other.
pub mod Prelude
pub mod Protocol
pub mod Server
pub mod Client
