-- ===== src/Client/WebServer/Sound.antt =====
-- The invariant of the client under every request.
use zo_tunnel.Prelude.{
  ℕ, ◌≡◌, ◌≢◌, sym, subst, Bool, true, inl, inr, none, some, List, [], ◌∷◌, Text, Option-cases,
  arith, lookup,
}
use zo_tunnel.Client.Config.{TunnelsConfig}
use zo_tunnel.Client.Config.Unique.{IsDistinct, IsNewId}
use zo_tunnel.Client.Config.Named.{AllNamed}
use zo_tunnel.Client.Manager.{TunnelManager, start_all}
use zo_tunnel.Client.Manager.Faithful.{IsFaithful}
use zo_tunnel.Client.Manager.Orders.{Op, step, step-IsFaithful}
use zo_tunnel.Client.Storage.{Disk, load_or_default}
use zo_tunnel.Client.WebServer.{Connected, Host, Io}
use zo_tunnel.Client.WebServer.Handlers.{Handler, require_connected, wrong, is_name}
use zo_tunnel.Client.WebServer.Router.{Env, Request, respond}

module _ (is_alphanumeric : ℕ → Bool) where
  -- A name that the page lets through.
  abbrev pub IsName : Text → Type 0
  IsName s = (s ≢ []) × (is_name is_alphanumeric s ≡ true)

  abbrev pub IsFine : TunnelsConfig → Type 0
  IsFine c = IsDistinct c.tunnels × AllNamed IsName c.tunnels

  -- The manager, if there is one, runs its tunnels as they are configured; names and identifiers
  -- are distinct, and every name is one that the page lets through; the file holds the
  -- configuration of the manager, and such a one in any case.
  pub record IsSound (h : Host) : Type 0 where
    pub faithful : (c : Connected) → h.app.inner ≡ some c → IsFaithful c.manager
    pub fine : IsFine (load_or_default h.disk.tunnels)
    pub kept :
        (c : Connected) → h.app.inner ≡ some c → load_or_default h.disk.tunnels ≡ c.manager.config

  -- The tunnel of a request to add one gets a new identifier.
  abbrev pub IsFreshFor : Host → Io → Request → Type 0
  IsFreshFor h io (Request.adds client_id local_addr enabled) =
      IsNewId io.generated (load_or_default h.disk.tunnels).tunnels
  IsFreshFor h io r = Unit

  -- Each write of the tunnels' file succeeds.
  abbrev pub Served : Env → Host → List (Io × Request) → Type 0
  Served env h [] = Unit
  Served env h ((io, r) ∷ rest) =
      (io.tunnels ≡ none) × IsFreshFor h io r × Served env (respond env io r h).1 rest

  pub wrong-none :
      (client_id local_addr : Text)
      → wrong is_alphanumeric client_id local_addr ≡ none
      → IsName client_id
  unfolding wrong
  wrong-none [] local_addr h = absurd (ground arith)
  wrong-none (c ∷ s) local_addr h = (ground arith, ground arith)

  pub moved-IsSound :
      (h : Host) (c : Connected) (m : TunnelManager) (disk : Disk)
      → IsFaithful m
      → IsFine m.config
      → load_or_default disk.tunnels ≡ m.config
      → IsSound
          (record h { app = record h.app { inner = some (record c { manager = m }) }; disk = disk })
  moved-IsSound h c m disk f ok_ same = record {
    faithful = λ c' e. let there : m ≡ c'.manager = ground arith in subst IsFaithful there f;
    fine = subst IsFine (sym same) ok_;
    kept = λ c' e. let there : m ≡ c'.manager = ground arith in ground arith;
  }

  pub idle-IsSound :
      (h h' : Host)
      → IsSound h
      → h'.app.inner ≡ none
      → h'.disk.tunnels ≡ h.disk.tunnels
      → IsSound h'
  idle-IsSound h h' s idle same = record {
    faithful = λ c e. absurd (ground arith);
    fine = subst (λ f. IsFine (load_or_default f)) (sym same) s.fine;
    kept = λ c e. absurd (ground arith);
  }

  pub started-IsFaithful :
      (config : TunnelsConfig)
      → IsFine config
      → IsFaithful (start_all (record { config = config; tunnels = [] }))
  unfolding step lookup
  started-IsFaithful config ok_ =
      step-IsFaithful (record { config = config; tunnels = [] }) Op.starts_all
        (record { runs = λ k e there. absurd (ground arith); distinct = ok_.0 }) tt

  pub require-IsSound :
      (k : Connected → Handler) (h : Host)
      → IsSound h
      → ((c : Connected) → h.app.inner ≡ some c → IsSound (k c h).1)
      → IsSound (require_connected k h).1
  unfolding require_connected
  require-IsSound k h s each = elim (Option-cases h.app.inner) [
    | inl idle ↦ rw (idle, require_connected) s
    | inr (c, there) ↦ rw (there, require_connected) (each c there)
  ]
