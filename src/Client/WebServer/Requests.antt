-- ===== src/Client/WebServer/Requests.antt =====
-- Every request keeps the invariant of the client.
use zo_tunnel.Prelude.{
  saved_file, ℕ, ◌≡◌, refl, sym, ap, subst, ◌∙◌, Bool, true, false, inl, inr, Option, none, some,
  [], is_empty, Result, Text, Bool-cases, Option-cases, arith,
}
use zo_tunnel.Client.Config.{TunnelEntry, TunnelsConfig, with_id}
use zo_tunnel.Client.Config.Named.{
  AllNamed, add_tunnel-AllNamed, update_tunnel-AllNamed, remove_tunnel-AllNamed,
}
use zo_tunnel.Client.Manager.{TunnelManager, ManagerError, start_all}
use zo_tunnel.Client.Manager
use zo_tunnel.Client.Manager.Faithful.{
  IsFaithful, add_tunnel-IsFaithful, update_tunnel-IsFaithful, remove_tunnel-IsFaithful,
}
use zo_tunnel.Client.Manager.Configs.{
  start_all-config, add_tunnel-config, update_tunnel-config, remove_tunnel-config,
}
use zo_tunnel.Client.Config.Unique.{IsNewId}
use zo_tunnel.Client.Storage.{SavedCredentials, Disk, load_tunnels, load_or_default}
use zo_tunnel.Client.WebServer.{
  Connected, credentials_of, Host, Io, new_manager, connect, disconnect,
}
use zo_tunnel.Client.WebServer.Handlers.{
  came_to_save, edited, acted, saved, wrong, add_checked, update_checked,
}
use zo_tunnel.Client.WebServer.Router.{Request}
use zo_tunnel.Client.WebServer.Saves.{
  add_tunnel-unsaved, update_tunnel-unsaved, remove_tunnel-unsaved,
}
use zo_tunnel.Client.WebServer.Sound.{
  IsName, IsFine, IsSound, IsFreshFor, wrong-none, moved-IsSound, idle-IsSound, started-IsFaithful,
}

module _ (is_alphanumeric : ℕ → Bool) (io : Io) (writes : io.tunnels ≡ none) (h : Host)
    (s : IsSound is_alphanumeric h) where
  written : (c : TunnelsConfig) → load_or_default (saved_file io.tunnels c) ≡ c
  unfolding saved_file load_or_default load_tunnels
  written c = ground arith

  module _ (c : Connected) (there : h.app.inner ≡ some c) where
    IsFine-now : IsFine is_alphanumeric c.manager.config
    IsFine-now = subst (IsFine is_alphanumeric) (s.kept c there) s.fine

    pub acted-IsSound :
        (done : Text) (out : Result ManagerError (Unit {0}) × TunnelManager)
        → IsFaithful out.1
        → out.1.config ≡ c.manager.config
        → IsSound is_alphanumeric (acted io done out c h).1
    unfolding acted
    acted-IsSound done out f same =
        moved-IsSound is_alphanumeric h c out.1 h.disk f
          (subst (IsFine is_alphanumeric) (sym same) IsFine-now) (s.kept c there ∙ sym same)

    edited-IsSound :
        (r : Result ManagerError TunnelEntry) (m : TunnelManager)
        → IsFaithful m
        → IsFine is_alphanumeric m.config
        → (came_to_save r ≡ false → m.config ≡ c.manager.config)
        → IsSound is_alphanumeric (edited io (r, m) c h).1
    unfolding edited
    edited-IsSound r m f fine unsaved = elim (Bool-cases (came_to_save r)) [
      | inl came ↦ rw came (
          moved-IsSound is_alphanumeric h c m
            (record h.disk { tunnels = saved_file io.tunnels m.config }) f fine (written m.config))
      | inr not_ ↦
          rw not_ (
            moved-IsSound is_alphanumeric h c m h.disk f fine (s.kept c there ∙ sym (unsaved not_)))
    ]

    add-IsSound :
        (entry : TunnelEntry)
        → IsName is_alphanumeric entry.client_id
        → is_empty entry.id ≡ true
        → IsFreshFor is_alphanumeric h io
            (Request.adds entry.client_id entry.local_addr entry.enabled)
        → IsSound is_alphanumeric
            (edited io (Manager.add_tunnel io.generated (saved io) entry c.manager) c h).1
    add-IsSound entry name blank new =
        let fresh =
          subst (λ (k : TunnelsConfig). IsNewId io.generated k.tunnels) (s.kept c there) new in
        let out = Manager.add_tunnel io.generated (saved io) entry c.manager in
        let fresh' : IsNewId (with_id io.generated entry).id c.manager.config.tunnels =
          rw blank fresh in
        let f = s.faithful c there in
        let config' = sym (add_tunnel-config io.generated (saved io) entry c.manager) in
        edited-IsSound out.0 out.1
          (add_tunnel-IsFaithful io.generated (saved io) entry c.manager fresh' f)
          (
            (add_tunnel-IsFaithful io.generated (saved io) entry c.manager fresh' f).distinct,
            subst (λ (k : TunnelsConfig). AllNamed (IsName is_alphanumeric) k.tunnels) config'
                (add_tunnel-AllNamed (IsName is_alphanumeric) io.generated (saved io) entry
                  c.manager.config name IsFine-now.1),
          )
          (add_tunnel-unsaved io.generated (saved io) entry c.manager)

    update-IsSound :
        (id client_id local_addr : Text) (enabled : Bool)
        → IsName is_alphanumeric client_id
        → IsSound is_alphanumeric
            (edited io
              (Manager.update_tunnel id client_id local_addr enabled (saved io) c.manager)
              c
              h).1
    update-IsSound id client_id local_addr enabled name =
        let out = Manager.update_tunnel id client_id local_addr enabled (saved io) c.manager in
        let f =
          update_tunnel-IsFaithful id client_id local_addr enabled (saved io) c.manager
            (s.faithful c there) in
        let config' =
          sym (update_tunnel-config id client_id local_addr enabled (saved io) c.manager) in
        edited-IsSound out.0 out.1 f
          (
            f.distinct,
            subst (λ (k : TunnelsConfig). AllNamed (IsName is_alphanumeric) k.tunnels) config'
                (update_tunnel-AllNamed (IsName is_alphanumeric) id client_id local_addr enabled
                  (saved io) c.manager.config name IsFine-now.1),
          )
          (update_tunnel-unsaved id client_id local_addr enabled (saved io) c.manager)

    pub remove-IsSound :
        (id : Text)
        → IsSound is_alphanumeric (edited io (Manager.remove_tunnel id (saved io) c.manager) c h).1
    remove-IsSound id =
        let out = Manager.remove_tunnel id (saved io) c.manager in
        let f = remove_tunnel-IsFaithful id (saved io) c.manager (s.faithful c there) in
        let config' = sym (remove_tunnel-config id (saved io) c.manager) in
        edited-IsSound out.0 out.1 f
          (
            f.distinct,
            subst (λ (k : TunnelsConfig). AllNamed (IsName is_alphanumeric) k.tunnels) config'
                (remove_tunnel-AllNamed (IsName is_alphanumeric) id (saved io) c.manager.config
                  IsFine-now.1),
          )
          (remove_tunnel-unsaved id (saved io) c.manager)

  fresh-IsSound :
      (creds : SavedCredentials) (disk : Disk)
      → disk.tunnels ≡ h.disk.tunnels
      → let c = new_manager creds (load_or_default h.disk.tunnels) in
        IsSound is_alphanumeric (record h {
          app = record h.app { inner = some (record c { manager = start_all c.manager }) };
          disk = disk;
        })
  unfolding new_manager
  fresh-IsSound creds disk same =
      let config = load_or_default h.disk.tunnels in
      let m = start_all (record { config = config; tunnels = [] }) in
      let kept : m.config ≡ config = start_all-config (record { config = config; tunnels = [] }) in
      moved-IsSound is_alphanumeric h (new_manager creds config) m disk
        (started-IsFaithful is_alphanumeric config s.fine)
        (subst (IsFine is_alphanumeric) (sym kept) s.fine) (ap load_or_default same ∙ sym kept)

  module _ (client_id local_addr : Text) (enabled : Bool) (c : Connected)
      (there : h.app.inner ≡ some c) where
    pub add_checked-IsSound :
        IsFreshFor is_alphanumeric h io (Request.adds client_id local_addr enabled)
        → IsSound is_alphanumeric
            (add_checked io is_alphanumeric client_id local_addr enabled c h).1
    unfolding add_checked
    add_checked-IsSound new = elim (Option-cases (wrong is_alphanumeric client_id local_addr)) [
      | inr (msg, bad) ↦ rw (bad, add_checked) s
      | inl fine ↦
          rw (fine, add_checked)
            (add-IsSound c there
              (record {
                id = [];
                client_id = client_id;
                local_addr = local_addr;
                enabled = enabled;
              })
              (wrong-none is_alphanumeric client_id local_addr fine) refl new)
    ]

    pub update_checked-IsSound :
        (id : Text)
        → IsSound is_alphanumeric
            (update_checked io is_alphanumeric id client_id local_addr enabled c h).1
    unfolding update_checked
    update_checked-IsSound id = elim (Option-cases (wrong is_alphanumeric client_id local_addr)) [
      | inr (msg, bad) ↦ rw (bad, update_checked) s
      | inl fine ↦
          rw (fine, update_checked)
            (update-IsSound c there id client_id local_addr enabled
              (wrong-none is_alphanumeric client_id local_addr fine))
    ]

  pub connect-IsSound :
      (server token : Text) (tls : Bool) (name : Option Text) (skip : Bool)
      → IsSound is_alphanumeric (connect io server token tls name skip h).1
  unfolding connect disconnect
  connect-IsSound server token tls name skip = elim (Option-cases io.credentials) [
    | inr (left, failed) ↦ rw (failed, connect) (idle-IsSound is_alphanumeric h _ s refl refl)
    | inl done ↦
        let creds = credentials_of server token tls name skip in
        rw (done, connect)
          (fresh-IsSound creds
            (record { credentials = saved_file io.credentials creds; tunnels = h.disk.tunnels })
            refl)
  ]

  pub disconnect-IsSound : IsSound is_alphanumeric (disconnect io h).1
  unfolding disconnect
  disconnect-IsSound = idle-IsSound is_alphanumeric h (disconnect io h).1 s refl refl
