-- ===== src/Client/Storage.antt =====
-- config.rs: the two files of the client. What the file system makes of a removal is an argument.
use zo_tunnel.Prelude.{
  File, missing, unreadable, holds, Bool, true, false, Option, none, some, [], Result, ok, err,
  Text,
}
use zo_tunnel.Client.Config.{TunnelsConfig}
use zo_tunnel.Client.Session.{ClientTlsConfig}

pub record SavedCredentials : Type 0 where
  pub server : Text
  pub token : Text
  pub tls : ClientTlsConfig

pub record Disk : Type 0 where
  pub credentials : File SavedCredentials
  pub tunnels : File TunnelsConfig

-- `SavedCredentials::load`; an error is `err`.
unfoldable pub load_credentials :
    File SavedCredentials → Result (Unit {0}) (Option SavedCredentials)
load_credentials missing = ok none
load_credentials unreadable = err tt
load_credentials (holds c) = ok (some c)

-- `SavedCredentials::delete`, whose result no caller looks at.
unfoldable pub deleted : Bool → File SavedCredentials → File SavedCredentials
deleted true f = missing
deleted false f = f

-- `TunnelsConfig::load`
unfoldable pub load_tunnels : File TunnelsConfig → Result (Unit {0}) TunnelsConfig
load_tunnels missing = ok (record { tunnels = [] })
load_tunnels unreadable = err tt
load_tunnels (holds c) = ok c

-- `TunnelsConfig::load().unwrap_or_default()`
unfoldable pub load_or_default : File TunnelsConfig → TunnelsConfig
unfolding load_tunnels
load_or_default f = elim (load_tunnels f) [ ok c ↦ c | err _ ↦ record { tunnels = [] } ]
