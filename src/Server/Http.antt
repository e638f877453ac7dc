-- ===== src/Server/Http.antt =====
-- Requests and responses, as far as the server looks at them. The package hyper is a parameter.
use zo_tunnel.Prelude.{ℕ, Option, none, some, List, Text, Assoc, lookup}

-- `HeaderValue::to_str`, `HeaderValue::from_str`, and `Uri` parsing into path and query.
pub record Http : Type 0 where
  pub to_str : List ℕ → Option Text
  pub from_str : Text → Option (List ℕ)
  pub parse_uri : Text → Option (Text × Option Text)

-- `HeaderMap`
abbrev pub Headers : Type 0
Headers = Assoc (List ℕ)

pub record Request : Type 0 where
  pub headers : Headers
  pub path : Text
  pub query : Option Text
  pub body : List ℕ

pub record Response : Type 0 where
  pub status : ℕ
  pub headers : Assoc Text
  pub body : Text

-- `headers.get(name).and_then(|v| v.to_str().ok())`
unfoldable pub header_str : Http → Text → Headers → Option Text
header_str http name headers = elim (lookup name headers) [ none ↦ none | some v ↦ http.to_str v ]
