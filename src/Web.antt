-- ===== src/Web.antt =====
-- crates/console-web/src/main.rs: the web console, which passes what a browser asks on to the service.
pub mod Access
pub mod Forward
pub mod Cuts
pub mod Api
pub mod Refused
use saaios.Prelude.{
  ℕ, String, Bool, true, false, not, ◌&&◌, ◌||◌, Option, none, some, List, [], ◌∷◌, any,
  if◌then◌else◌, str_eq, ◌+++◌, unwrap_or, is_some,
}
use saaios.Crates.{Crates}
use saaios.Protocol.{Result, ok, err}
use saaios.Text.{strip_prefix, split_on}

-- A socket's address.
pub record Addr : Type 0 where
  pub host : String
  pub port : ℕ

-- The command line; the path of the service's socket is left out.
pub record Args : Type 0 where
  pub bind : String
  pub lan : Bool
  pub port : ℕ
  pub token : Option String
  pub allow_open : Bool
  pub tls_cert : Option String
  pub tls_key : Option String
  pub kiosk : Bool

unfoldable pub resolve_bind : (String → Result String Addr) → Args → Result String Addr
resolve_bind parse_addr args =
    if args.lan then ok (record { host = "0.0.0.0"; port = args.port }) else parse_addr args.bind

-- What every handler reads.
pub record Settings : Type 0 where
  pub token : Option String
  pub kiosk_default : Bool

-- What the server listens with: the address, the certificate with its key, and the settings.
pub record Listener : Type 0 where
  pub bind : Addr
  pub tls : Option (String × String)
  pub settings : Settings

unfoldable pub tls_of : Option String → Option String → Result String (Option (String × String))
tls_of (some cert) (some key) = ok (some (cert, key))
tls_of none none = ok none
tls_of _ _ = err "both --tls-cert and --tls-key are required for HTTPS"

unfoldable pub guarded :
    Args → Addr → Result String (Option (String × String)) → Result String Listener
guarded args bind (err e) = err e
guarded args bind (ok tls) =
    if args.lan && (not (is_some args.token) && not args.allow_open)
    then err "--lan requires --token (or SAAIOS_STAGE_TOKEN), or pass --allow-open for lab use"
    else ok (record {
      bind = bind;
      tls = tls;
      settings = record { token = args.token; kiosk_default = args.kiosk };
    })

unfoldable pub bound : Args → Result String Addr → Result String Listener
unfolding guarded tls_of
bound args (err e) = err e
bound args (ok bind) = guarded args bind (tls_of args.tls_cert args.tls_key)

-- `main`, up to the server that it starts.
unfoldable pub start : (String → Result String Addr) → Args → Result String Listener
unfolding bound resolve_bind
start parse_addr args = bound args (resolve_bind parse_addr args)

-- The headers that are read, each if it is there and is text.
pub record HeaderMap : Type 0 where
  pub authorization : Option String
  pub x_saaios_token : Option String
  pub cookie : Option String

-- `strip_prefix(prefix)` gives the token.
unfoldable pub carries : String → String → String → Bool
unfolding strip_prefix
carries prefix expected s = elim (strip_prefix s prefix) [
  | none ↦ false
  | some v ↦ str_eq v expected
]

abbrev pub holds : (String → Bool) → Option String → Bool
holds p none = false
holds p (some s) = p s

unfoldable pub token_matches : (String → String) → String → HeaderMap → Option String → Bool
unfolding carries
token_matches trim expected headers query =
    holds (carries "Bearer " expected) headers.authorization
    || (holds (λ t. str_eq t expected) headers.x_saaios_token
        || (holds (λ q. any (carries "token=" expected) (split_on b'&' q)) query
            || holds
                (λ c. any (λ part. carries "saaios_token=" expected (trim part)) (split_on b';' c))
                headers.cookie))
