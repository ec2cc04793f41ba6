-- ===== src/Web/Refused.antt =====
-- What browsers without the token can do at the web console of crates/console-web/src/main.rs.
use saaios.Prelude.{◌≡◌, refl, String, Bool, some, List, [], ◌∷◌, All, Bool-cases, inl, inr}
use saaios.Crates.{Crates}
use saaios.Web.{Settings, token_matches}
use saaios.Web.Access.{Presents, token_matches_iff}
use saaios.Web.Api.{
  HttpRequest, Response, unauthorized, Outside, AppState, require_token, serve_http,
}

module _ (C : Crates) (net : Outside C) (expected : String) (kiosk : Bool) where
  abbrev pub with_token : Settings
  with_token = record { token = some expected; kiosk_default = kiosk }

  abbrev pub Strange : HttpRequest C → Type 0
  Strange r = Presents C.trim expected r.headers r.query → ⊥

  require_token-refused :
      (r : HttpRequest C) (s : AppState C)
      → Strange r
      → require_token C net with_token r s ≡ (unauthorized, s)
  unfolding require_token
  require_token-refused r s h =
      elim (Bool-cases (token_matches C.trim expected r.headers r.query)) [
        | inl e ↦ absurd (h ((token_matches_iff C.trim expected r.headers r.query).0 e))
        | inr e ↦ rw (require_token, e) refl
      ]

  abbrev pub refusals : List (HttpRequest C) → List (Response C)
  refusals [] = []
  refusals (r ∷ rs) = unauthorized ∷ refusals rs

  -- Where a token is set, any number of requests that do not show it, to any page or call, are all
  -- refused: nothing is asked of the service, and the session of the chat stays.
  pub serve_http-refused :
      (rs : List (HttpRequest C)) (s : AppState C)
      → All Strange rs
      → serve_http C net with_token rs s ≡ (refusals rs, s)
  unfolding serve_http
  serve_http-refused [] s h = refl
  serve_http-refused (r ∷ rs) s (h, hs) =
      rw (serve_http, require_token-refused r s h, serve_http-refused rs s hs) refl
