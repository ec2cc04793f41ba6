-- ===== src/Tests/Web.antt =====
-- The web console of crates/console-web/src/main.rs with the token "secret".
use saaios.Prelude.{
  String, true, false, ◌≡◌, refl, none, some, List, [], ◌∷◌, map, ◌⊎◌, inl, inr, ◌+++◌, eq_iff,
}
use saaios.Protocol.{Result, ok, err}
use saaios.Samples.Json.{json}
use saaios.Web.{Addr, Args, Listener, HeaderMap, token_matches}
use saaios.Web.Api.{
  HttpRequest, Outside, AppState, serve_http, scope_named, api_status, api_confirm,
}
use saaios.Web.Refused.{with_token, refusals, serve_http-refused}
use saaios.Web.Forward.{forward}
use saaios.Web.Cuts.{forward-cuts}
use saaios.Protocol

abbrev net : Outside json
net = record {
  uds = λ n request. ok json.null;
  uds_stream = λ n request. ok [];
  parse_uuid = λ s. none;
  header_value = λ s. some s;
}

abbrev fresh : AppState json
fresh = record { chat_session = none; asked = [] }

-- One without a token, and one that approves a call with a token that only begins like the right one.
abbrev strangers : List (HttpRequest json)
strangers =
    record {
      route = api_status;
      headers = record { authorization = none; x_saaios_token = none; cookie = none };
      query = none;
      page = record { kiosk = none; token = none };
    }
    ∷ record {
      route = api_confirm (record {
        correlation_id = 1;
        call_id = 2;
        tool = "process.kill_request";
        arguments = json.null;
        scope = "once";
      });
      headers = record { authorization = some "Bearer sec"; x_saaios_token = none; cookie = none };
      query = none;
      page = record { kiosk = none; token = none };
    }
    ∷ []

shows_none : ⊥ ⊎ (⊥ ⊎ (⊥ ⊎ ⊥)) → ⊥
shows_none (inl a) = absurd a
shows_none (inr (inl a)) = absurd a
shows_none (inr (inr (inl a))) = absurd a
shows_none (inr (inr (inr a))) = absurd a

shows_other : ("Bearer sec" ≡ "Bearer " +++ "secret") ⊎ (⊥ ⊎ (⊥ ⊎ ⊥)) → ⊥
shows_other (inl a) = let same = (eq_iff "Bearer sec" ("Bearer " +++ "secret")).1 a in cc
shows_other (inr (inl a)) = absurd a
shows_other (inr (inr (inl a))) = absurd a
shows_other (inr (inr (inr a))) = absurd a

serve_http-refused_example :
    serve_http json net (with_token json net "secret" false) strangers fresh
    ≡ (refusals json net "secret" false strangers, fresh)
serve_http-refused_example =
    serve_http-refused json net "secret" false strangers fresh (shows_none, (shows_other, tt))

abbrev lan_args : Args
lan_args = record {
  bind = "127.0.0.1:7420";
  lan = true;
  port = 7420;
  token = some "secret";
  allow_open = false;
  tls_cert = none;
  tls_key = none;
  kiosk = false;
}

abbrev no_addr : String → Result String Addr
no_addr s = err "no address"

abbrev on_lan : Listener
on_lan = record {
  bind = record { host = "0.0.0.0"; port = 7420 };
  tls = none;
  settings = record { token = some "secret"; kiosk_default = false };
}

forward-cuts_example :
    forward json net.parse_uuid none (map ok ((97 ∷ 10 ∷ 98 ∷ []) ∷ []))
    ≡ forward json net.parse_uuid none (map ok ((97 ∷ []) ∷ (10 ∷ 98 ∷ []) ∷ []))
forward-cuts_example =
    forward-cuts json net.parse_uuid none ((97 ∷ 10 ∷ 98 ∷ []) ∷ [])
      ((97 ∷ []) ∷ (10 ∷ 98 ∷ []) ∷ []) refl

-- A word that the console does not know approves the call.
approves : scope_named "deny" ≡ Protocol.once
unfolding scope_named
approves = refl
