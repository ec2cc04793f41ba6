-- ===== src/Web/Api.antt =====
-- The handlers of crates/console-web/src/main.rs, behind the check of the token. The style sheet and the
-- script are files; the log of requests is left out.
use saaios.Prelude.{
  ℕ, String, Bool, true, false, not, ◌||◌, Option, none, some, List, [], ◌∷◌, ◌++◌, if◌then◌else◌,
  str_eq, one_of, ◌+++◌, length,
}
use saaios.Crates.{Crates}
use saaios.Protocol.{ConfirmScope, once, session, cancel, Result, ok, err}
use saaios.Service.{
  ClientRequest, diagnose, confirm, chat_reset, status, events_tail, session_grants,
  clear_session_grants,
}
use saaios.Web.{Settings, HeaderMap, token_matches}
use saaios.Web.Forward.{Passed, forward}

-- The query that a page reads.
pub record PageQuery : Type 0 where
  pub kiosk : Option String
  pub token : Option String

-- `is_some_and(|v| v != "0" && v != "false")`
abbrev pub asks_kiosk : Option String → Bool
asks_kiosk none = false
asks_kiosk (some v) = not (one_of v ("0" ∷ "false" ∷ []))

-- Any text that is none of these is an approval.
unfoldable pub scope_named : String → ConfirmScope
scope_named scope =
    if one_of scope ("session" ∷ "s" ∷ [])
    then session
    else if one_of scope ("cancel" ∷ "n" ∷ [])
    then cancel
    else once

module _ (C : Crates) where
  open C use {Value, Uuid, trim, obj, bool, str, to_text}

  pub record ConfirmBody : Type 0 where
    pub correlation_id : Uuid
    pub call_id : Uuid
    pub tool : String
    pub arguments : Value
    pub scope : String

  pub data Route : Type 0 where
    index index_kiosk app_css app_js api_status api_events api_grants : Route
    api_clear_grants api_chat_reset : Route
    api_diagnose_stream : (text : String) → Route
    api_confirm : ConfirmBody → Route

  -- A request of a browser, with what axum has read of it.
  pub record HttpRequest : Type 0 where
    pub route : Route
    pub headers : HeaderMap
    pub query : Option String
    pub page : PageQuery

  pub data Response : Type 0 where
    html : (kiosk : Bool) → (set_cookie : Option String) → Response
    asset : String → Response
    json : (status : ℕ) → Value → Response
    ndjson : (lines : List String) → Response
    unauthorized : Response

  -- The service behind its socket: the answer to the n-th request, and the reads of a stream. Then
  -- what uuid and http make of a text.
  pub record Outside : Type 0 where
    pub uds : ℕ → ClientRequest C → Result String Value
    pub uds_stream : ℕ → ClientRequest C → Result String (List (Result String (List ℕ)))
    pub parse_uuid : String → Option Uuid
    pub header_value : String → Option String

  -- The session of the chat, and the requests sent to the service.
  pub record AppState : Type 0 where
    pub chat_session : Option Uuid
    pub asked : List (ClientRequest C)

  module _ (net : Outside) (settings : Settings) where
    unfoldable pub uds_request : ClientRequest C → AppState → Result String Value × AppState
    uds_request request s =
        (net.uds (length s.asked) request, record s { asked = s.asked ++ request ∷ [] })

    error_json : ℕ → String → Response
    error_json code e = json code (obj (("ok", bool false) ∷ ("error", str e) ∷ []))

    answered : Result String Value × AppState → Response × AppState
    unfolding error_json
    answered (ok v, s) = (json 200 v, s)
    answered (err e, s) = (error_json 502 e, s)

    -- The cookie is set where the page's address has the token.
    cookie_for : Option String → Option String → Option String
    cookie_for (some expected) (some provided) =
        if str_eq provided expected
        then net.header_value
            ("saaios_token=" +++ expected +++ "; Path=/; SameSite=Strict; HttpOnly")
        else none
    cookie_for _ _ = none

    reset_chat : Option Uuid → AppState → AppState
    unfolding uds_request
    reset_chat none s = s
    reset_chat (some sid) s = (uds_request (chat_reset sid) s).1

    streamed : Result String (Unit {0}) → List String → List String
    streamed (ok u) lines = lines
    streamed (err e) lines =
        lines
        ++ (to_text (obj (("type", str "done") ∷ ("ok", bool false) ∷ ("error", str e) ∷ []))
            +++ "\n")
          ∷ []

    passed_on : AppState → Result String (Unit {0}) × Passed C → Response × AppState
    unfolding streamed
    passed_on s (r, p) = (ndjson (streamed r p.lines), record s { chat_session = p.session_slot })

    unread : Option Uuid → Passed C
    unread slot = record { saw_frame = false; session_slot = slot; lines = [] }

    -- The reads of the stream, if the service can be reached.
    streaming : AppState → Result String (List (Result String (List ℕ))) → Response × AppState
    unfolding passed_on unread forward
    streaming s (err e) = passed_on s (err e, unread s.chat_session)
    streaming s (ok chunks) = passed_on s (forward C net.parse_uuid s.chat_session chunks)

    unfoldable pub diagnose_stream : String → AppState → Response × AppState
    unfolding streaming error_json
    diagnose_stream text s =
        let request = diagnose text s.chat_session true in
        if str_eq text ""
        then (error_json 400 "empty text", s)
        else streaming (record s { asked = s.asked ++ request ∷ [] })
            (net.uds_stream (length s.asked) request)

    unfoldable pub handle : Route → PageQuery → AppState → Response × AppState
    unfolding cookie_for answered reset_chat scope_named diagnose_stream
    handle index page s = (
      html (settings.kiosk_default || asks_kiosk page.kiosk) (cookie_for settings.token page.token),
      s,
    )
    handle index_kiosk page s = (html true (cookie_for settings.token page.token), s)
    handle app_css page s = (asset "app.css", s)
    handle app_js page s = (asset "app.js", s)
    handle api_status page s = answered (uds_request status s)
    handle api_events page s = answered (uds_request (events_tail 24) s)
    handle api_grants page s = answered (uds_request session_grants s)
    handle api_clear_grants page s = answered (uds_request clear_session_grants s)
    handle api_chat_reset page s = (
      json 200 (obj (("ok", bool true) ∷ [])),
      record (reset_chat s.chat_session s) { chat_session = none },
    )
    handle (api_diagnose_stream text) page s = diagnose_stream (trim text) s
    handle (api_confirm body) page s = answered (
        uds_request
          (confirm body.correlation_id body.call_id body.tool body.arguments
            (scope_named body.scope) none s.chat_session)
          s)

    admitted : Option String → HttpRequest → Bool
    unfolding token_matches
    admitted none r = true
    admitted (some expected) r = token_matches trim expected r.headers r.query

    -- `require_token` around the handlers.
    unfoldable pub require_token : HttpRequest → AppState → Response × AppState
    unfolding admitted handle
    require_token r s =
        if admitted settings.token r then handle r.route r.page s else (unauthorized, s)

    -- Requests of any browsers, one after the other.
    unfoldable pub serve_http : List HttpRequest → AppState → List Response × AppState
    serve_http [] s = ([], s)
    serve_http (r ∷ rs) s =
        let (response, s') = require_token r s in
        let (responses, s'') = serve_http rs s' in (response ∷ responses, s'')
