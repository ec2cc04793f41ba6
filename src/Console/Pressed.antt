-- ===== src/Console/Pressed.antt =====
-- What any keys make crates/console-tui/src/main.rs send.
use Prim.Native.Char.{Char, code}
use saaios.Prelude.{
  ℕ, refl, subst, String, Bool, true, false, Option, none, some, List, [], ◌∷◌, Option-cases, inl,
  inr, str_eq, is_some, ◌==◌, ◌||◌, one_of, if◌then◌else◌, ◌+++◌, starts_with,
}
use saaios.Crates.{Crates}
use saaios.Protocol.{once, session, cancel}
use saaios.Service.{chat_reset}
use saaios.Text.{split_at}
use saaios.Console.{Socket, App, show}
use saaios.Console.Keys.{
  reset_request, remembering, forgetting, typed, KeyCode, char, enter, backspace, other, new_chat,
  command, handle_slash, submit, entered, answer_key, first_key, press, run_loop,
}
use saaios.Console.Offered
use saaios.Console.Offered.{IsOffered, AllAsked}

module _ (C : Crates) (socket : Socket C) where
  abbrev IsSound : App C → Type 0
  IsSound app = Offered.IsSound C socket app

  if-IsSound : (b : Bool) (x y : App C) → IsSound x → IsSound y → IsSound (if b then x else y)
  if-IsSound true x y h k = h
  if-IsSound false x y h k = k

  reset_request-IsSound :
      (o : Option C.Uuid) (app : App C) → IsSound app → IsSound (reset_request C socket o app)
  unfolding reset_request
  reset_request-IsSound none app h = h
  reset_request-IsSound (some sid) app h = Offered.sent-IsSound C socket (chat_reset sid) app tt h

  new_chat-IsSound : (app : App C) → IsSound app → IsSound (new_chat C socket app)
  unfolding new_chat
  new_chat-IsSound app h = record {
    all = (reset_request-IsSound app.chat_session app h).all;
    waits = tt;
  }

  remembering-IsSound :
      (o : Option (String × String)) (app : App C)
      → IsSound app
      → IsSound (remembering C socket o app)
  unfolding remembering
  remembering-IsSound none app h = Offered.same C socket app _ h refl refl
  remembering-IsSound (some (key, value)) app h = Offered.asking-IsSound C socket _ _ app tt h

  command-IsSound :
      (cmd rest : String) (app : App C) → IsSound app → IsSound (command C socket cmd rest app)
  unfolding command forgetting
  command-IsSound cmd rest app h =
      if-IsSound (one_of cmd ("/new" ∷ "/reset" ∷ [])) _ _ (new_chat-IsSound app h) (
        if-IsSound (str_eq cmd "/remember") _ _ (remembering-IsSound _ app h) (
          if-IsSound (str_eq cmd "/recall") _ _ (Offered.asking-IsSound C socket _ _ app tt h) (
            if-IsSound (str_eq cmd "/forget") _ _
              (if-IsSound (str_eq rest "") _ _ (Offered.same C socket app _ h refl refl)
                (Offered.asking-IsSound C socket _ _ app tt h))
              (Offered.same C socket app _ h refl refl))))

  handle_slash-IsSound :
      (text : String) (app : App C) → IsSound app → IsSound (handle_slash C socket text app)
  unfolding handle_slash
  handle_slash-IsSound text app h = elim (Option-cases (split_at C.is_whitespace text)) [
    | inl e ↦ rw (handle_slash, e) (command-IsSound text (C.trim "") app h)
    | inr ((cmd, rest), e) ↦ rw (handle_slash, e) (command-IsSound cmd (C.trim rest) app h)
  ]

  entered-IsSound : (app : App C) → IsSound app → IsSound (entered C socket app)
  unfolding entered submit
  entered-IsSound app h =
      let app' = show C (("> " +++ C.trim app.input) ∷ [], none) (record app { input = "" }) in
      let ready = Offered.same C socket app app' h refl refl in
      if-IsSound (str_eq (C.trim app.input) "") _ _ h (
        if-IsSound (starts_with (C.trim app.input) "/") _ _
          (handle_slash-IsSound (C.trim app.input) app' ready)
          (Offered.diagnosing-IsSound C socket (C.trim app.input) app' ready))

  answer_key-IsSound : (c : ℕ) (app : App C) → IsSound app → IsSound (answer_key C socket c app)
  unfolding answer_key
  answer_key-IsSound c app h =
      if-IsSound (c == b'y' || c == b'Y') _ _
        (Offered.answering-IsSound C socket once app.pending app h.waits h)
        (if-IsSound (c == b's' || c == b'S') _ _
          (Offered.answering-IsSound C socket session app.pending app h.waits h)
          (if-IsSound (c == b'n' || c == b'N') _ _
            (Offered.answering-IsSound C socket cancel app.pending app h.waits h) h))

  abbrev Goes : Option (App C) → Type 0
  Goes none = Unit
  Goes (some app) = IsSound app

  if-Goes : (b : Bool) (x y : Option (App C)) → Goes x → Goes y → Goes (if b then x else y)
  if-Goes true x y h k = h
  if-Goes false x y h k = k

  first_key-Goes : (c : Char) (app : App C) → IsSound app → Goes (first_key C socket c app)
  unfolding first_key typed
  first_key-Goes c app h = if-Goes (code c == b'q') _ _ tt (
      if-IsSound (code c == b'a') _ _ (Offered.asking-IsSound C socket _ _ app tt h) (
        if-IsSound (code c == b'h') _ _ (Offered.asking-IsSound C socket _ _ app tt h) (
          if-IsSound (code c == b'e') _ _ (Offered.asking-IsSound C socket _ _ app tt h) (
            if-IsSound (code c == b'm') _ _ (Offered.asking-IsSound C socket _ _ app tt h) (
              if-IsSound (code c == b'g') _ _ (Offered.asking-IsSound C socket _ _ app tt h) (
                if-IsSound (code c == b'c') _ _ (Offered.asking-IsSound C socket _ _ app tt h)
                  (Offered.same C socket app _ h refl refl)))))))

  press-Goes : (key : KeyCode) (app : App C) → IsSound app → Goes (press C socket key app)
  unfolding press typed
  press-Goes (char c) app h =
      if-Goes (is_some app.pending) _ _ (answer_key-IsSound (code c) app h) (
        if-Goes (str_eq app.input "") _ _ (first_key-Goes c app h)
          (Offered.same C socket app _ h refl refl))
  press-Goes enter app h = if-IsSound (is_some app.pending) _ _ h (entered-IsSound app h)
  press-Goes backspace app h = Offered.same C socket app _ h refl refl
  press-Goes other app h = h

  -- Whatever keys are pressed, and whatever the service answers: each confirmation that the console sends
  -- is for a call, with its tool and its arguments, for which the answer to a request that the console
  -- had sent before asked back, and under the same correlation.
  pub run_loop-IsSound :
      (keys : List KeyCode) (app : App C)
      → IsSound app
      → AllAsked C socket [] (run_loop C socket keys app).asked
  unfolding run_loop
  run_loop-IsSound [] app h = h.all
  run_loop-IsSound (key ∷ keys) app h =
      let goes = press-Goes key app h in
      elim (Option-cases (press C socket key app)) [
        | inl e ↦ rw (run_loop, e) h.all
        | inr (app', e) ↦ rw (run_loop, e) (run_loop-IsSound keys app' (subst Goes e goes))
      ]
