-- ===== src/Service/Completed.antt =====
-- The events of the worker that diagnoses by itself, in services/saaios-runtime/src/main.rs.
use saaios.Prelude.{
  ℕ, String, true, false, ◌≡◌, refl, sym, ap, inl, inr, Option, Option-cases, none, some, [], ◌∷◌,
  ◌++◌, str_eq, starts_with, subst,
}
use saaios.Crates.{Crates, IsJson}
use saaios.Protocol.{Envelope, Result, ok, err, envelope, is_event}
use saaios.Feed.{push}
use saaios.Runtime.{Services, Rt, HandleOutcome, advance, publish}
use saaios.Runtime.Requests.{handle_user_text_in_session}
use saaios.Automation.Apply.{is_own_event}
use saaios.Service.{Service}
use saaios.Service.Workers.{prompt_of, auto_diagnose, report_of, finished, item}

some_inj : {A : Type 0} {a b : A} → ◌≡◌ {A = Option A} (some a) (some b) → a ≡ b
some_inj h = cc

module _ (C : Crates) (json : IsJson C) (S : Type 0) (services : Services C S) where
  -- An event that neither this worker nor the automation engine reacts to.
  pub record IsIgnored (out : Envelope C) : Type 0 where
    pub no_prompt : prompt_of C out ≡ none
    pub own : is_own_event C out ≡ true

  named-IsIgnored :
      (out : Envelope C) (name : String)
      → is_event out.kind ≡ true
      → C.get out.payload "event" ≡ some (C.str name)
      → str_eq name "AutomationAutoDiagnose" ≡ false
      → starts_with name "Automation" ≡ true
      → IsIgnored out
  unfolding prompt_of is_own_event
  named-IsIgnored out name k p n a = record {
    no_prompt = rw (prompt_of, k, p, json.as_str-str name, n) refl;
    own = rw (is_own_event, k, p, json.as_str-str name, a) refl;
  }

  report_of-IsIgnored :
      (env : Envelope C) (prompt : String) (r : Result String (HandleOutcome C)) (n : ℕ)
      → IsIgnored (report_of C S services env prompt r n).0
  unfolding envelope
  report_of-IsIgnored env prompt (ok outcome) n =
      named-IsIgnored (report_of C S services env prompt (ok outcome) n).0
        "AutomationDiagnoseCompleted" refl (json.get-obj _ "event") refl refl
  report_of-IsIgnored env prompt (err e) n =
      named-IsIgnored (report_of C S services env prompt (err e) n).0 "AutomationDiagnoseFailed"
        refl (json.get-obj _ "event") refl refl

  -- What the worker has sent since: on an envelope that asks for a diagnosis all that the request
  -- sends, and then one event that is ignored; otherwise nothing.
  pub data Diagnosed (env : Envelope C) (s : Service C S services)
      : Service C S services → Type 0 where
    passed_over : prompt_of C env ≡ none → Diagnosed env s s
    announced_by :
        {s' : Service C S services} (prompt : String) (out : Envelope C)
        → prompt_of C env ≡ some prompt
        → s'.runtime.sent
          ≡ (handle_user_text_in_session C S services prompt none (advance C S s.runtime)).1.sent
            ++ out ∷ []
        → IsIgnored out
        → Diagnosed env s s'

  finished-sent :
      (env : Envelope C) (prompt : String) (s s' : Service C S services)
      (x : Result String (HandleOutcome C) × Rt C S)
      → finished C S services env prompt s x ≡ some s'
      → (out : Envelope C) × (s'.runtime.sent ≡ x.1.sent ++ out ∷ []) × IsIgnored out
  unfolding publish
  finished-sent env prompt s s' (r, rt) h =
      elim (Option-cases (push s.feed (report_of C S services env prompt r rt.drawn).1)) [
        | inl e ↦ absurd (let no = rw e at h in cc)
        | inr (f, e) ↦ (
          (report_of C S services env prompt r rt.drawn).0,
          ap (λ t. t.runtime.sent) (sym (some_inj (rw e at h))),
          report_of-IsIgnored env prompt r rt.drawn,
        )
      ]

  -- Where serde_json reads the values that it builds as documented, and the feed's lock is sound: on
  -- an envelope that asks for no diagnosis the worker that diagnoses by itself changes nothing; on one
  -- that does, it sends what the request sends and then one event, which asks for no diagnosis and is
  -- one that the automation engine takes for its own.
  pub auto_diagnose-Diagnosed :
      (env : Envelope C) (s s' : Service C S services)
      → auto_diagnose C S services env s ≡ some s'
      → Diagnosed env s s'
  unfolding auto_diagnose
  auto_diagnose-Diagnosed env s s' h = elim (Option-cases (prompt_of C env)) [
    | inl e ↦ subst (Diagnosed env s) (some_inj (rw (e, auto_diagnose) at h)) (passed_over e)
    | inr (prompt, e) ↦
        elim (Option-cases (
          push s.feed
            (item C s.runtime.drawn "AutoDiagnoseStarted" env.correlation_id prompt env.payload))) [
              | inl n ↦ absurd (let no = rw (e, n, auto_diagnose) at h in cc)
              | inr (f, y) ↦
                  let (out, sent, ignored) =
                    finished-sent env prompt (record s { feed = f }) s'
                      (handle_user_text_in_session C S services prompt none (advance C S s.runtime))
                      (rw (e, y, auto_diagnose) at h) in
                  announced_by prompt out e sent ignored
            ]
  ]
