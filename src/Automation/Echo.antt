-- ===== src/Automation/Echo.antt =====
-- The events that crates/automation-engine/src/lib.rs sends, and how it receives them.
use saaios.Prelude.{
  ℕ, suc, String, ◌≡◌, refl, sym, Bool, true, some, List, [], ◌∷◌, ◌++◌, arith, All, All-append,
  Bool-cases, inl, inr, ap, ◌∙◌, starts_with, str_eq, ◌+◌, append-nil, append_assoc, subst,
}
use saaios.Crates.{Crates, IsJson, member}
use saaios.Protocol.{Envelope, event, envelope, Result, ok, err}
use saaios.Jsonl.{Codec}
use saaios.Audit.{AuditRecord}
use saaios.Automation.{
  AutomationAction, notify, suggest_diagnose, auto_diagnose, emit_event, AutomationRule,
  AutomationFire, AutomationEngine, evaluate, evaluate_rules,
}
use saaios.Automation.Apply.{
  apply, apply_all, mark_fired, payload_of, publish_if, record_and_publish, receive, is_own_event,
  rounds,
}
use saaios.Automation.Defaults.{default_rules, switch_first, set_auto_diagnose_rule}

module _ (C : Crates) where
  -- An action whose event carries a name of the program's own.
  abbrev pub IsQuiet : AutomationAction C → Type 0
  IsQuiet (emit_event name payload) = starts_with name "Automation" ≡ true
  IsQuiet _ = Unit

  -- What applying a fire sends: nothing, or one event with the fire's payload.
  record Sends (e : AutomationEngine C) (fire : AutomationFire C) (e' : AutomationEngine C)
      : Type 0 where
    rules : e'.rules ≡ e.rules
    events : List (Envelope C)
    sent : e'.sent ≡ e.sent ++ events
    shape : All (λ out. (out.kind ≡ event) × (out.payload ≡ payload_of C fire.action fire)) events

  publish_if-Sends :
      (done : Result String (Unit {0})) (e e' : AutomationEngine C) (fire : AutomationFire C)
      (out : Envelope C)
      → e'.rules ≡ e.rules
      → e'.sent ≡ e.sent
      → out.kind ≡ event
      → out.payload ≡ payload_of C fire.action fire
      → Sends e fire (publish_if C done e' out).1
  unfolding publish_if
  publish_if-Sends (ok _) e e' fire out r s k p = record {
    rules = r;
    events = out ∷ [];
    sent = ap (λ t. t ++ out ∷ []) s;
    shape = ((k, p), tt);
  }
  publish_if-Sends (err why) e e' fire out r s k p = record {
    rules = r;
    events = [];
    sent = s ∙ sym (append-nil e.sent);
    shape = tt;
  }

  apply-Sends :
      (codec : Codec (AuditRecord C)) (e : AutomationEngine C) (fire : AutomationFire C)
      → Sends e fire (apply C codec e fire).1
  unfolding apply mark_fired record_and_publish envelope
  apply-Sends codec e fire = publish_if-Sends _ e _ fire _ refl refl refl refl

  module _ (json : IsJson C) where
    own_name :
        (out : Envelope C) (name : String) (fields : List (String × C.Value))
        → out.kind ≡ event
        → out.payload ≡ C.obj fields
        → member fields "event" ≡ some (C.str name)
        → starts_with name "Automation" ≡ true
        → is_own_event C out ≡ true
    unfolding is_own_event
    own_name out name fields k p m s =
        let found : C.get out.payload "event" ≡ some (C.str name) =
          ap (λ v. C.get v "event") p ∙ json.get-obj fields "event" ∙ m in
        ground (arith, found, json.as_str-str name)

    payload_of-IsQuiet :
        (a : AutomationAction C) (fire : AutomationFire C) (out : Envelope C)
        → IsQuiet a
        → out.kind ≡ event
        → out.payload ≡ payload_of C a fire
        → is_own_event C out ≡ true
    unfolding payload_of
    payload_of-IsQuiet (notify m) fire out q k p = own_name out "AutomationNotify" _ k p refl refl
    payload_of-IsQuiet (suggest_diagnose m) fire out q k p =
        own_name out "AutomationSuggestDiagnose" _ k p refl refl
    payload_of-IsQuiet (auto_diagnose m) fire out q k p =
        own_name out "AutomationAutoDiagnose" _ k p refl refl
    payload_of-IsQuiet (emit_event name v) fire out q k p = own_name out name _ k p refl q

    own-receive :
        (codec : Codec (AuditRecord C)) (e : AutomationEngine C) (out : Envelope C)
        → is_own_event C out ≡ true
        → receive C codec e out ≡ e
    unfolding receive
    own-receive codec e out h = rw h

    All-shape :
        (fire : AutomationFire C) (events : List (Envelope C))
        → IsQuiet fire.action
        → All (λ out. (out.kind ≡ event) × (out.payload ≡ payload_of C fire.action fire)) events
        → All (λ out. is_own_event C out ≡ true) events
    All-shape fire [] q h = tt
    All-shape fire (out ∷ events) q ((k, p), h) =
        (payload_of-IsQuiet fire.action fire out q k p, All-shape fire events q h)

    -- What an engine has sent since: only events that it passes over.
    pub record OnlyOwn (e e' : AutomationEngine C) : Type 0 where
      pub rules : e'.rules ≡ e.rules
      pub events : List (Envelope C)
      pub sent : e'.sent ≡ e.sent ++ events
      pub own : All (λ out. is_own_event C out ≡ true) events

    apply_all-OnlyOwn :
        (codec : Codec (AuditRecord C)) (e : AutomationEngine C) (fires : List (AutomationFire C))
        → All (λ f. IsQuiet f.action) fires
        → OnlyOwn e (apply_all C codec e fires)
    unfolding apply_all
    apply_all-OnlyOwn codec e [] h = record {
      rules = refl;
      events = [];
      sent = sym (append-nil e.sent);
      own = tt;
    }
    apply_all-OnlyOwn codec e (f ∷ fires) (q, h) =
        let one = apply-Sends codec e f in
        let rest = apply_all-OnlyOwn codec (apply C codec e f).1 fires h in
        record {
          rules = rest.rules ∙ one.rules;
          events = one.events ++ rest.events;
          sent =
              rest.sent
              ∙ ap (λ t. t ++ rest.events) one.sent
              ∙ append_assoc e.sent one.events rest.events;
          own = All-append _ one.events rest.events (All-shape f one.events q one.shape) rest.own;
        }

    evaluate_rules-IsQuiet :
        (fired : List (String × C.Time)) (n : ℕ) (rules : List (AutomationRule C))
        (env : Envelope C)
        → All (λ r. IsQuiet r.action) rules
        → All (λ f. IsQuiet f.action) (evaluate_rules C fired n rules env)
    unfolding evaluate_rules
    evaluate_rules-IsQuiet fired n [] env h = tt
    evaluate_rules-IsQuiet fired n (r ∷ rules) env (q, h) =
        let rest = evaluate_rules-IsQuiet fired (suc n) rules env h in ground (arith, rest, q)

    received-OnlyOwn :
        (codec : Codec (AuditRecord C)) (e : AutomationEngine C) (env : Envelope C)
        → All (λ r. IsQuiet r.action) e.rules
        → OnlyOwn e (receive C codec e env)
    unfolding receive evaluate
    received-OnlyOwn codec e env h = elim (Bool-cases (is_own_event C env)) [
      | inl own ↦
          rw own (record { rules = refl; events = []; sent = sym (append-nil e.sent); own = tt })
      | inr other ↦
          let news =
            apply_all-OnlyOwn codec (record e { drawn = e.drawn + rounds C e.rules })
              (evaluate C e env) (evaluate_rules-IsQuiet e.last_fired e.drawn e.rules env h) in
          rw other
            (record { rules = news.rules; events = news.events; sent = news.sent; own = news.own })
    ]

    passed_over :
        (codec : Codec (AuditRecord C)) (events : List (Envelope C))
        → All (λ out. is_own_event C out ≡ true) events
        → All (λ out. (e' : AutomationEngine C) → receive C codec e' out ≡ e') events
    passed_over codec [] h = tt
    passed_over codec (out ∷ events) (o, h) =
        ((λ e'. own-receive codec e' out o), passed_over codec events h)

    -- What an engine has sent since: only events that every engine passes over unchanged.
    pub record NoEcho (codec : Codec (AuditRecord C)) (e e' : AutomationEngine C) : Type 0 where
      pub rules : e'.rules ≡ e.rules
      pub events : List (Envelope C)
      pub sent : e'.sent ≡ e.sent ++ events
      pub ignored : All (λ out. (any : AutomationEngine C) → receive C codec any out ≡ any) events

    -- If every rule's action has a name of the program's own, then all that the engine sends on an
    -- envelope are events that every engine passes over unchanged; and its rules stay as they are.
    pub receive-NoEcho :
        (codec : Codec (AuditRecord C)) (e : AutomationEngine C) (env : Envelope C)
        → All (λ r. IsQuiet r.action) e.rules
        → NoEcho codec e (receive C codec e env)
    receive-NoEcho codec e env h =
        let news = received-OnlyOwn codec e env h in
        record {
          rules = news.rules;
          events = news.events;
          sent = news.sent;
          ignored = passed_over codec news.events news.own;
        }

    switch_first-IsQuiet :
        (enabled : Bool) (rules : List (AutomationRule C))
        → All (λ r. IsQuiet r.action) rules
        → All (λ r. IsQuiet r.action) (switch_first C enabled rules)
    unfolding switch_first
    switch_first-IsQuiet enabled [] h = tt
    switch_first-IsQuiet enabled (r ∷ rules) (q, h) =
        let rest = switch_first-IsQuiet enabled rules h in
        elim (Bool-cases (str_eq r.id "high-cpu-auto-diagnose")) [
          | inl this ↦ rw this (q, h)
          | inr other ↦ rw other (q, rest)
        ]

    default_rules-IsQuiet : All (λ r. IsQuiet r.action) (default_rules C)
    unfolding default_rules
    default_rules-IsQuiet = (tt, (tt, (tt, (tt, (tt, (tt, tt))))))

    -- The engine that the runtime starts, with the built-in rules and auto-diagnosis on or off, has no
    -- echo: whatever envelope it receives, its rules stay, and each event that it sends is one that
    -- every engine passes over unchanged.
    pub default_rules-NoEcho :
        (codec : Codec (AuditRecord C)) (e : AutomationEngine C) (enabled : Bool) (env : Envelope C)
        → e.rules ≡ default_rules C
        → NoEcho codec
            (set_auto_diagnose_rule C e enabled)
            (receive C codec (set_auto_diagnose_rule C e enabled) env)
    unfolding set_auto_diagnose_rule
    default_rules-NoEcho codec e enabled env h =
        receive-NoEcho codec (record e { rules = switch_first C enabled e.rules }) env
          (switch_first-IsQuiet enabled e.rules
            (subst (All (λ r. IsQuiet r.action)) (sym h) default_rules-IsQuiet))
