-- ===== src/Automation/Cooldown.antt =====
-- The cooldown of crates/automation-engine/src/lib.rs.
use saaios.Prelude.{
  ℕ, suc, ◌+◌, ◌≤◌, ◌<◌, String, ◌≡◌, ◌≢◌, refl, sym, subst, true, some, List, [], ◌∷◌, arith, All,
  eq_iff, eq_refl, ap, ◌∙◌, Bool-cases, inl, inr,
}
use saaios.Prelude.Dict
use saaios.Prelude.Dict.{lookup-insert}
use saaios.Crates.{Crates}
use saaios.Protocol.{Envelope}
use saaios.Jsonl.{Codec}
use saaios.Registry.{string_key}
use saaios.Audit.{AuditRecord}
use saaios.Automation.{
  AutomationRule, AutomationFire, AutomationEngine, evaluate, evaluate_rules, in_cooldown,
}
use saaios.Automation.Apply.{
  apply, mark_fired, record_and_publish, apply_all, rounds, receive, receive_all, is_own_event,
}

module _ (C : Crates) where
  open C use {Time, utc_now, elapsed_lt}

  -- Each rule of this id is still cooling down after a firing at the time `last`, at each reading of
  -- the clock from the one numbered `low` on, and before the one numbered `high`.
  abbrev pub IsCooling : String → Time → (low high : ℕ) → List (AutomationRule C) → Type 0
  IsCooling id last low high rules =
      (n : ℕ)
      → low ≤ n
      → n < high
      → All (λ r. r.id ≡ id → elapsed_lt (utc_now n) last r.cooldown_secs ≡ true) rules

  last_fired-apply :
      (codec : Codec (AuditRecord C)) (e : AutomationEngine C) (fire : AutomationFire C)
      → (apply C codec e fire).1.last_fired
        ≡ Dict.insert string_key fire.rule_id (utc_now e.drawn) e.last_fired
  unfolding apply mark_fired record_and_publish
  last_fired-apply codec e fire = ground arith

  drawn-apply :
      (codec : Codec (AuditRecord C)) (e : AutomationEngine C) (fire : AutomationFire C)
      → (apply C codec e fire).1.drawn ≡ suc (suc e.drawn)
  unfolding apply mark_fired record_and_publish
  drawn-apply codec e fire = ground arith

  rules-apply :
      (codec : Codec (AuditRecord C)) (e : AutomationEngine C) (fire : AutomationFire C)
      → (apply C codec e fire).1.rules ≡ e.rules
  unfolding apply mark_fired record_and_publish
  rules-apply codec e fire = ground arith

  drawn-apply_all :
      (codec : Codec (AuditRecord C)) (e : AutomationEngine C) (fires : List (AutomationFire C))
      → e.drawn ≤ (apply_all C codec e fires).drawn
  unfolding apply_all
  drawn-apply_all codec e [] = omega arith
  drawn-apply_all codec e (fire ∷ fires) =
      omega (arith, drawn-apply codec e fire, drawn-apply_all codec (apply C codec e fire).1 fires)

  rules-apply_all :
      (codec : Codec (AuditRecord C)) (e : AutomationEngine C) (fires : List (AutomationFire C))
      → (apply_all C codec e fires).rules ≡ e.rules
  unfolding apply_all
  rules-apply_all codec e [] = refl
  rules-apply_all codec e (fire ∷ fires) =
      rules-apply_all codec (apply C codec e fire).1 fires ∙ rules-apply codec e fire

  drawn-receive :
      (codec : Codec (AuditRecord C)) (e : AutomationEngine C) (env : Envelope C)
      → e.drawn ≤ (receive C codec e env).drawn
  unfolding receive
  drawn-receive codec e env =
      let read = record e { drawn = e.drawn + rounds C e.rules } in
      let later = drawn-apply_all codec read (evaluate C e env) in ground arith

  rules-receive :
      (codec : Codec (AuditRecord C)) (e : AutomationEngine C) (env : Envelope C)
      → (receive C codec e env).rules ≡ e.rules
  unfolding receive
  rules-receive codec e env =
      let read = record e { drawn = e.drawn + rounds C e.rules } in
      let same = rules-apply_all codec read (evaluate C e env) in ground arith

  drawn-receive_all :
      (codec : Codec (AuditRecord C)) (e : AutomationEngine C) (envs : List (Envelope C))
      → e.drawn ≤ (receive_all C codec e envs).drawn
  unfolding receive_all
  drawn-receive_all codec e [] = omega arith
  drawn-receive_all codec e (env ∷ envs) =
      omega (arith, drawn-receive codec e env, drawn-receive_all codec (receive C codec e env) envs)

  rules-receive_all :
      (codec : Codec (AuditRecord C)) (e : AutomationEngine C) (envs : List (Envelope C))
      → (receive_all C codec e envs).rules ≡ e.rules
  unfolding receive_all
  rules-receive_all codec e [] = refl
  rules-receive_all codec e (env ∷ envs) =
      rules-receive_all codec (receive C codec e env) envs ∙ rules-receive codec e env

  module _ (id : String) (last : Time) (low high : ℕ) where
    evaluate_rules-IsCooling :
        (fired : List (String × Time)) (n : ℕ) (rules : List (AutomationRule C)) (env : Envelope C)
        → Dict.lookup string_key id fired ≡ some last
        → low ≤ n
        → n + rounds C rules ≤ high
        → IsCooling id last low high rules
        → All (λ f. f.rule_id ≢ id) (evaluate_rules C fired n rules env)
    unfolding evaluate_rules in_cooldown
    evaluate_rules-IsCooling fired n [] env found l b cools = tt
    evaluate_rules-IsCooling fired n (r ∷ rules) env found l b cools =
        let (h, hs) = cools n l (omega arith) in
        let rest =
          evaluate_rules-IsCooling fired (suc n) rules env found (omega arith) (omega arith)
            (λ m i j. (cools m i j).1) in
        ground (arith, eq_iff r.id id)

    -- Fires of other rules leave the time of this one alone.
    last-apply_all :
        (codec : Codec (AuditRecord C)) (e : AutomationEngine C) (fires : List (AutomationFire C))
        → All (λ f. f.rule_id ≢ id) fires
        → Dict.lookup string_key id e.last_fired ≡ some last
        → Dict.lookup string_key id (apply_all C codec e fires).last_fired ≡ some last
    unfolding apply_all
    last-apply_all codec e [] h found = found
    last-apply_all codec e (fire ∷ fires) (other, h) found =
        last-apply_all codec (apply C codec e fire).1 fires h (
          ap (λ m. Dict.lookup string_key id m) (last_fired-apply codec e fire)
          ∙ lookup-insert string_key fire.rule_id id (utc_now e.drawn) e.last_fired
          ∙ ground (arith, eq_iff fire.rule_id id))

    last-receive :
        (codec : Codec (AuditRecord C)) (e : AutomationEngine C) (env : Envelope C)
        → Dict.lookup string_key id e.last_fired ≡ some last
        → low ≤ e.drawn
        → (receive C codec e env).drawn ≤ high
        → IsCooling id last low high e.rules
        → Dict.lookup string_key id (receive C codec e env).last_fired ≡ some last
    unfolding receive evaluate
    last-receive codec e env found l b cools = elim (Bool-cases (is_own_event C env)) [
      | inl own ↦ rw own found
      | inr not_own ↦
          let read = record e { drawn = e.drawn + rounds C e.rules } in
          let later = drawn-apply_all codec read (evaluate C e env) in
          let b' = rw not_own at b in
          rw not_own (
            last-apply_all codec read (evaluate C e env)
              (evaluate_rules-IsCooling e.last_fired e.drawn e.rules env found l (omega arith)
                cools)
              found)
    ]

    last-receive_all :
        (codec : Codec (AuditRecord C)) (e : AutomationEngine C) (envs : List (Envelope C))
        → Dict.lookup string_key id e.last_fired ≡ some last
        → low ≤ e.drawn
        → (receive_all C codec e envs).drawn ≤ high
        → IsCooling id last low high e.rules
        → Dict.lookup string_key id (receive_all C codec e envs).last_fired ≡ some last
    unfolding receive_all
    last-receive_all codec e [] found l b cools = found
    last-receive_all codec e (env ∷ envs) found l b cools =
        let next = receive C codec e env in
        let here = drawn-receive codec e env in
        let later = drawn-receive_all codec next envs in
        last-receive_all codec next envs (last-receive codec e env found l (omega arith) cools)
          (omega arith) b
          (subst (IsCooling id last low high) (sym (rules-receive codec e env)) cools)

  -- After the fire, the other fires of the same envelope, and envelopes from the bus.
  abbrev pub after :
      Codec (AuditRecord C)
      → AutomationEngine C
      → AutomationFire C
      → List (AutomationFire C)
      → List (Envelope C)
      → AutomationEngine C
  after codec e fire others envs =
      receive_all C codec (apply_all C codec (apply C codec e fire).1 others) envs

  -- Once a fire has been applied, whether or not the audit file took its event, its rule does not fire
  -- again while it is cooling down: after further fires, which are of other rules, and after any
  -- envelopes that the engine then receives and the fires that come of them, the rule is not among the
  -- fires of an evaluation. Its rules are cooling down at each reading of the clock from the firing to the
  -- end of that evaluation.
  pub apply_suppresses :
      (codec : Codec (AuditRecord C)) (e : AutomationEngine C) (fire : AutomationFire C)
      (others : List (AutomationFire C)) (envs : List (Envelope C)) (env : Envelope C)
      → All (λ f. f.rule_id ≢ fire.rule_id) others
      → IsCooling fire.rule_id
          (utc_now e.drawn)
          e.drawn
          ((after codec e fire others envs).drawn + rounds C e.rules)
          e.rules
      → All (λ f. f.rule_id ≢ fire.rule_id) (evaluate C (after codec e fire others envs) env)
  unfolding evaluate
  apply_suppresses codec e fire others envs env h cools =
      let id = fire.rule_id in
      let last = utc_now e.drawn in
      let fired = (apply C codec e fire).1 in
      let batch = apply_all C codec fired others in
      let end = receive_all C codec batch envs in
      let high = end.drawn + rounds C e.rules in
      let a = drawn-apply codec e fire in
      let b = drawn-apply_all codec fired others in
      let c = drawn-receive_all codec batch envs in
      let same : batch.rules ≡ e.rules =
        rules-apply_all codec fired others ∙ rules-apply codec e fire in
      let same' : end.rules ≡ e.rules = rules-receive_all codec batch envs ∙ same in
      let found : Dict.lookup string_key id fired.last_fired ≡ some last =
        ap (λ m. Dict.lookup string_key id m) (last_fired-apply codec e fire)
        ∙ lookup-insert string_key id id last e.last_fired
        ∙ rw (eq_refl id) refl in
      evaluate_rules-IsCooling id last e.drawn high end.last_fired end.drawn end.rules env
        (last-receive_all id last e.drawn high codec batch envs
          (last-apply_all id last e.drawn high codec fired others h found) (omega arith)
          (omega arith) (subst (IsCooling id last e.drawn high) (sym same) cools))
        (omega arith) (rw same' (omega arith))
        (subst (IsCooling id last e.drawn high) (sym same') cools)
