-- ===== src/Telemetry/Samples.antt =====
-- What a sample of crates/telemetry/src/lib.rs leaves.
use saaios.Prelude.{ℕ, zero, suc, ◌+◌, ◌%◌, ◌^◌, ◌≡◌, refl, ap, String, List, [], ◌∷◌, ◌++◌}
use saaios.Crates.{Crates}
use saaios.Protocol.{Result, ok, err, Envelope}
use saaios.Jsonl.Records.{IsCodec}
use saaios.Audit.{AuditRecord}
use saaios.Registry.{ToolError, ToolOutput}
use saaios.Runtime.{Services, Rt, draft, fresh, emit, publish, audit}
use saaios.Runtime.Effects.{
  Keeps, Keeps-bind, Keeps-pure, modify, Outcome, Ensures, Ensures-bind, Ensures-pure,
}
use saaios.Runtime.Handle.{run_tool, ran}
use saaios.Runtime.Trail.{IsRecorded, emit-kept, run_tool-kept, steps}
use saaios.Runtime.Kept.{fresh-kept, draft-kept}
use saaios.Telemetry.{TelemetrySampler, sampled, sample_envelope, counted, sample_once, run_samples}

module _ (C : Crates) (S : Type 0) (services : Services C S) where
  -- A sample either fails, sends nothing and is not counted, or its envelope is the one that was sent.
  abbrev pub Sampled :
      TelemetrySampler C S services
      → Result String (Envelope C) × TelemetrySampler C S services
      → Type 0
  Sampled t (ok env, t') =
      (t'.runtime.sent ≡ t.runtime.sent ++ env ∷ []) × (t'.samples ≡ (t.samples + 1) % 2 ^ 64)
  Sampled t (err e, t') = (t'.runtime.sent ≡ t.runtime.sent) × (t'.samples ≡ t.samples)

  module _ (before : List (Envelope C)) where
    abbrev Same : Rt C S → Type 0
    Same r = r.sent ≡ before

    abbrev With : Envelope C → Rt C S → Type 0
    With env r = r.sent ≡ before ++ env ∷ []

    fresh-Same : Ensures Same (λ id r. Same r) Same (fresh C S)
    unfolding fresh
    fresh-Same = record { at = λ r h. h }

    ran-Same :
        (x : Result ToolError (ToolOutput C) × S) (r : Rt C S)
        → Same r
        → Outcome (λ o r. Same r) Same (ran C S services x r).0 (ran C S services x r).1
    unfolding ran
    ran-Same (ok o, s) r h = h
    ran-Same (err e, s) r h = h

    run-Same :
        (id call_id : C.Uuid) (tool : String) (args : C.Value)
        → Ensures Same (λ o r. Same r) Same (run_tool C S services id call_id tool args)
    unfolding run_tool
    run-Same id call_id tool args = record { at = λ r h. ran-Same _ r h }

    draft-Same :
        (id call_id : C.Uuid) (o : ToolOutput C)
        → Ensures Same (λ env r. Same r) Same (sample_envelope C S services id call_id o)
    unfolding sample_envelope draft
    draft-Same id call_id o = record { at = λ r h. h }

    audited :
        (x : Result String (Unit {0})) (r : Rt C S) → Same r → Outcome (λ u r. Same r) Same x r
    audited (ok u) r h = h
    audited (err e) r h = h

    audit-Same : (env : Envelope C) → Ensures Same (λ u r. Same r) Same (audit C S services env)
    unfolding audit
    audit-Same env = record { at = λ r h. audited _ _ h }

    publish-With :
        (env : Envelope C) → Ensures Same (λ u r. With env r) Same (modify (publish C S env))
    unfolding modify publish
    publish-With env = record { at = λ r h. ap (λ l. l ++ env ∷ []) h }

    emit-With : (env : Envelope C) → Ensures Same (λ u r. With env r) Same (emit C S services env)
    unfolding emit
    emit-With env = Ensures-bind _ _ (audit-Same env) (λ u. publish-With env)

    sampled-sent : Ensures Same With Same (sampled C S services)
    unfolding sampled
    sampled-sent = Ensures-bind _ _ fresh-Same (λ id. Ensures-bind _ _ fresh-Same (λ call_id.
        Ensures-bind _ _ (run-Same id call_id _ _) (λ o.
          Ensures-bind _ _ (draft-Same id call_id o)
            (λ env. Ensures-bind _ _ (emit-With env) (λ u. Ensures-pure env)))))

  done :
      (t : TelemetrySampler C S services) (x : Result String (Envelope C)) (rt : Rt C S)
      → Outcome (With t.runtime.sent) (Same t.runtime.sent) x rt
      → Sampled t (x, record t { runtime = rt; samples = counted C S services x t.samples })
  unfolding counted
  done t (ok env) rt h = (h, refl)
  done t (err e) rt h = (h, refl)

  -- A sample that fails sends nothing and is not counted. One that succeeds is counted, in 64 bits, and
  -- its envelope, and no other, is sent.
  pub sample_once-Sampled :
      (t : TelemetrySampler C S services) → Sampled t (sample_once C S services t)
  unfolding sample_once
  sample_once-Sampled t = done t _ _ ((sampled-sent t.runtime.sent).at t.runtime refl)

  module _ (base : List (AuditRecord C)) (laws : IsCodec services.audit_codec) where
    abbrev R : Rt C S → Type 0
    R = IsRecorded C S services base

    sampled-kept : Keeps R (sampled C S services)
    unfolding sampled sample_envelope
    sampled-kept = Keeps-bind _ _ (fresh-kept C S services R (steps C S services base laws)) (λ id.
        Keeps-bind _ _ (fresh-kept C S services R (steps C S services base laws)) (λ call_id.
          Keeps-bind _ _ (run_tool-kept C S services base laws id call_id _ _) (λ o.
            Keeps-bind _ _ (draft-kept C S services R (steps C S services base laws) _ id _ _)
              (λ env. Keeps-bind _ _ (emit-kept C S services base laws env) (λ u. Keeps-pure _)))))

    -- On a machine that tears no write, the audit file still holds the records that it began with and
    -- then those of all envelopes sent, in order, and nothing else, after any number of samples, also
    -- where some of them fail.
    pub run_samples-IsRecorded :
        (n : ℕ) (t : TelemetrySampler C S services)
        → R t.runtime
        → R (run_samples C S services n t).runtime
    unfolding run_samples sample_once
    run_samples-IsRecorded zero t h = h
    run_samples-IsRecorded (suc n) t h =
        run_samples-IsRecorded n (sample_once C S services t).1 (sampled-kept.at t.runtime h)
