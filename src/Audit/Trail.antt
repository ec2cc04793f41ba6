-- ===== src/Audit/Trail.antt =====
-- What an append to the trail of crates/audit-log/src/lib.rs does to the chains of the requests.
use saaios.Prelude.{◌≡◌, refl, true, List, [], ◌∷◌, ◌++◌, ap, if◌then◌else◌, Bool-cases, inl, inr}
use saaios.Crates.{Crates}
use saaios.Protocol.{Envelope, ok}
use saaios.Jsonl.{Codec, Log}
use saaios.Jsonl.Records.{IsCodec, Holds, read_all-append}
use saaios.Audit.{AuditRecord, record_of, append_envelope, of_correlation, list_by_correlation}

module _ (C : Crates) where
  of_correlation-concat :
      (id : C.Uuid) (rs : List (AuditRecord C)) (r : AuditRecord C)
      → of_correlation C id (rs ++ r ∷ [])
        ≡ of_correlation C id rs ++ (if C.uuid_key.same r.correlation_id id then r ∷ [] else [])
  unfolding of_correlation
  of_correlation-concat id [] r = refl
  of_correlation-concat id (q ∷ rs) r = elim (Bool-cases (C.uuid_key.same q.correlation_id id)) [
    | inl e ↦ rw e (ap (◌∷◌ q) (of_correlation-concat id rs r))
    | inr e ↦ rw e (of_correlation-concat id rs r)
  ]

  -- After an append that succeeds, the chain of the envelope's correlation has its record as the
  -- last, with nothing of the envelope lost but its version; every other chain is as it was.
  pub list_by_correlation-append_envelope :
      (codec : Codec (AuditRecord C)) (laws : IsCodec codec) (log : Log) (rs : List (AuditRecord C))
      (env : Envelope C) (id : C.Uuid)
      → log.readable ≡ true
      → Holds codec rs log.content
      → (append_envelope C codec log env).0 ≡ ok tt
      → list_by_correlation C codec (append_envelope C codec log env).1 id
        ≡ ok (
            of_correlation C id rs
            ++ (if C.uuid_key.same env.correlation_id id then record_of C env ∷ [] else []))
  unfolding list_by_correlation append_envelope record_of
  list_by_correlation-append_envelope codec laws log rs env id open_ok h done =
      rw (read_all-append codec laws log rs (unfold record_of in record_of C env) open_ok h done)
        (ap ok (of_correlation-concat id rs (record_of C env)))
