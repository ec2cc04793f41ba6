-- ===== src/Jsonl/Whole.antt =====
-- Appends to a JSONL file on a machine that tears no write.
use saaios.Prelude.{◌≡◌, refl, Option-cases, ◌⊎◌, inl, inr, []}
use saaios.Protocol.{ok, err}
use saaios.Jsonl.{Codec, Log, append, write, outcome}

module _ {R : Type 0} (codec : Codec R) where
  pub append-untorn :
      (log : Log) (r : R)
      → log.writes ≡ []
      → (append codec log r ≡ (err "serialize", log))
        ⊎ (((append codec log r).0 ≡ ok tt) × ((append codec log r).1.writes ≡ []))
  unfolding append write outcome
  append-untorn log r e = elim (Option-cases (codec.to_string r)) [
    | inl n ↦ inl (rw (n, append) refl)
    | inr (line, h) ↦ inr (rw (h, append, e) (refl, refl))
  ]
