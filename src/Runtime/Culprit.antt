-- ===== src/Runtime/Culprit.antt =====
-- `top_process` of crates/ai-runtime/src/lib.rs: the process with the highest CPU share.
use saaios.Prelude.{
  ℕ, ◌%◌, ◌^◌, String, Option, none, some, List, [], ◌∷◌, if◌then◌else◌, and_then, unwrap_or,
}
use saaios.Crates.{Crates}

module _ (C : Crates) where
  open C use {Value, Float, get, as_u64, as_str, as_f64, as_array, gt, of_nat}

  abbrev pub Candidate : Type 0
  Candidate = ℕ × String × Float

  infixl 5 ◌>>=◌
  abbrev ◌>>=◌ : {A B : Type 0} → Option A → (A → Option B) → Option B
  o >>= f = and_then o f

  -- One entry of the list; `as u32` keeps the low 32 bits.
  unfoldable pub candidate : Value → Option Candidate
  candidate p = do
    pid ← get p "pid" >>= as_u64
    name ← get p "name" >>= as_str
    cpu ← get p "cpu"
    some (pid % 2 ^ 32, name, unwrap_or (as_f64 cpu) (of_nat 0))

  unfoldable pub better : Option Candidate → Candidate → Candidate
  better none c = c
  better (some b) c = if gt c.2 b.2 then c else b

  -- The loop: an entry that lacks a field ends the search with `None`.
  unfoldable pub best_of : Option Candidate → List Value → Option (Option Candidate)
  best_of best [] = some best
  best_of best (p ∷ procs) = and_then (candidate p) (λ c. best_of (some (better best c)) procs)

  unfoldable pub top_process : Value → Option (ℕ × String)
  unfolding best_of better candidate
  top_process value = do
    procs ← get value "processes" >>= as_array
    best ← best_of none procs
    (pid, name, cpu) ← best
    some (pid, name)
