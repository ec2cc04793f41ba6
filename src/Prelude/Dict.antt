-- ===== src/Prelude/Dict.antt =====
-- `HashMap` as an association list with one entry for each key, over any decidable key.
use mathlib.Core.Path.{◌≡◌, refl, subst, ◌∙◌}
use mathlib.Core.Logic.{inl, inr, ◌↔◌}
use mathlib.Core.Bool.{Bool, true}
use mathlib.Core.Option.{Option, none, some}
use mathlib.Core.List.{List, [], ◌∷◌}
use native.Mathlib.Omega.{arith}
use Prim.Native.Nat.{ℕ}
use saaios.Prelude.Tests.{◌==◌, if◌then◌else◌, Bool-cases}
use saaios.Prelude.Lists.{All}

-- Keys are compared by a Boolean test that decides their equality.
pub record Key (K : Type 0) : Type 0 where
  pub same : K → K → Bool
  pub same_iff : (a b : K) → (same a b ≡ true) ↔ (a ≡ b)

pub same_nat : (a b : ℕ) → ((a == b) ≡ true) ↔ (a ≡ b)
same_nat a b = (λ h. ground arith, λ h. ground arith)

abbrev pub nat_key : Key ℕ
nat_key = record { same = ◌==◌; same_iff = same_nat }

pub same_refl : {K : Type 0} (E : Key K) (k : K) → E.same k k ≡ true
same_refl E k = (E.same_iff k k).1 refl

module _ {K V : Type 0} (E : Key K) where
  open E use {same, same_iff}

  unfoldable pub lookup : K → List (K × V) → Option V
  lookup k [] = none
  lookup k ((j, v) ∷ m) = if same j k then some v else lookup k m

  -- `insert` overwrites in place, so a key keeps one entry.
  unfoldable pub insert : K → V → List (K × V) → List (K × V)
  insert k v [] = (k, v) ∷ []
  insert k v ((j, w) ∷ m) = if same j k then (k, v) ∷ m else (j, w) ∷ insert k v m

  unfoldable pub remove : K → List (K × V) → List (K × V)
  remove k [] = []
  remove k ((j, v) ∷ m) = let rest = remove k m in if same j k then rest else (j, v) ∷ rest

  pub lookup-insert :
      (k j : K) (v : V) (m : List (K × V))
      → lookup j (insert k v m) ≡ (if same k j then some v else lookup j m)
  unfolding lookup insert
  lookup-insert k j v [] = refl
  lookup-insert k j v ((i, w) ∷ m) =
      ground (arith, same_iff k j, same_iff i k, same_iff i j, lookup-insert k j v m)

  pub lookup-remove :
      (k j : K) (m : List (K × V)) → lookup j (remove k m) ≡ (if same k j then none else lookup j m)
  unfolding lookup remove
  lookup-remove k j [] = ground arith
  lookup-remove k j ((i, w) ∷ m) =
      ground (arith, same_iff k j, same_iff i k, same_iff i j, lookup-remove k j m)

  -- A fact about every entry survives an insertion of an entry that has it.
  pub All-insert :
      (P : K × V → Type 0) (k : K) (v : V) (m : List (K × V))
      → P (k, v)
      → All P m
      → All P (insert k v m)
  unfolding insert
  All-insert P k v [] p h = (p, tt)
  All-insert P k v ((j, w) ∷ m) p (q, h) = elim (Bool-cases (same j k)) [
    | inl e ↦ rw e (p, h)
    | inr e ↦ rw e (q, All-insert P k v m p h)
  ]

  pub All-remove : (P : K × V → Type 0) (k : K) (m : List (K × V)) → All P m → All P (remove k m)
  unfolding remove
  All-remove P k [] h = tt
  All-remove P k ((j, w) ∷ m) (q, h) = elim (Bool-cases (same j k)) [
    | inl e ↦ rw e (All-remove P k m h)
    | inr e ↦ rw e (q, All-remove P k m h)
  ]

  -- What is found has every fact that all entries have.
  pub lookup-All :
      (P : K × V → Type 0) (k : K) (v : V) (m : List (K × V))
      → All P m
      → lookup k m ≡ some v
      → P (k, v)
  unfolding lookup
  lookup-All P k v [] h e = cc
  lookup-All P k v ((j, w) ∷ m) (q, h) e = elim (Bool-cases (same j k)) [
    | inl t ↦ subst P (cc ((same_iff j k).0 t, e, t)) q
    | inr t ↦ lookup-All P k v m h (ground arith)
  ]

  -- One entry for each key.
  abbrev pub Distinct : List (K × V) → Type 0
  Distinct [] = Unit
  Distinct ((k, v) ∷ m) = (lookup k m ≡ none) × Distinct m

  pub Distinct-insert : (k : K) (v : V) (m : List (K × V)) → Distinct m → Distinct (insert k v m)
  unfolding insert
  Distinct-insert k v [] h = (unfold lookup in refl, tt)
  Distinct-insert k v ((j, w) ∷ m) (q, h) = elim (Bool-cases (same j k)) [
    | inl e ↦ rw e (subst (λ t. lookup t m ≡ none) ((same_iff j k).0 e) q, h)
    | inr e ↦ rw e (
      lookup-insert k j v m ∙ ground (arith, same_iff k j, same_iff j k),
      Distinct-insert k v m h,
    )
  ]
