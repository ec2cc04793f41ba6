-- ===== src/Tools/Ranking.antt =====
-- The list of processes of crates/system-tools/src/lib.rs.
use mathlib.Core.List.{Perm}
use mathlib.Core.List.Perm
use saaios.Prelude.{
  ℕ, zero, suc, ◌≤◌, ◌≡◌, ◌≢◌, refl, ap, subst, sym, ◌∙◌, ◌⊎◌, true, false, none, some, List, [],
  ◌∷◌, ◌++◌, All, length, take, drop, map, Bool-cases, Option-cases, inl, inr, arith,
}
use saaios.Prelude.Dict
use saaios.Prelude.Dict.{nat_key}
use saaios.Crates.{Crates}
use saaios.Tools.{ProcessInfo}
use saaios.Tools.World.{Machine}
use saaios.Tools.Processes.{Snapshot, compared, insert_process, sort_processes, ranked}

module _ (C : Crates) (m : Machine) where
  open C use {Float, gt}

  abbrev Processes : Type 0
  Processes = List (ProcessInfo C)

  -- None of the list takes more of the processor than one that stands before it.
  abbrev pub Descends : Processes → Type 0
  Descends [] = Unit
  Descends (p ∷ ps) = All (λ q. gt q.cpu p.cpu ≡ false) ps × Descends ps

  take-drop : (n : ℕ) (ps : Processes) → take n ps ++ drop n ps ≡ ps
  take-drop zero ps = refl
  take-drop (suc n) [] = refl
  take-drop (suc n) (p ∷ ps) = ap (λ qs. p ∷ qs) (take-drop n ps)

  -- A part of the list is left only behind `n` others.
  length-take : (n : ℕ) (ps : Processes) → (length (take n ps) ≡ n) ⊎ (drop n ps ≡ [])
  length-take zero ps = inl refl
  length-take (suc n) [] = inr refl
  length-take (suc n) (p ∷ ps) = elim (length-take n ps) [ inl e ↦ inl (ap suc e) | inr e ↦ inr e ]

  length-take_le : (n : ℕ) (ps : Processes) → length (take n ps) ≤ n
  length-take_le zero ps = omega arith
  length-take_le (suc n) [] = omega arith
  length-take_le (suc n) (p ∷ ps) = omega (arith, length-take_le n ps)

  insert-perm : (p : ProcessInfo C) (ps : Processes) → Perm (insert_process C m p ps) (p ∷ ps)
  unfolding insert_process
  insert-perm p [] = Perm.refl _
  insert-perm p (q ∷ qs) = elim (Bool-cases (gt q.cpu p.cpu)) [
    | inl e ↦ rw e (Perm.trans (Perm.cons q (insert-perm p qs)) (Perm.swap p q qs))
    | inr e ↦ rw e (Perm.refl _)
  ]

  sort-perm : (ps : Processes) → Perm (sort_processes C m ps) ps
  unfolding sort_processes
  sort-perm [] = Perm.refl _
  sort-perm (p ∷ ps) =
      Perm.trans (insert-perm p (sort_processes C m ps)) (Perm.cons p (sort-perm ps))

  module _ (Q : ProcessInfo C → Type 0) where
    insert-All :
        (p : ProcessInfo C) (ps : Processes) → Q p → All Q ps → All Q (insert_process C m p ps)
    unfolding insert_process
    insert-All p [] q h = (q, tt)
    insert-All p (r ∷ rs) q (x, h) = elim (Bool-cases (gt r.cpu p.cpu)) [
      | inl e ↦ rw e (x, insert-All p rs q h)
      | inr e ↦ rw e (q, (x, h))
    ]

    sort-All : (ps : Processes) → All Q ps → All Q (sort_processes C m ps)
    unfolding sort_processes
    sort-All [] h = tt
    sort-All (p ∷ ps) (q, h) = insert-All p (sort_processes C m ps) q (sort-All ps h)

    take-All : (n : ℕ) (ps : Processes) → All Q ps → All Q (take n ps)
    take-All zero ps h = tt
    take-All (suc n) [] h = tt
    take-All (suc n) (p ∷ ps) (q, h) = (q, take-All n ps h)

  -- The process was there when the second sample was taken.
  abbrev pub IsAlive : Snapshot C m → ProcessInfo C → Type 0
  IsAlive second p = Dict.lookup nat_key p.pid second ≢ none

  compared-IsAlive :
      (first second : Snapshot C m) (total_delta : ℕ) (ncpus : Float)
      → All (IsAlive second) (compared C m second total_delta ncpus first)
  unfolding compared
  compared-IsAlive [] second total_delta ncpus = tt
  compared-IsAlive ((pid, (name, j1, mem_mb)) ∷ first) second total_delta ncpus =
      elim (Option-cases (Dict.lookup nat_key pid second)) [
        | inl e ↦ rw (compared, e) (compared-IsAlive first second total_delta ncpus)
        | inr (found, e) ↦
            rw (compared, e)
              (
                (λ missing. (let never = sym missing ∙ e in cc)),
                compared-IsAlive first second total_delta ncpus,
              )
      ]

  -- The identifiers of the first sample that the second one also has.
  unfoldable pub both : Snapshot C m → Snapshot C m → List ℕ
  both [] second = []
  both ((pid, sample) ∷ first) second = elim (Dict.lookup nat_key pid second) [
    | none ↦ both first second
    | some found ↦ pid ∷ both first second
  ]

  compared-both :
      (first second : Snapshot C m) (total_delta : ℕ) (ncpus : Float)
      → map (λ p. p.pid) (compared C m second total_delta ncpus first) ≡ both first second
  unfolding compared both
  compared-both [] second total_delta ncpus = refl
  compared-both ((pid, (name, j1, mem_mb)) ∷ first) second total_delta ncpus =
      elim (Option-cases (Dict.lookup nat_key pid second)) [
        | inl e ↦ rw (compared, both, e) (compared-both first second total_delta ncpus)
        | inr (found, e) ↦
            rw (compared, both, e)
              (ap (λ ids. pid ∷ ids) (compared-both first second total_delta ncpus))
      ]

  -- `gt` of `f64`, where `IsNumber` leaves out what is not a number.
  module _ (IsNumber : Float → Type 0) (asym : (a b : Float) → gt a b ≡ true → gt b a ≡ false)
      (order : (a b c : Float)
        → IsNumber b
        → gt a b ≡ false
        → gt b c ≡ false
        → gt a c ≡ false) where
    abbrev Numbers : Processes → Type 0
    Numbers ps = All (λ p. IsNumber p.cpu) ps

    not_above :
        (p q : ProcessInfo C) (ps : Processes)
        → IsNumber q.cpu
        → gt q.cpu p.cpu ≡ false
        → All (λ r. gt r.cpu q.cpu ≡ false) ps
        → All (λ r. gt r.cpu p.cpu ≡ false) ps
    not_above p q [] n g h = tt
    not_above p q (r ∷ rs) n g (x, h) = (order r.cpu q.cpu p.cpu n x g, not_above p q rs n g h)

    insert-Descends :
        (p : ProcessInfo C) (ps : Processes)
        → Numbers ps
        → Descends ps
        → Descends (insert_process C m p ps)
    unfolding insert_process
    insert-Descends p [] n h = (tt, tt)
    insert-Descends p (q ∷ qs) (n, ns) (b, h) = elim (Bool-cases (gt q.cpu p.cpu)) [
      | inl e ↦ rw e (
        insert-All (λ r. gt r.cpu q.cpu ≡ false) p qs (asym q.cpu p.cpu e) b,
        insert-Descends p qs ns h,
      )
      | inr e ↦ rw e ((e, not_above p q qs n e b), (b, h))
    ]

    sort-Descends : (ps : Processes) → Numbers ps → Descends (sort_processes C m ps)
    unfolding sort_processes
    sort-Descends [] n = tt
    sort-Descends (p ∷ ps) (n, ns) =
        insert-Descends p (sort_processes C m ps) (sort-All (λ q. IsNumber q.cpu) ps ns)
          (sort-Descends ps ns)

    -- `shown` are the first 32 of all processes, ordered by their share, and `rest` the others.
    pub record IsTop (all shown : Processes) : Type 0 where
      pub rest : Processes
      pub parts : Perm (shown ++ rest) all
      pub ordered : Descends (shown ++ rest)
      pub bounded : length shown ≤ 32
      pub cut : (length shown ≡ 32) ⊎ (rest ≡ [])

    sorted-IsTop : (all : Processes) → Numbers all → IsTop all (take 32 (sort_processes C m all))
    sorted-IsTop all n =
        let sorted = sort_processes C m all in
        record {
          rest = drop 32 sorted;
          parts = subst (λ ps. Perm ps all) (sym (take-drop 32 sorted)) (sort-perm all);
          ordered = subst Descends (sym (take-drop 32 sorted)) (sort-Descends all n);
          bounded = length-take_le 32 sorted;
          cut = length-take 32 sorted;
        }

    -- The list that the model is shown, of the processes that both samples have: with those left out,
    -- they are all of these processes, each as often as it is there, and none of them, shown or left
    -- out, takes more of the processor than one before it. At most 32 are shown, and some are left out
    -- only if 32 are shown. Each of the shares is a number, and among numbers `gt` is the strict part of
    -- an order.
    pub ranked_lem :
        (first second : Snapshot C m) (total_delta : ℕ) (ncpus : Float)
        → Numbers (compared C m second total_delta ncpus first)
        → IsTop
            (compared C m second total_delta ncpus first)
            (ranked C m first second total_delta ncpus)
          × (map (λ p. p.pid) (compared C m second total_delta ncpus first) ≡ both first second)
          × All (IsAlive second) (ranked C m first second total_delta ncpus)
    unfolding ranked
    ranked_lem first second total_delta ncpus n =
        let all = compared C m second total_delta ncpus first in
        (
          sorted-IsTop all n,
          compared-both first second total_delta ncpus,
          take-All (IsAlive second) 32 (sort_processes C m all)
              (sort-All (IsAlive second) all (compared-IsAlive first second total_delta ncpus)),
        )
