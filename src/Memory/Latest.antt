-- ===== src/Memory/Latest.antt =====
-- The facts that count in crates/memory-store/src/lib.rs, by key.
use saaios.Prelude.{
  String, ◌≡◌, refl, ap, ◌∙◌, Option, none, some, List, [], ◌∷◌, arith, All, if◌then◌else◌, str_eq,
  eq_iff, or_else, or_else-none,
}
use saaios.Prelude.Dict
use saaios.Prelude.Dict.{lookup-insert, All-insert}
use saaios.Crates.{Crates}
use saaios.Registry.{string_key}
use saaios.Memory.{MemoryFact, newest, live, insert_by_ts, sort_by_ts, latest, find_key}

module _ (C : Crates) where
  abbrev pub said : String → MemoryFact C → Option (MemoryFact C)
  said key f = if str_eq f.key key then some f else none

  -- The last record of the key.
  abbrev pub last_of : String → List (MemoryFact C) → Option (MemoryFact C)
  last_of key [] = none
  last_of key (f ∷ fs) = or_else (last_of key fs) (said key f)

  abbrev pub live_of : Option (MemoryFact C) → Option (MemoryFact C)
  live_of none = none
  live_of (some f) = if f.deleted then none else some f

  lookup-newest :
      (key : String) (m : List (String × MemoryFact C)) (fs : List (MemoryFact C))
      → Dict.lookup string_key key (newest C m fs)
        ≡ or_else (last_of key fs) (Dict.lookup string_key key m)
  unfolding newest
  lookup-newest key m [] = refl
  lookup-newest key m (f ∷ fs) =
      lookup-newest key (Dict.insert string_key f.key f m) fs
      ∙ ap (or_else (last_of key fs)) (lookup-insert string_key f.key key f m)
      ∙ ground (arith)

  -- Every fact stands under its key, and a key has one entry.
  record IsIndex (m : List (String × MemoryFact C)) : Type 0 where
    own : All (λ e. e.1.key ≡ e.0) m
    once : Dict.Distinct string_key m

  newest-IsIndex :
      (m : List (String × MemoryFact C)) (fs : List (MemoryFact C))
      → IsIndex m
      → IsIndex (newest C m fs)
  unfolding newest
  newest-IsIndex m [] h = h
  newest-IsIndex m (f ∷ fs) h = newest-IsIndex (Dict.insert string_key f.key f m) fs (record {
    own = All-insert string_key (λ e. e.1.key ≡ e.0) f.key f m refl h.own;
    once = Dict.Distinct-insert string_key f.key f m h.once;
  })

  find_key-live :
      (key : String) (m : List (String × MemoryFact C))
      → IsIndex m
      → find_key C key (live C m) ≡ live_of (Dict.lookup string_key key m)
  unfolding find_key live Dict.lookup
  find_key-live key [] h = refl
  find_key-live key ((k, f) ∷ m) h = ground (
    arith,
    find_key-live key m (record { own = h.own.1; once = h.once.1 }),
    eq_iff k key,
    h.own.0,
    h.once.0,
  )

  -- No key twice.
  abbrev pub IsApart : List (MemoryFact C) → Type 0
  IsApart [] = Unit
  IsApart (f ∷ fs) = (find_key C f.key fs ≡ none) × IsApart fs

  live-IsApart : (m : List (String × MemoryFact C)) → IsIndex m → IsApart (live C m)
  unfolding live
  live-IsApart [] h = tt
  live-IsApart ((k, f) ∷ m) h =
      let rest : IsIndex m = record { own = h.own.1; once = h.once.1 } in
      ground (arith, live-IsApart m rest, find_key-live f.key m rest, h.own.0, h.once.0)

  find_key-insert_by_ts :
      (key : String) (f : MemoryFact C) (gs : List (MemoryFact C))
      → find_key C f.key gs ≡ none
      → find_key C key (insert_by_ts C f gs)
        ≡ (if str_eq f.key key then some f else find_key C key gs)
  unfolding find_key insert_by_ts
  find_key-insert_by_ts key f [] h = refl
  find_key-insert_by_ts key f (g ∷ gs) h = ground (
    arith,
    find_key-insert_by_ts key f gs,
    eq_iff g.key f.key,
    eq_iff g.key key,
    eq_iff f.key key,
  )

  find_key-sort_by_ts :
      (key : String) (fs : List (MemoryFact C))
      → IsApart fs
      → find_key C key (sort_by_ts C fs) ≡ find_key C key fs
  unfolding sort_by_ts
  find_key-sort_by_ts key [] h = refl
  find_key-sort_by_ts key (f ∷ fs) (h, hs) =
      find_key-insert_by_ts key f (sort_by_ts C fs) (find_key-sort_by_ts f.key fs hs ∙ h)
      ∙ ap (λ t. if str_eq f.key key then some f else t) (find_key-sort_by_ts key fs hs)
      ∙ (unfold find_key in refl)

  -- The fact that `latest_by_key` gives a key is the last record of the key, if that is not deleted.
  pub find_key-latest :
      (key : String) (rs : List (MemoryFact C))
      → find_key C key (latest C rs) ≡ live_of (last_of key rs)
  unfolding latest
  find_key-latest key rs =
      let index = newest-IsIndex [] rs (record { own = tt; once = tt }) in
      find_key-sort_by_ts key (live C (newest C [] rs)) (live-IsApart (newest C [] rs) index)
      ∙ find_key-live key (newest C [] rs) index
      ∙ ap live_of (lookup-newest key [] rs ∙ (unfold Dict.lookup in or_else-none (last_of key rs)))

  insert_by_ts-IsApart :
      (f : MemoryFact C) (gs : List (MemoryFact C))
      → find_key C f.key gs ≡ none
      → IsApart gs
      → IsApart (insert_by_ts C f gs)
  unfolding insert_by_ts find_key
  insert_by_ts-IsApart f [] h a = (refl, tt)
  insert_by_ts-IsApart f (g ∷ gs) h a = ground (
    arith,
    insert_by_ts-IsApart f gs,
    find_key-insert_by_ts g.key f gs,
    eq_iff g.key f.key,
    eq_iff f.key g.key,
    a.0,
    a.1,
  )

  sort_by_ts-IsApart : (fs : List (MemoryFact C)) → IsApart fs → IsApart (sort_by_ts C fs)
  unfolding sort_by_ts
  sort_by_ts-IsApart [] h = tt
  sort_by_ts-IsApart (f ∷ fs) (h, hs) =
      insert_by_ts-IsApart f (sort_by_ts C fs) (find_key-sort_by_ts f.key fs hs ∙ h)
        (sort_by_ts-IsApart fs hs)

  pub latest-IsApart : (rs : List (MemoryFact C)) → IsApart (latest C rs)
  unfolding latest
  latest-IsApart rs =
      sort_by_ts-IsApart (live C (newest C [] rs))
        (live-IsApart (newest C [] rs) (newest-IsIndex [] rs (record { own = tt; once = tt })))
