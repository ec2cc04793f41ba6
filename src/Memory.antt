-- ===== src/Memory.antt =====
-- crates/memory-store/src/lib.rs: durable facts as an append-only JSONL file, the latest fact of a
-- key being the one that counts. The iteration order of the `HashMap` is that of first insertion;
-- the facts are sorted by time afterwards.
pub mod Latest
pub mod Recall
pub mod Tools
pub mod Installed
use saaios.Prelude.{
  ℕ, suc, String, Bool, true, false, not, ◌||◌, Option, none, some, List, [], ◌∷◌, ◌++◌,
  if◌then◌else◌, str_eq, ◌+++◌, contains, any, take, map, leb, length, is_empty,
}
use saaios.Prelude.Dict
use saaios.Crates.{Crates}
use saaios.Protocol.{Result, ok, err}
use saaios.Jsonl
use saaios.Jsonl.{Codec, Log}
use saaios.Registry.{string_key}

module _ (C : Crates) where
  open C use {Uuid, Time, new_v4, utc_now, is_nil, is_epoch, later, to_lowercase, trim}

  pub record MemoryFact : Type 0 where
    pub id : Uuid
    pub ts : Time
    pub key : String
    pub value : String
    pub tags : List String
    pub source : Option String
    pub deleted : Bool

  -- `MemoryFact::new`, with the n-th identifier and reading of the clock.
  unfoldable pub fact : ℕ → String → String → MemoryFact
  fact n key value = record {
    id = new_v4 n;
    ts = utc_now n;
    key = key;
    value = value;
    tags = [];
    source = none;
    deleted = false;
  }

  -- The file, and how often identifiers and the clock have been drawn on.
  pub record MemoryStore : Type 0 where
    pub file : Log
    pub drawn : ℕ

  -- `fold` of `HashMap::insert`, from an empty map.
  unfoldable pub newest : List (String × MemoryFact) → List MemoryFact → List (String × MemoryFact)
  newest m [] = m
  newest m (f ∷ fs) = newest (Dict.insert string_key f.key f m) fs

  unfoldable pub live : List (String × MemoryFact) → List MemoryFact
  live [] = []
  live ((k, f) ∷ m) = let rest = live m in if f.deleted then rest else f ∷ rest

  -- `sort_by_key(Reverse(ts))`: a stable sort, the latest first.
  unfoldable pub insert_by_ts : MemoryFact → List MemoryFact → List MemoryFact
  insert_by_ts f [] = f ∷ []
  insert_by_ts f (g ∷ gs) =
      let rest = insert_by_ts f gs in if later g.ts f.ts then g ∷ rest else f ∷ (g ∷ gs)

  unfoldable pub sort_by_ts : List MemoryFact → List MemoryFact
  sort_by_ts [] = []
  sort_by_ts (f ∷ fs) = insert_by_ts f (sort_by_ts fs)

  -- What `latest_by_key` makes of the records of the file.
  unfoldable pub latest : List MemoryFact → List MemoryFact
  latest facts = sort_by_ts (live (newest [] facts))

  abbrev pub then_ok : {A B : Type 0} → Result String A → (A → B) → Result String B
  then_ok (ok a) f = ok (f a)
  then_ok (err e) f = err e

  -- `f.key.to_lowercase().contains(&q) || ...`
  unfoldable pub is_hit : String → MemoryFact → Bool
  is_hit q f =
      contains (to_lowercase f.key) q
      || contains (to_lowercase f.value) q
      || any (λ t. contains (to_lowercase t) q) f.tags

  unfoldable pub hits : String → List MemoryFact → List MemoryFact
  hits q [] = []
  hits q (f ∷ fs) = let rest = hits q fs in if is_hit q f then f ∷ rest else rest

  unfoldable pub find_key : String → List MemoryFact → Option MemoryFact
  find_key key [] = none
  find_key key (f ∷ fs) = if str_eq f.key key then some f else find_key key fs

  module _ (codec : Codec MemoryFact) where
    unfoldable pub latest_by_key : MemoryStore → Result String (List MemoryFact)
    latest_by_key s = then_ok (Jsonl.read_all codec s.file) latest

    unfoldable pub list_recent : MemoryStore → ℕ → Result String (List MemoryFact)
    list_recent s limit = then_ok (latest_by_key s) (take limit)

    unfoldable pub recall : MemoryStore → String → Result String (List MemoryFact)
    recall s query =
        let q = to_lowercase (trim query) in
        if str_eq q "" then list_recent s 20 else then_ok (latest_by_key s) (hits q)

    added : Result String (Unit {0}) × Log → ℕ → MemoryFact → Result String MemoryFact × MemoryStore
    added (ok _, log) n f = (ok f, record { file = log; drawn = n })
    added (err e, log) n f = (err e, record { file = log; drawn = n })

    -- A nil identifier and the epoch are filled in.
    abbrev pub filled : ℕ → MemoryFact → MemoryFact
    filled n f = record f {
      id = if is_nil f.id then new_v4 n else f.id;
      ts = if is_epoch f.ts then utc_now n else f.ts;
    }

    unfoldable pub remember : MemoryStore → MemoryFact → Result String MemoryFact × MemoryStore
    unfolding added
    remember s f =
        added (Jsonl.append codec s.file (filled s.drawn f)) (suc s.drawn) (filled s.drawn f)

    abbrev pub tombstone : ℕ → MemoryFact → MemoryFact
    tombstone n prev = record prev { id = new_v4 n; ts = utc_now n; deleted = true }

    abbrev some_ok :
        Result String MemoryFact × MemoryStore → Result String (Option MemoryFact) × MemoryStore
    some_ok (r, s) = (then_ok r some, s)

    bury : MemoryStore → Option MemoryFact → Result String (Option MemoryFact) × MemoryStore
    unfolding added
    bury s none = (ok none, s)
    bury s (some prev) =
        let tomb = tombstone s.drawn prev in
        some_ok (added (Jsonl.append codec s.file tomb) (suc s.drawn) tomb)

    forget_among :
        MemoryStore
        → String
        → Result String (List MemoryFact)
        → Result String (Option MemoryFact) × MemoryStore
    unfolding bury
    forget_among s key (err e) = (err e, s)
    forget_among s key (ok facts) = bury s (find_key key facts)

    unfoldable pub forget : MemoryStore → String → Result String (Option MemoryFact) × MemoryStore
    unfolding forget_among
    forget s key = forget_among s key (latest_by_key s)

    context_lines : List MemoryFact → String
    context_lines [] = ""
    context_lines (f ∷ fs) = "- " +++ f.key +++ ": " +++ f.value +++ "\n" +++ context_lines fs

    context_of : List MemoryFact → String
    unfolding context_lines
    context_of facts =
        if is_empty facts then "" else "\n\nKnown facts (memory):\n" +++ context_lines facts

    unfoldable pub format_context : MemoryStore → ℕ → Result String String
    unfolding context_of
    format_context s limit = then_ok (list_recent s limit) context_of
