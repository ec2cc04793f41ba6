-- ===== src/Feed.antt =====
-- services/saaios-runtime/src/event_feed.rs: a bounded queue of recent events. `none` stands for the
-- panic of `expect` on a poisoned lock.
pub mod Window
use mathlib.Core.List.{reverse}
use saaios.Prelude.{
  ℕ, Option, none, some, List, [], ◌∷◌, ◌++◌, if◌then◌else◌, leb, min, max, length, take, drop,
  Mutex, mutex, lock, String, and_then,
}
use saaios.Crates.{Crates}

module _ (C : Crates) where
  pub record FeedItem : Type 0 where
    pub ts : C.Time
    pub event : String
    pub correlation_id : Option C.Uuid
    pub summary : String
    pub payload : C.Value

pub record EventFeed (A : Type 0) : Type 0 where
  pub items : Mutex (List A)
  pub capacity : ℕ

module _ {A : Type 0} where
  unfoldable pub new : ℕ → EventFeed A
  new capacity = record { items = mutex []; capacity = max capacity 1 }

  -- `pop_front` at the capacity, then `push_back`.
  unfoldable pub queue : ℕ → A → List A → List A
  queue capacity item g = (if leb capacity (length g) then drop 1 g else g) ++ item ∷ []

  unfoldable pub push : EventFeed A → A → Option (EventFeed A)
  push f item = elim (lock f.items) [
    | none ↦ none
    | some g ↦ some (record f { items = mutex (queue f.capacity item g) })
  ]

  unfoldable pub tail : EventFeed A → ℕ → Option (List A)
  tail f limit = elim (lock f.items) [
    | none ↦ none
    | some g ↦ some (reverse (take (min limit (length g)) (reverse g)))
  ]

  -- Events as the workers push them, one after the other.
  pub push_all : EventFeed A → List A → Option (EventFeed A)
  push_all f [] = some f
  push_all f (item ∷ rest) = and_then (push f item) (λ f'. push_all f' rest)
