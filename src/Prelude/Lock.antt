-- ===== src/Prelude/Lock.antt =====
-- `std::sync::Mutex`: a value that one thread at a time holds. `lock` fails once a thread has
-- panicked while it held the value.
use mathlib.Core.Bool.{Bool, false}
use mathlib.Core.Option.{Option, none, some}
use saaios.Prelude.Tests.{if◌then◌else◌}

pub record Mutex {ℓ} (A : Type ℓ) : Type ℓ where
  pub poisoned : Bool
  pub value : A

module _ {ℓ} {A : Type ℓ} where
  abbrev pub mutex : A → Mutex A
  mutex a = record { poisoned = false; value = a }

  abbrev pub lock : Mutex A → Option A
  lock m = if m.poisoned then none else some m.value

  -- `if let Ok(mut guard) = m.lock() { ... }`: the write is skipped if the lock fails.
  abbrev pub update : Mutex A → (A → A) → Mutex A
  update m f = if m.poisoned then m else record m { value = f m.value }
