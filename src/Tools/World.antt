-- ===== src/Tools/World.antt =====
-- What crates/system-tools/src/lib.rs sees of a Linux machine: files, directories and child processes.
use saaios.Prelude.{ℕ, suc, String, Bool, true, false, Option, none, some, List, [], ◌∷◌, ◌++◌}
use saaios.Protocol.{Result, ok, err}

-- `std::process::Output`
pub record Output : Type 0 where
  pub success : Bool
  -- the exit status as it is shown
  pub status : String
  pub stdout : List ℕ
  pub stderr : List ℕ

-- The machine: what the n-th look at it finds. A directory is listed by the names of its entries.
pub record Machine : Type 0 where
  pub read_to_string : ℕ → String → Result String String
  pub exists : ℕ → String → Bool
  pub read_dir : ℕ → String → Result String (List String)
  pub output : ℕ → String → List String → Result String Output
  pub process_id : ℕ
  pub available_parallelism : Option ℕ

-- How often the process has looked, and the programs that it has run, with their arguments.
pub record World : Type 0 where
  pub looks : ℕ
  pub commands : List (String × List String)

abbrev pub Look : Type 0 → Type 0
Look A = World → A × World

unfoldable pub pure : {A : Type 0} → A → Look A
pure a w = (a, w)

infixl 5 ◌>>=◌
unfoldable pub ◌>>=◌ : {A B : Type 0} → Look A → (A → Look B) → Look B
◌>>=◌ m f w = let (a, w') = m w in f a w'

-- One look.
unfoldable pub look : {A : Type 0} → (ℕ → A) → Look A
look f w = (f w.looks, record w { looks = suc w.looks })

-- `Command::new(program).args(args).output()`, and `.status()` without its output.
unfoldable pub command : Machine → String → List String → Look (Result String Output)
command m program args w = (
  m.output w.looks program args,
  record w { looks = suc w.looks; commands = w.commands ++ (program, args) ∷ [] },
)

-- `P` outlives the look.
pub record Keeps {A : Type 0} (P : World → Type 0) (m : Look A) : Type 0 where
  pub at : (w : World) → P w → P (m w).1

module _ {A : Type 0} {P : World → Type 0} where
  pub Keeps-pure : (a : A) → Keeps P (pure a)
  unfolding pure
  Keeps-pure a = record { at = λ w h. h }

pub Keeps-bind :
    {A B : Type 0} {P : World → Type 0} (m : Look A) (f : A → Look B)
    → Keeps P m
    → ((a : A) → Keeps P (f a))
    → Keeps P (m >>= f)
unfolding ◌>>=◌
Keeps-bind m f h k = record { at = λ w p. (k (m w).0).at (m w).1 (h.at w p) }

-- What follows depends on a value: `match`, in the order of the cases here.
module _ {A B : Type 0} where
  unfoldable pub if_some : Option A → (A → Look B) → Look B → Look B
  if_some none f n = n
  if_some (some a) f n = f a

  unfoldable pub if_ok : {E : Type 0} → Result E A → (A → Look B) → (E → Look B) → Look B
  if_ok (ok a) f g = f a
  if_ok (err e) f g = g e

unfoldable pub if_true : {B : Type 0} → Bool → Look B → Look B → Look B
if_true true x y = x
if_true false x y = y

module _ {A B : Type 0} {P : World → Type 0} where
  pub Keeps-if_some :
      (o : Option A) (f : A → Look B) (n : Look B)
      → ((a : A) → Keeps P (f a))
      → Keeps P n
      → Keeps P (if_some o f n)
  unfolding if_some
  Keeps-if_some none f n k h = h
  Keeps-if_some (some a) f n k h = k a

  pub Keeps-if_ok :
      {E : Type 0} (x : Result E A) (f : A → Look B) (g : E → Look B)
      → ((a : A) → Keeps P (f a))
      → ((e : E) → Keeps P (g e))
      → Keeps P (if_ok x f g)
  unfolding if_ok
  Keeps-if_ok (ok a) f g k h = k a
  Keeps-if_ok (err e) f g k h = h e

pub Keeps-if_true :
    {B : Type 0} {P : World → Type 0} (b : Bool) (x y : Look B)
    → Keeps P x
    → Keeps P y
    → Keeps P (if_true b x y)
unfolding if_true
Keeps-if_true true x y h k = h
Keeps-if_true false x y h k = k

pub ruleset keeps_rules = (Keeps-pure, Keeps-bind, Keeps-if_some, Keeps-if_ok, Keeps-if_true)
