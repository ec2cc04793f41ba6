-- ===== src/Samples/Tiny.antt =====
-- Crates with two identifiers, one time and one value, every member of which reads "yes".
use saaios.Prelude.{
  ℕ, Bool, true, false, not, ◌≡◌, refl, none, some, ltb, leb, ◌==◌, if◌then◌else◌, ◌↔◌,
}
use saaios.Crates.{Crates}

abbrev same_bool : Bool → Bool → Bool
same_bool true b = b
same_bool false b = not b

pub same_bool_iff : (a b : Bool) → (same_bool a b ≡ true) ↔ (a ≡ b)
same_bool_iff true true = (λ h. refl, λ h. refl)
same_bool_iff true false = (λ h. cc, λ h. cc)
same_bool_iff false true = (λ h. cc, λ h. cc)
same_bool_iff false false = (λ h. refl, λ h. refl)

abbrev odd : ℕ → Bool
odd ℕ.zero = false
odd (ℕ.suc n) = not (odd n)

abbrev pub tiny : Crates
tiny = record {
  Value = Unit;
  get = λ v k. some tt;
  as_str = λ v. some "yes";
  as_bool = λ v. none;
  as_u64 = λ v. none;
  as_array = λ v. none;
  is_object = λ v. true;
  is_null = λ v. false;
  to_text = λ v. "{}";
  parse = λ s. some tt;
  pointer = λ v path. some tt;
  null = tt;
  bool = λ b. tt;
  num = λ n. tt;
  str = λ s. tt;
  arr = λ vs. tt;
  obj = λ fields. tt;
  Float = ℕ;
  as_f64 = λ v. none;
  of_nat = λ n. n;
  ge = λ a b. leb b a;
  gt = λ a b. ltb b a;
  show_float = λ n. "x";
  float = λ n. tt;
  add = λ a b. a;
  sub = λ a b. a;
  mul = λ a b. a;
  div = λ a b. a;
  max_float = λ a b. a;
  round = λ n. n;
  parse_f64 = λ s. none;
  Uuid = Bool;
  uuid_key = record { same = same_bool; same_iff = same_bool_iff };
  new_v4 = odd;
  show_uuid = λ b. if b then "odd" else "even";
  is_nil = λ b. false;
  Time = Unit;
  utc_now = λ n. tt;
  elapsed_lt = λ now last secs. ltb 0 secs;
  later = λ a b. false;
  is_epoch = λ t. false;
  show_nat = λ n. "n";
  to_lowercase = λ s. s;
  to_uppercase = λ s. s;
  trim = λ s. s;
  is_whitespace = λ c. c == b' ';
  from_utf8_lossy = λ bytes. "";
}
