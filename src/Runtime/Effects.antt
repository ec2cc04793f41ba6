-- ===== src/Runtime/Effects.antt =====
-- Methods of the runtime that change its state and may return an error with `?`. What was done
-- before the error stays done.
use saaios.Prelude.{String, Bool, true, false, if◌then◌else◌, ◌≡◌, refl}
use saaios.Protocol.{Result, ok, err}

abbrev pub Action : Type 0 → Type 0 → Type 0
Action R A = R → Result String A × R

module _ {R A : Type 0} where
  unfoldable pub pure : A → Action R A
  pure a r = (ok a, r)

  unfoldable pub fail : String → Action R A
  fail e r = (err e, r)

  unfoldable pub lift : Result String A → Action R A
  lift x r = (x, r)

  unfoldable pub gets : (R → A) → Action R A
  gets f r = (ok (f r), r)

unfoldable pub modify : {R : Type 0} → (R → R) → Action R (Unit {0})
modify f r = (ok tt, f r)

module _ {R A B : Type 0} where
  abbrev pub proceed : Result String A → (A → Action R B) → Action R B
  proceed (ok a) f r = f a r
  proceed (err e) f r = (err e, r)

  infixl 5 ◌>>=◌ ◌>>◌
  unfoldable pub ◌>>=◌ : Action R A → (A → Action R B) → Action R B
  ◌>>=◌ m f r = let (x, r') = m r in proceed x f r'

  abbrev pub ◌>>◌ : Action R A → Action R B → Action R B
  m >> n = m >>= λ _. n

-- `m` keeps `P`, whether it returns or fails.
pub record Keeps {R A : Type 0} (P : R → Type 0) (m : Action R A) : Type 0 where
  pub at : (r : R) → P r → P (m r).1

pub Keeps-modify :
    {R : Type 0} {P : R → Type 0} (f : R → R) → ((r : R) → P r → P (f r)) → Keeps P (modify f)
unfolding modify
Keeps-modify f h = record { at = h }

module _ {R A : Type 0} {P : R → Type 0} where
  pub Keeps-pure : (a : A) → Keeps P (pure a)
  unfolding pure
  Keeps-pure a = record { at = λ r h. h }

  pub Keeps-fail : (e : String) → Keeps P (fail {A = A} e)
  unfolding fail
  Keeps-fail e = record { at = λ r h. h }

  pub Keeps-lift : (x : Result String A) → Keeps P (lift x)
  unfolding lift
  Keeps-lift x = record { at = λ r h. h }

  pub Keeps-gets : (f : R → A) → Keeps P (gets f)
  unfolding gets
  Keeps-gets f = record { at = λ r h. h }

  pub Keeps-if :
      (b : Bool) (m n : Action R A) → Keeps P m → Keeps P n → Keeps P (if b then m else n)
  Keeps-if true m n h k = h
  Keeps-if false m n h k = k

module _ {R A B : Type 0} {P : R → Type 0} where
  proceed-Keeps :
      (x : Result String A) (f : A → Action R B) (r : R)
      → ((a : A) → Keeps P (f a))
      → P r
      → P (proceed x f r).1
  proceed-Keeps (ok a) f r k p = (k a).at r p
  proceed-Keeps (err e) f r k p = p

  pub Keeps-bind :
      (m : Action R A) (f : A → Action R B)
      → Keeps P m
      → ((a : A) → Keeps P (f a))
      → Keeps P (m >>= f)
  unfolding ◌>>=◌
  Keeps-bind m f h k = record { at = λ r p. proceed-Keeps (m r).0 f (m r).1 k (h.at r p) }

pub ruleset keeps_rules = (Keeps-pure, Keeps-fail, Keeps-lift, Keeps-gets, Keeps-if, Keeps-bind)

module _ {R A B : Type 0} {P : R → Type 0} where
  -- What is read of the state may be used by what follows.
  pub Keeps-gets-bind :
      (f : R → A) (k : A → Action R B)
      → ((r : R) → P r → Keeps P (k (f r)))
      → Keeps P (gets f >>= k)
  unfolding gets ◌>>=◌
  Keeps-gets-bind f k h = record { at = λ r p. (h r p).at r p }

pub >>=-ok :
    {R A B : Type 0} (m : Action R A) (f : A → Action R B) (r r' : R) (a : A)
    → m r ≡ (ok a, r')
    → (m >>= f) r ≡ f a r'
unfolding ◌>>=◌
>>=-ok m f r r' a e = rw e refl

-- What a bind that succeeds has gone through.
pub >>=-eq-ok :
    {R A B : Type 0} (m : Action R A) (f : A → Action R B) (r r'' : R) (b : B)
    → (m >>= f) r ≡ (ok b, r'')
    → (a : A) × (r' : R) × (m r ≡ (ok a, r')) × (f a r' ≡ (ok b, r''))
unfolding ◌>>=◌
>>=-eq-ok {R} {A} {B} m f r r'' b h = split (m r).0 (m r).1 refl h
  where
    split :
        (x : Result String A) (r' : R)
        → m r ≡ (x, r')
        → proceed x f r' ≡ (ok b, r'')
        → (a : A) × (s : R) × (m r ≡ (ok a, s)) × (f a s ≡ (ok b, r''))
    split (ok a) r' e k = (a, r', e, k)
    split (err e') r' e k = cc

-- `m` returns, from any state.
pub record Returns {R A : Type 0} (m : Action R A) : Type 0 where
  pub at : (r : R) → (a : A) × (r' : R) × (m r ≡ (ok a, r'))

module _ {R A : Type 0} where
  pub Returns-pure : (a : A) → Returns {R = R} (pure a)
  unfolding pure
  Returns-pure a = record { at = λ r. (a, r, refl) }

  pub Returns-gets : (f : R → A) → Returns (gets f)
  unfolding gets
  Returns-gets f = record { at = λ r. (f r, r, refl) }

  pub Returns-if :
      (b : Bool) (m n : Action R A) → Returns m → Returns n → Returns (if b then m else n)
  Returns-if true m n h k = h
  Returns-if false m n h k = k

pub Returns-modify : {R : Type 0} (f : R → R) → Returns (modify f)
unfolding modify
Returns-modify f = record { at = λ r. (tt, f r, refl) }

pub Returns-bind :
    {R A B : Type 0} (m : Action R A) (f : A → Action R B)
    → Returns m
    → ((a : A) → Returns (f a))
    → Returns (m >>= f)
unfolding ◌>>=◌
Returns-bind m f h k = record {
  at = λ r. let (a, r', e) = h.at r in let (b, r'', e') = (k a).at r' in (b, r'', rw e e');
}

pub ruleset returns_rules = (Returns-pure, Returns-gets, Returns-if, Returns-bind)

-- What holds after `m`: `Q` of the result and the state if it returns, `E` of the state if it fails.
abbrev pub Outcome : {R A : Type 0} → (A → R → Type 0) → (R → Type 0) → Result String A → R → Type 0
Outcome Q E (ok a) r = Q a r
Outcome Q E (err e) r = E r

pub record Ensures {R A : Type 0} (P : R → Type 0) (Q : A → R → Type 0) (E : R → Type 0)
    (m : Action R A) : Type 0 where
  pub at : (r : R) → P r → Outcome Q E (m r).0 (m r).1

module _ {R A B : Type 0} {Q : A → R → Type 0} {Q' : B → R → Type 0} {E : R → Type 0} where
  proceed-Ensures :
      (x : Result String A) (f : A → Action R B) (r : R)
      → ((a : A) → Ensures (Q a) Q' E (f a))
      → Outcome Q E x r
      → Outcome Q' E (proceed x f r).0 (proceed x f r).1
  proceed-Ensures (ok a) f r k p = (k a).at r p
  proceed-Ensures (err e) f r k p = p

  pub Ensures-bind :
      {P : R → Type 0} (m : Action R A) (f : A → Action R B)
      → Ensures P Q E m
      → ((a : A) → Ensures (Q a) Q' E (f a))
      → Ensures P Q' E (m >>= f)
  unfolding ◌>>=◌
  Ensures-bind m f h k = record { at = λ r p. proceed-Ensures (m r).0 f (m r).1 k (h.at r p) }

pub Ensures-pure :
    {R A : Type 0} {Q : A → R → Type 0} {E : R → Type 0} (a : A) → Ensures (Q a) Q E (pure a)
unfolding pure
Ensures-pure a = record { at = λ r h. h }
