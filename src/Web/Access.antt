-- ===== src/Web/Access.antt =====
-- Who may use the web console of crates/console-web/src/main.rs.
use Prim.Native.Char.{Char, code}
use text.Mathlib.TextLemmas as Texts
use text.Mathlib.TextEquality.{Char-path}
use saaios.Prelude.{
  ◌≡◌, refl, sym, ap, ◌∙◌, ◌↔◌, ◌⊎◌, inl, inr, String, Bool, true, false, ◌||◌, Option, none, some,
  List, [], ◌∷◌, any, Bool-cases, Option-cases, eq_iff, ◌+++◌, ◌==◌, arith, is_some,
}
use saaios.Protocol.{Result, ok}
use saaios.Text.{strip_prefix, split_on}
use saaios.Web.{Addr, Args, Listener, HeaderMap, carries, holds, token_matches}

code-path : (c d : Char) → (code c == code d) ≡ true → c ≡ d
code-path c d h = Char-path c d (ground arith)

code-same : (c : Char) → (code c == code c) ≡ true
code-same c = ground arith

some_inj : {A : Type 0} {a b : A} → ◌≡◌ {A = Option A} (some a) (some b) → a ≡ b
some_inj h = cc

strip_prefix-eq : (s p v : String) → strip_prefix s p ≡ some v → s ≡ p +++ v
unfolding strip_prefix
strip_prefix-eq s String.[] v h = some_inj h ∙ sym (Texts.nil-append v)
strip_prefix-eq String.[] (String.◌∷◌ d p) v h = cc
strip_prefix-eq (String.◌∷◌ c s) (String.◌∷◌ d p) v h = elim (Bool-cases (code c == code d)) [
  | inl e ↦
      let same = code-path c d e in
      let rest = strip_prefix-eq s p v (rw (strip_prefix, e) at h) in
      ap (λ t. String.◌∷◌ c t) rest
      ∙ (ap (λ x. String.◌∷◌ x (p +++ v)) same ∙ sym (Texts.cons-append d p v))
  | inr e ↦ absurd (let no = rw (strip_prefix, e) at h in cc)
]

strip_prefix-append : (p v : String) → strip_prefix (p +++ v) p ≡ some v
unfolding strip_prefix
strip_prefix-append String.[] v = ap some (Texts.nil-append v)
strip_prefix-append (String.◌∷◌ d p) v =
    rw (Texts.cons-append d p v) (rw (strip_prefix, code-same d) (strip_prefix-append p v))

pub carries_iff :
    (prefix expected s : String) → (carries prefix expected s ≡ true) ↔ (s ≡ prefix +++ expected)
unfolding carries
carries_iff prefix expected s = (
  found,
  λ e. rw (e, carries, strip_prefix-append prefix expected) ((eq_iff expected expected).1 refl),
)
  where
    found : carries prefix expected s ≡ true → s ≡ prefix +++ expected
    found h = elim (Option-cases (strip_prefix s prefix)) [
      | inl n ↦ absurd (let no = rw (n, carries) at h in cc)
      | inr (v, e) ↦
          strip_prefix-eq s prefix v e
          ∙ ap (λ t. prefix +++ t) ((eq_iff v expected).0 (rw (e, carries) at h))
    ]

-- One of them has the property.
abbrev pub Some : {A : Type 0} → (A → Type 0) → List A → Type 0
Some P [] = ⊥
Some P (x ∷ xs) = P x ⊎ Some P xs

module _ {A : Type 0} (p : A → Bool) (P : A → Type 0) (p_iff : (a : A) → (p a ≡ true) ↔ P a) where
  any_iff : (xs : List A) → (any p xs ≡ true) ↔ Some P xs
  any_iff [] = (λ h. cc, λ h. absurd h)
  any_iff (x ∷ xs) = (
    λ h. elim (Bool-cases (p x)) [
      | inl e ↦ inl ((p_iff x).0 e)
      | inr e ↦ inr ((any_iff xs).0 (rw e at h))
    ],
    λ s. elim s [
      | inl h ↦ rw ((p_iff x).1 h) refl
      | inr h ↦ elim (Bool-cases (p x)) [ inl e ↦ rw e refl | inr e ↦ rw e ((any_iff xs).1 h) ]
    ],
  )

-- The value is there and has the property.
abbrev pub Has : (String → Type 0) → Option String → Type 0
Has P none = ⊥
Has P (some s) = P s

holds_iff :
    (p : String → Bool) (P : String → Type 0)
    → ((s : String) → (p s ≡ true) ↔ P s)
    → (o : Option String) → (holds p o ≡ true) ↔ Has P o
holds_iff p P h none = (λ e. cc, λ n. absurd n)
holds_iff p P h (some s) = h s

-- The request shows the token: as bearer, in the header of its own, as a parameter of the address, or
-- in the cookie.
abbrev pub Presents : (String → String) → String → HeaderMap → Option String → Type 0
Presents trim expected headers query =
    Has (λ s. s ≡ "Bearer " +++ expected) headers.authorization
    ⊎ (Has (λ s. s ≡ expected) headers.x_saaios_token
        ⊎ (Has (λ q. Some (λ pair. pair ≡ "token=" +++ expected) (split_on b'&' q)) query
            ⊎ Has (λ c. Some (λ part. trim part ≡ "saaios_token=" +++ expected) (split_on b';' c))
                headers.cookie))

or_iff : (a b : Bool) (A B : Type 0) → (a ≡ true) ↔ A → (b ≡ true) ↔ B → ((a || b) ≡ true) ↔ (A ⊎ B)
or_iff true b A B h k = (λ e. inl (h.0 refl), λ s. refl)
or_iff false b A B h k =
    (λ e. inr (k.0 e), λ s. elim s [ inl x ↦ absurd (let no = h.1 x in cc) | inr y ↦ k.1 y ])

-- A token is accepted exactly where the request shows it in one of the four places, whole and not as a
-- part of another one.
pub token_matches_iff :
    (trim : String → String) (expected : String) (headers : HeaderMap) (query : Option String)
    → (token_matches trim expected headers query ≡ true) ↔ Presents trim expected headers query
unfolding token_matches
token_matches_iff trim expected headers query =
    or_iff _ _ _ _ (holds_iff _ _ (carries_iff "Bearer " expected) headers.authorization) (
      or_iff _ _ _ _ (holds_iff _ _ (λ s. eq_iff s expected) headers.x_saaios_token) (
        or_iff _ _ _ _
          (holds_iff _ _ (λ q. any_iff _ _ (carries_iff "token=" expected) (split_on b'&' q)) query)
          (holds_iff _ _
            (λ c.
              any_iff _ _ (λ part. carries_iff "saaios_token=" expected (trim part))
                (split_on b';' c))
            headers.cookie)))

-- What a server that starts takes from the command line.
pub record IsGuarded (parse_addr : String → Result String Addr) (args : Args) (l : Listener)
    : Type 0 where
  pub token : l.settings.token ≡ args.token
  pub closed : args.lan ≡ true → (is_some args.token ≡ true) ⊎ (args.allow_open ≡ true)
  pub everywhere : args.lan ≡ true → l.bind ≡ record { host = "0.0.0.0"; port = args.port }
  pub elsewhere : args.lan ≡ false → parse_addr args.bind ≡ ok l.bind
  pub certified :
      ((cert : String) × (key : String) × (l.tls ≡ some (cert, key))
        × (args.tls_cert ≡ some cert)
        × (args.tls_key ≡ some key))
      ⊎ ((l.tls ≡ none) × (args.tls_cert ≡ none) × (args.tls_key ≡ none))
