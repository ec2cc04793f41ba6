-- ===== src/Provider/Fragments.antt =====
-- The tool calls of a stream in crates/model-provider/src/lib.rs, whose arguments come in fragments.
use text.Mathlib.TextLemmas as Texts
use saaios.Prelude.{
  ℕ, zero, suc, ◌+◌, ◌-◌, ◌<◌, ◌≡◌, refl, sym, ap, ◌∙◌, String, Option, none, some, List, [], ◌∷◌,
  ◌++◌, ◌+++◌, Bool-cases, inl, inr, arith, if◌then◌else◌, ◌==◌, length, length-append, unwrap_or,
  and_then,
}
use saaios.Crates.{Crates}
use saaios.Text.{concat}
use saaios.Provider.Stream.{pad, edit, named, extended, on_item, on_items, text_at}

-- The entry of a tool call, which is empty where there is none yet.
abbrev pub entry : List (String × String) → ℕ → String × String
entry [] j = ("", "")
entry (x ∷ acc) zero = x
entry (x ∷ acc) (suc j) = entry acc j

entry-snoc : (acc : List (String × String)) (j : ℕ) → entry (acc ++ ("", "") ∷ []) j ≡ entry acc j
entry-snoc [] zero = refl
entry-snoc [] (suc j) = refl
entry-snoc (x ∷ acc) zero = refl
entry-snoc (x ∷ acc) (suc j) = entry-snoc acc j

entry-pad : (n : ℕ) (acc : List (String × String)) (j : ℕ) → entry (pad n acc) j ≡ entry acc j
unfolding pad
entry-pad zero acc j = refl
entry-pad (suc n) acc j = entry-pad n (acc ++ ("", "") ∷ []) j ∙ entry-snoc acc j

length-pad : (n : ℕ) (acc : List (String × String)) → length (pad n acc) ≡ n + length acc
unfolding pad
length-pad zero acc = omega arith
length-pad (suc n) acc =
    omega (arith, length-pad n (acc ++ ("", "") ∷ []), length-append acc (("", "") ∷ []))

entry-edit :
    (n : ℕ) (f : String × String → String × String) (acc : List (String × String)) (j : ℕ)
    → n < length acc
    → entry (edit n f acc) j ≡ (if j == n then f (entry acc j) else entry acc j)
unfolding edit
entry-edit n f [] j h = absurd (omega arith)
entry-edit zero f (x ∷ acc) zero h = refl
entry-edit zero f (x ∷ acc) (suc j) h = ground arith
entry-edit (suc n) f (x ∷ acc) zero h = ground arith
entry-edit (suc n) f (x ∷ acc) (suc j) h = entry-edit n f acc j (omega arith) ∙ ground arith

module _ (C : Crates) where
  abbrev index_of : C.Value → ℕ
  index_of item = unwrap_or (and_then (C.get item "index") C.as_u64) 0

  abbrev arguments_in : C.Value → Option String
  arguments_in item = text_at C item ("function" ∷ "arguments" ∷ [])

  abbrev name_in : C.Value → Option String
  name_in item = text_at C item ("function" ∷ "name" ∷ [])

  -- An item changes the entry of its index and no other.
  entry-on_item :
      (item : C.Value) (acc : List (String × String)) (j : ℕ)
      → entry (on_item C item acc) j ≡ (
          if j == index_of item
          then extended (arguments_in item) (named (name_in item) (entry acc j))
          else entry acc j)
  unfolding on_item
  entry-on_item item acc j =
      let idx = index_of item in
      let missing = idx + 1 - length acc in
      entry-edit idx _ (pad missing acc) j (omega (arith, length-pad missing acc))
      ∙ rw (entry-pad missing acc j) refl

  -- The fragments of arguments that the items bring for the entry `j`, in their order.
  abbrev pub fragments : ℕ → List C.Value → List String
  fragments j [] = []
  fragments j (item ∷ items) =
      if j == index_of item
      then unwrap_or (arguments_in item) "" ∷ fragments j items
      else fragments j items

  named-arguments : (o : Option String) (e : String × String) → (named o e).1 ≡ e.1
  named-arguments none e = refl
  named-arguments (some name) e = refl

  extended-arguments :
      (o : Option String) (e : String × String) → (extended o e).1 ≡ e.1 +++ unwrap_or o ""
  extended-arguments none e = sym (Texts.append-nil e.1)
  extended-arguments (some more) e = refl

  on_item-arguments :
      (item : C.Value) (acc : List (String × String)) (j : ℕ)
      → (entry (on_item C item acc) j).1 ≡ (
          if j == index_of item
          then (entry acc j).1 +++ unwrap_or (arguments_in item) ""
          else (entry acc j).1)
  on_item-arguments item acc j = elim (Bool-cases (j == index_of item)) [
    | inl e ↦
        rw (entry-on_item item acc j, e)
          (extended-arguments (arguments_in item) (named (name_in item) (entry acc j))
            ∙ ap (λ t. t +++ unwrap_or (arguments_in item) "")
                (named-arguments (name_in item) (entry acc j)))
    | inr e ↦ rw (entry-on_item item acc j, e) refl
  ]

  -- Fragments of several tool calls may alternate: the raw arguments of each call are its own fragments,
  -- one after another, behind what it had before.
  pub on_items-arguments :
      (items : List C.Value) (acc : List (String × String)) (j : ℕ)
      → (entry (on_items C items acc) j).1 ≡ (entry acc j).1 +++ concat (fragments j items)
  unfolding on_items
  on_items-arguments [] acc j = sym (Texts.append-nil (entry acc j).1)
  on_items-arguments (item ∷ items) acc j = elim (Bool-cases (j == index_of item)) [
    | inl e ↦
        on_items-arguments items (on_item C item acc) j
        ∙ rw (on_item-arguments item acc j, e)
            (Texts.append_assoc (entry acc j).1 (unwrap_or (arguments_in item) "")
              (concat (fragments j items)))
    | inr e ↦
        on_items-arguments items (on_item C item acc) j ∙ rw (on_item-arguments item acc j, e) refl
  ]
