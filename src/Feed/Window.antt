-- ===== src/Feed/Window.antt =====
-- The feed of services/saaios-runtime/src/event_feed.rs and the list of what was pushed.
use mathlib.Core.List.{reverse, reverse-cons, reverse-append, reverse-reverse}
use saaios.Prelude.{
  ℕ, zero, suc, ◌-◌, ◌≤◌, ◌+◌, ◌<◌, ◌≡◌, refl, some, List, [], ◌∷◌, ◌++◌, arith, length,
  length-append, length-drop, take, take-append-drop, subst, leb→le, leb→gt, drop, min, max, leb,
  Bool-cases, inl, inr, ap, ◌∙◌, sym, mutex, and_then, append_assoc, append-nil,
}
use saaios.Feed.{EventFeed, new, queue, push, tail, push_all}

module _ {A : Type 0} where
  -- The last `n` elements of a list, or all of them.
  abbrev pub last : ℕ → List A → List A
  last n xs = drop (length xs - n) xs

  length-reverse : (xs : List A) → length (reverse xs) ≡ length xs
  length-reverse [] = refl
  length-reverse (x ∷ xs) =
      ap length (reverse-cons x xs)
      ∙ omega (arith, length-append (reverse xs) (x ∷ []), length-reverse xs)

  take-append_left : (xs ys : List A) → take (length xs) (xs ++ ys) ≡ xs
  take-append_left [] ys = refl
  take-append_left (x ∷ xs) ys = ap (◌∷◌ x) (take-append_left xs ys)

  drop-append_left : (n : ℕ) (xs ys : List A) → n ≤ length xs → drop n (xs ++ ys) ≡ drop n xs ++ ys
  drop-append_left zero xs ys h = refl
  drop-append_left (suc n) [] ys h = absurd (omega arith)
  drop-append_left (suc n) (x ∷ xs) ys h = drop-append_left n xs ys (omega arith)

  drop-nil : (n : ℕ) → drop {A = A} n [] ≡ []
  drop-nil zero = refl
  drop-nil (suc n) = refl

  drop-drop : (n m k : ℕ) (xs : List A) → k ≡ m + n → drop n (drop m xs) ≡ drop k xs
  drop-drop n zero k xs e = let same : k ≡ n = omega arith in rw same refl
  drop-drop n (suc m) zero xs e = absurd (omega arith)
  drop-drop n (suc m) (suc k) [] e = drop-nil n
  drop-drop n (suc m) (suc k) (x ∷ xs) e = drop-drop n m k xs (omega arith)

  last_all : (n : ℕ) (xs : List A) → length xs ≤ n → last n xs ≡ xs
  last_all n xs h = let none_left : length xs - n ≡ 0 = omega arith in rw none_left refl

  last-last : (n m : ℕ) (xs : List A) → last n (last m xs) ≡ last (min n m) xs
  last-last n m xs =
      drop-drop (length (last m xs) - n) (length xs - m) (length xs - min n m) xs
        (omega (arith, length-drop (length xs - m) xs))

  reverse-take-append : (ys zs : List A) → reverse (take (length zs) (reverse (ys ++ zs))) ≡ zs
  reverse-take-append ys zs =
      rw (reverse-append ys zs, ← length-reverse zs, take-append_left (reverse zs) (reverse ys))
        (reverse-reverse zs)

  -- The read that goes backwards and turns round again is a read of the last elements.
  reverse-take-reverse :
      (n : ℕ) (xs : List A) → reverse (take (min n (length xs)) (reverse xs)) ≡ last n xs
  reverse-take-reverse n xs =
      let k = length xs - n in
      let enough : min n (length xs) ≡ length (drop k xs) = omega (arith, length-drop k xs) in
      rw enough (
        subst (λ t. reverse (take (length (drop k xs)) (reverse t)) ≡ drop k xs)
          (take-append-drop k xs) (reverse-take-append (take k xs) (drop k xs)))

  queue-last :
      (n : ℕ) (item : A) (xs : List A) → 1 ≤ n → queue n item (last n xs) ≡ last n (xs ++ item ∷ [])
  unfolding queue
  queue-last n item xs h = elim (Bool-cases (leb n (length (last n xs)))) [
    | inl e ↦
        let long : n ≤ length xs = omega (arith, leb→le _ _ e, length-drop (length xs - n) xs) in
        rw e (
          ap (λ t. t ++ item ∷ [])
            (drop-drop 1 (length xs - n) (length (xs ++ item ∷ []) - n) xs
              (omega (arith, length-append xs (item ∷ []))))
          ∙ sym (
              drop-append_left (length (xs ++ item ∷ []) - n) xs (item ∷ [])
                (omega (arith, length-append xs (item ∷ [])))))
    | inr e ↦
        let few : length xs < n = omega (arith, leb→gt _ _ e, length-drop (length xs - n) xs) in
        rw e (
          ap (λ t. t ++ item ∷ []) (last_all n xs (omega arith))
          ∙ sym (last_all n (xs ++ item ∷ []) (omega (arith, length-append xs (item ∷ [])))))
  ]

  -- A feed that shows the end of `xs`, as far as its capacity goes.
  pub record Shows (xs : List A) (f : EventFeed A) : Type 0 where
    pub items : f.items ≡ mutex (last f.capacity xs)
    pub positive : 1 ≤ f.capacity

  push_lem :
      (f : EventFeed A) (item : A) (g : List A)
      → f.items ≡ mutex g
      → push f item ≡ some (record f { items = mutex (queue f.capacity item g) })
  unfolding push
  push_lem f item g h = ground arith

  tail_lem :
      (f : EventFeed A) (limit : ℕ) (g : List A)
      → f.items ≡ mutex g
      → tail f limit ≡ some (last limit g)
  unfolding tail
  tail_lem f limit g h = ground (arith, reverse-take-reverse limit g)

  push_all-Shows :
      (xs ys : List A) (f : EventFeed A)
      → Shows xs f
      → (f' : EventFeed A) × (push_all f ys ≡ some f')
        × Shows (xs ++ ys) f'
        × (f'.capacity ≡ f.capacity)
  unfolding push_all
  push_all-Shows xs [] f h = (f, refl, rw append-nil h, refl)
  push_all-Shows xs (y ∷ ys) f h =
      let f1 : EventFeed A = record f { items = mutex (queue f.capacity y (last f.capacity xs)) } in
      let shown : Shows (xs ++ y ∷ []) f1 = record {
        items = ap mutex (queue-last f.capacity y xs h.positive);
        positive = h.positive;
      } in
      let (f', made, shows, cap) = push_all-Shows (xs ++ y ∷ []) ys f1 shown in
      (
        f',
        rw (push_lem f y (last f.capacity xs) h.items) made,
        subst (λ t. Shows t f') (append_assoc xs (y ∷ []) ys) shows,
        cap,
      )

  -- The tail of a feed is the end of all that was pushed since it was made, in the order of the
  -- pushes: as much as was asked for, and no more than the capacity, which is at least 1.
  pub tail-push_all :
      (capacity limit : ℕ) (xs : List A)
      → and_then (push_all (new capacity) xs) (λ f. tail f limit)
        ≡ some (last (min limit (max capacity 1)) xs)
  unfolding tail
  tail-push_all capacity limit xs =
      let (f, made, shown, cap) = push_all-Shows [] xs (new capacity) (
        unfold new in
        record {
          items = ap mutex (sym (drop-nil (0 - max capacity 1)));
          positive = omega arith;
        }) in
      rw
        (
          made,
          tail_lem f limit (last f.capacity xs) shown.items,
          last-last limit f.capacity xs,
          cap,
        )
        (unfold new in refl)
