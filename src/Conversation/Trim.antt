-- ===== src/Conversation/Trim.antt =====
-- What `trim_messages` keeps of a history.
use saaios.Prelude.{
  ℕ, ◌≤◌, ◌<◌, ◌-◌, ◌≡◌, refl, ◌⊎◌, inl, inr, true, false, List, [], ◌∷◌, ◌++◌, arith, length,
  length-append, length-drop, drop, take, take-append-drop, leb, Bool-cases, ap, ◌∙◌, All,
}
use saaios.Conversation.{ChatMessage, is_orphan, skip_orphans, trim_messages}

-- No tool result stands first.
abbrev pub StartsClean : List ChatMessage → Type 0
StartsClean [] = Unit
StartsClean (m ∷ ms) = is_orphan m ≡ false

skip_orphans-StartsClean : (ms : List ChatMessage) → StartsClean (skip_orphans ms)
unfolding skip_orphans
skip_orphans-StartsClean [] = tt
skip_orphans-StartsClean (m ∷ ms) = elim (Bool-cases (is_orphan m)) [
  | inl e ↦ rw e (skip_orphans-StartsClean ms)
  | inr e ↦ rw e e
]

skip_orphans-split :
    (ms : List ChatMessage)
    → (dropped : List ChatMessage) × (dropped ++ skip_orphans ms ≡ ms)
      × All (λ m. is_orphan m ≡ true) dropped
unfolding skip_orphans
skip_orphans-split [] = ([], refl, tt)
skip_orphans-split (m ∷ ms) = elim (Bool-cases (is_orphan m)) [
  | inl e ↦ let (d, p, q) = skip_orphans-split ms in rw e (m ∷ d, ap (◌∷◌ m) p, (e, q))
  | inr e ↦ rw e ([], refl, tt)
]

-- What a trimmed history is: short enough, an end of the history it was made from, the whole of it
-- if that was short enough, and otherwise clean at its start, with only tool results lost beyond
-- the oldest messages that had to go.
pub record IsTrimmed (messages : List ChatMessage) (limit : ℕ) (kept : List ChatMessage)
    : Type 0 where
  pub short : length kept ≤ limit
  pub oldest : List ChatMessage
  pub orphans : List ChatMessage
  pub split : oldest ++ (orphans ++ kept) ≡ messages
  pub only_orphans : All (λ m. is_orphan m ≡ true) orphans
  pub surplus : length oldest ≡ length messages - limit
  pub whole_or_clean : (kept ≡ messages) ⊎ ((limit < length messages) × StartsClean kept)

-- Whatever the messages and the limit, `trim_messages` returns an end of the history that is no longer
-- than the limit: all of it if it fits, and otherwise what is left when the oldest messages that are too
-- many are dropped, and with them the tool results that would then stand first.
pub trim_messages-IsTrimmed :
    (messages : List ChatMessage) (limit : ℕ)
    → IsTrimmed messages limit (trim_messages messages limit)
unfolding trim_messages
trim_messages-IsTrimmed messages limit = elim (Bool-cases (leb (length messages) limit)) [
  | inl e ↦ rw e (record {
    short = ground arith;
    oldest = [];
    orphans = [];
    split = refl;
    only_orphans = tt;
    surplus = ground arith;
    whole_or_clean = inl refl;
  })
  | inr e ↦
      let n = length messages - limit in
      let (d, p, q) = skip_orphans-split (drop n messages) in
      rw e (record {
        short = omega (
          arith,
          length-drop n messages,
          ap length p,
          length-append d (skip_orphans (drop n messages)),
        );
        oldest = take n messages;
        orphans = d;
        split = ap (λ t. take n messages ++ t) p ∙ take-append-drop n messages;
        only_orphans = q;
        surplus = omega (
          arith,
          length-drop n messages,
          ap length (take-append-drop n messages),
          length-append (take n messages) (drop n messages),
        );
        whole_or_clean = inr (ground arith, skip_orphans-StartsClean (drop n messages));
      })
]
