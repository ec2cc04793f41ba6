-- ===== src/Conversation/Sessions.antt =====
-- The sessions of crates/ai-runtime/src/conversation.rs: what each operation does to each session,
-- and the bound on every history.
use saaios.Prelude.{
  ℕ, ◌≤◌, ◌≡◌, false, List, [], ◌∷◌, ◌++◌, arith, length, All, if◌then◌else◌, unwrap_or, Mutex,
  update, Bool-cases, inl, inr,
}
use saaios.Prelude.Dict
use saaios.Prelude.Dict.{Key, lookup-insert, lookup-remove, All-insert, All-remove, lookup-All}
use saaios.Conversation.{
  ChatMessage, trim_messages, ConversationStore, new, get, save, append, reset, clear_all, stored,
  appended,
}
use saaios.Conversation.Trim.{trim_messages-IsTrimmed}

module _ {K : Type 0} (E : Key K) where
  lookup-stored :
      (id j : K) (kept : List ChatMessage) (g : List (K × List ChatMessage))
      → unwrap_or (Dict.lookup E j (stored E id kept g)) []
        ≡ (if E.same id j then kept else unwrap_or (Dict.lookup E j g) [])
  unfolding stored
  lookup-stored id j [] g = ground (arith, lookup-remove E id j g)
  lookup-stored id j (m ∷ ms) g = ground (arith, lookup-insert E id j (m ∷ ms) g)

  -- While the lock is sound, a saved history is read back trimmed, and the other sessions read what
  -- they did before.
  pub get-save :
      (s : ConversationStore E) (id j : K) (messages : List ChatMessage)
      → s.inner.poisoned ≡ false
      → get E (save E s id messages) j
        ≡ (if E.same id j then trim_messages messages s.max_messages else get E s j)
  unfolding get save
  get-save s id j messages h =
      ground (arith, lookup-stored id j (trim_messages messages s.max_messages) s.inner.value)

  -- While the lock is sound, an appended message stands at the end of its session's history, which
  -- is then trimmed; the other sessions read what they did before.
  pub get-append :
      (s : ConversationStore E) (id j : K) (message : ChatMessage)
      → s.inner.poisoned ≡ false
      → get E (append E s id message) j ≡ (
          if E.same id j
          then trim_messages (get E s id ++ message ∷ []) s.max_messages
          else get E s j)
  unfolding get append
  get-append s id j message h = ground (
    arith,
    lookup-insert E id j
        (trim_messages (unwrap_or (Dict.lookup E id s.inner.value) [] ++ message ∷ [])
          s.max_messages)
        s.inner.value,
  )

  -- Every stored history fits the store's limit, and the limit leaves room for one exchange.
  pub record IsBounded (s : ConversationStore E) : Type 0 where
    pub fits : All (λ e. length e.1 ≤ s.max_messages) s.inner.value
    pub room : 4 ≤ s.max_messages

  pub data Op : Type 0 where
    saves : K → List ChatMessage → Op
    appends : K → ChatMessage → Op
    resets : K → Op
    clears : Op

  unfoldable pub step : ConversationStore E → Op → ConversationStore E
  step s (saves id messages) = save E s id messages
  step s (appends id message) = append E s id message
  step s (resets id) = (reset E s id).0
  step s clears = clear_all E s

  unfoldable pub run : ConversationStore E → List Op → ConversationStore E
  unfolding step
  run s [] = s
  run s (op ∷ ops) = run (step s op) ops

  update-fits :
      (n : ℕ) (m : Mutex (List (K × List ChatMessage)))
      (f : List (K × List ChatMessage) → List (K × List ChatMessage))
      → All (λ e. length e.1 ≤ n) m.value
      → All (λ e. length e.1 ≤ n) (f m.value)
      → All (λ e. length e.1 ≤ n) (update m f).value
  update-fits n m f h k = elim (Bool-cases m.poisoned) [ inl e ↦ rw e h | inr e ↦ rw e k ]

  stored-fits :
      (n : ℕ) (id : K) (kept : List ChatMessage) (g : List (K × List ChatMessage))
      → length kept ≤ n
      → All (λ e. length e.1 ≤ n) g
      → All (λ e. length e.1 ≤ n) (stored E id kept g)
  unfolding stored
  stored-fits n id [] g p h = All-remove E (λ e. length e.1 ≤ n) id g h
  stored-fits n id (m ∷ ms) g p h = All-insert E (λ e. length e.1 ≤ n) id (m ∷ ms) g p h

  pub step-IsBounded : (s : ConversationStore E) (op : Op) → IsBounded s → IsBounded (step s op)
  unfolding step save append reset clear_all
  step-IsBounded s (saves id messages) b = record {
    fits =
        update-fits s.max_messages s.inner (stored E id (trim_messages messages s.max_messages))
          b.fits
          (stored-fits s.max_messages id _ s.inner.value
            (trim_messages-IsTrimmed messages s.max_messages).short b.fits);
    room = b.room;
  }
  step-IsBounded s (appends id message) b = record {
    fits = update-fits s.max_messages s.inner (appended E id message s.max_messages) b.fits (
        All-insert E (λ e. length e.1 ≤ s.max_messages) id _ s.inner.value
          (trim_messages-IsTrimmed (unwrap_or (Dict.lookup E id s.inner.value) [] ++ message ∷ [])
            s.max_messages).short
          b.fits);
    room = b.room;
  }
  step-IsBounded s (resets id) b = record {
    fits =
        update-fits s.max_messages s.inner (Dict.remove E id) b.fits
          (All-remove E (λ e. length e.1 ≤ s.max_messages) id s.inner.value b.fits);
    room = b.room;
  }
  step-IsBounded s clears b = record {
    fits = update-fits s.max_messages s.inner (λ _. []) b.fits (tt {0});
    room = b.room;
  }

  run-IsBounded_from :
      (s : ConversationStore E) (ops : List Op) → IsBounded s → IsBounded (run s ops)
  unfolding run
  run-IsBounded_from s [] b = b
  run-IsBounded_from s (op ∷ ops) b = run-IsBounded_from (step s op) ops (step-IsBounded s op b)

  -- After any operations on a new store, every history fits the store's limit, which is at
  -- least 4.
  pub run-IsBounded : (max_messages : ℕ) (ops : List Op) → IsBounded (run (new E max_messages) ops)
  run-IsBounded max_messages ops =
      run-IsBounded_from (new E max_messages) ops
        (unfold new in record { fits = tt; room = omega arith })
