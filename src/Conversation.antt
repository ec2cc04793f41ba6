-- ===== src/Conversation.antt =====
-- crates/ai-runtime/src/conversation.rs: the chat history of each session, in the process only.
pub mod Trim
pub mod Sessions
use saaios.Prelude.{
  ℕ, ◌-◌, String, Bool, true, false, ◌&&◌, Option, none, some, List, [], ◌∷◌, ◌++◌, if◌then◌else◌,
  leb, max, str_eq, starts_with, length, drop, unwrap_or, is_some, is_empty, Mutex, mutex, lock,
  update,
}
use saaios.Prelude.Dict
use saaios.Prelude.Dict.{Key}

pub record ChatMessage : Type 0 where
  pub role : String
  pub content : String

unfoldable pub is_orphan : ChatMessage → Bool
is_orphan m = str_eq m.role "user" && starts_with m.content "tool_result:"

-- The `while` of `trim_messages`: it removes the first message as long as that is a tool result.
unfoldable pub skip_orphans : List ChatMessage → List ChatMessage
skip_orphans [] = []
skip_orphans (m ∷ ms) = let rest = skip_orphans ms in if is_orphan m then rest else m ∷ ms

unfoldable pub trim_messages : List ChatMessage → ℕ → List ChatMessage
trim_messages messages limit =
    if leb (length messages) limit
    then messages
    else skip_orphans (drop (length messages - limit) messages)

module _ {K : Type 0} (E : Key K) where
  pub record ConversationStore : Type 0 where
    pub inner : Mutex (List (K × List ChatMessage))
    pub max_messages : ℕ

  unfoldable pub new : ℕ → ConversationStore
  new max_messages = record { inner = mutex []; max_messages = max max_messages 4 }

  unfoldable pub session_count : ConversationStore → ℕ
  session_count s = elim (lock s.inner) [ none ↦ 0 | some g ↦ length g ]

  unfoldable pub get : ConversationStore → K → List ChatMessage
  get s id = elim (lock s.inner) [ none ↦ [] | some g ↦ unwrap_or (Dict.lookup E id g) [] ]

  stored : K → List ChatMessage → List (K × List ChatMessage) → List (K × List ChatMessage)
  stored id trimmed g = if is_empty trimmed then Dict.remove E id g else Dict.insert E id trimmed g

  unfoldable pub save : ConversationStore → K → List ChatMessage → ConversationStore
  unfolding stored
  save s id messages = record s {
    inner = update s.inner (stored id (trim_messages messages s.max_messages));
  }

  appended : K → ChatMessage → ℕ → List (K × List ChatMessage) → List (K × List ChatMessage)
  appended id message limit g =
      Dict.insert E id (trim_messages (unwrap_or (Dict.lookup E id g) [] ++ message ∷ []) limit) g

  unfoldable pub append : ConversationStore → K → ChatMessage → ConversationStore
  unfolding appended
  append s id message = record s { inner = update s.inner (appended id message s.max_messages) }

  -- The store after the reset, and whether the session was there.
  unfoldable pub reset : ConversationStore → K → ConversationStore × Bool
  reset s id = (
    record s { inner = update s.inner (Dict.remove E id) },
    elim (lock s.inner) [ none ↦ false | some g ↦ is_some (Dict.lookup E id g) ],
  )

  unfoldable pub clear_all : ConversationStore → ConversationStore
  clear_all s = record s { inner = update s.inner (λ _. []) }
