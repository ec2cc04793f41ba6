-- ===== src/Tests/Chat.antt =====
-- The histories of crates/ai-runtime/src/conversation.rs and the feed of
-- services/saaios-runtime/src/event_feed.rs on short lists.
use saaios.Prelude.{ℕ, String, ◌≡◌, refl, some, List, [], ◌∷◌, and_then}
use saaios.Conversation
use saaios.Conversation.{ChatMessage, trim_messages, ConversationStore, save, append}
use saaios.Conversation.Trim.{IsTrimmed, trim_messages-IsTrimmed}
use saaios.Conversation.Sessions.{saves, appends, run, IsBounded, run-IsBounded}
use saaios.Feed
use saaios.Feed.{tail, push_all}
use saaios.Feed.Window.{last, tail-push_all}
use saaios.Registry.{string_key}

abbrev said : String → ChatMessage
said content = record { role = "user"; content = content }

abbrev talk : List ChatMessage
talk = said "a" ∷ said "b" ∷ said "tool_result:x 1" ∷ said "c" ∷ said "d" ∷ []

trims : trim_messages talk 3 ≡ said "c" ∷ said "d" ∷ []
unfolding trim_messages Conversation.skip_orphans Conversation.is_orphan
trims = refl

trim_messages-IsTrimmed_example : IsTrimmed talk 3 (trim_messages talk 3)
trim_messages-IsTrimmed_example = trim_messages-IsTrimmed talk 3

abbrev store : ConversationStore string_key
store = Conversation.new string_key 2

run-IsBounded_example :
    IsBounded string_key (run string_key store (saves "s" talk ∷ appends "s" (said "e") ∷ []))
run-IsBounded_example = run-IsBounded string_key 2 (saves "s" talk ∷ appends "s" (said "e") ∷ [])

tail-push_all_example :
    and_then (push_all {A = ℕ} (Feed.new 2) (1 ∷ 2 ∷ 3 ∷ [])) (λ f. tail f 5)
    ≡ some (last {A = ℕ} 2 (1 ∷ 2 ∷ 3 ∷ []))
tail-push_all_example = tail-push_all 2 5 (1 ∷ 2 ∷ 3 ∷ [])
