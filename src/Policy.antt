-- ===== src/Policy.antt =====
-- crates/policy-engine/src/lib.rs: the engine that allows a tool call, denies it, or asks the user.
pub mod Grants
pub mod Guards
use Prim.Native.String.{compare}
use Prim.Native.Nat.{lt, eq, gt}
use saaios.Prelude.{
  ℕ, String, Bool, true, false, ◌&&◌, ◌||◌, Option, none, some, List, [], ◌∷◌, if◌then◌else◌, leb,
  str_eq, one_of, contains, ◌+++◌, and_then, unwrap_or, Mutex, mutex, lock, update, arith, ◌≡◌,
}
use saaios.Crates.{Crates}
use saaios.Protocol.{PolicyVerdict, allow, deny, ask_user}
use saaios.Registry.{RiskLevel, low, medium, high, critical, ToolSpec}

pub record PolicyDecision : Type 0 where
  pub verdict : PolicyVerdict
  pub reason : String

abbrev pub decision : PolicyVerdict → String → PolicyDecision
decision v r = record { verdict = v; reason = r }

-- The tools that the user has granted for the session: a `HashSet` behind a mutex.
pub record PolicyEngine : Type 0 where
  pub session_allows : Mutex (List String)

abbrev pub new : PolicyEngine
new = record { session_allows = mutex [] }

unfoldable pub hard_deny : String → Bool
hard_deny tool = one_of tool ("storage.format" ∷ "system.poweroff" ∷ "process.kill_init" ∷ [])

-- `HashSet::insert`
unfoldable pub insert_tool : String → List String → List String
insert_tool tool set = if one_of tool set then set else tool ∷ set

unfoldable pub grant_session : PolicyEngine → String → PolicyEngine
unfolding insert_tool
grant_session e tool = record { session_allows = update e.session_allows (insert_tool tool) }

unfoldable pub has_session_grant : PolicyEngine → String → Bool
has_session_grant e tool = elim (lock e.session_allows) [
  | none ↦ false
  | some set ↦ one_of tool set
]

-- `Vec::sort` on texts.
unfoldable pub insert_sorted : String → List String → List String
insert_sorted t [] = t ∷ []
insert_sorted t (u ∷ us) =
    let rest = insert_sorted t us in
    elim (compare t u) [ lt ↦ t ∷ (u ∷ us) | eq ↦ t ∷ (u ∷ us) | gt ↦ u ∷ rest ]

unfoldable pub sorted : List String → List String
sorted [] = []
sorted (t ∷ ts) = insert_sorted t (sorted ts)

unfoldable pub session_grants : PolicyEngine → List String
session_grants e = elim (lock e.session_allows) [ none ↦ [] | some set ↦ sorted set ]

unfoldable pub clear_session_grants : PolicyEngine → PolicyEngine
clear_session_grants e = record { session_allows = update e.session_allows (λ _. []) }

-- `matches!(name, "process.kill_request" | "system.reboot_request")`
abbrev pub is_dangerous : String → Bool
is_dangerous name = one_of name ("process.kill_request" ∷ "system.reboot_request" ∷ [])

-- The last match of `decide`: what the tool's own declaration asks for.
unfoldable pub by_risk : RiskLevel → Bool → String → PolicyDecision
by_risk _ true name = decision ask_user ("tool `" +++ name +++ "` requires confirmation")
by_risk high false name = decision ask_user ("tool `" +++ name +++ "` requires confirmation")
by_risk critical false name = decision ask_user ("tool `" +++ name +++ "` requires confirmation")
by_risk low false name = decision allow "read-only / low-risk tool"
by_risk medium false name = decision allow "read-only / low-risk tool"

module _ (C : Crates) where
  open C use {Value, get, as_u64, to_text, to_lowercase}

  unfoldable pub looks_like_injection : Value → Bool
  looks_like_injection args =
      let s = to_lowercase (to_text args) in
      contains s "ignore policies"
      || contains s "kill -9 1"
      || contains s "rm -rf"
      || contains s "drop privileges"

  abbrev pub target_pid : Value → ℕ
  target_pid args = unwrap_or (and_then (get args "pid") as_u64) 0

  unfoldable pub decide : PolicyEngine → ToolSpec C → Value → PolicyDecision
  decide e spec args =
      if hard_deny spec.name
      then decision deny ("tool `" +++ spec.name +++ "` is denied by default policy")
      else if looks_like_injection args && is_dangerous spec.name
      then decision deny "rejected suspicious arguments"
      else if str_eq spec.name "process.kill_request" && leb (target_pid args) 1
      then decision deny "refusing process.kill_request for pid <= 1"
      else if has_session_grant e spec.name
      then decision allow "session grant"
      else by_risk spec.risk spec.requires_confirmation spec.name

  unfoldable pub decide_named : String → Option (ToolSpec C) → Value → PolicyDecision
  decide_named tool spec args =
      if hard_deny tool
      then decision deny ("tool `" +++ tool +++ "` is denied by default policy")
      else if looks_like_injection args && is_dangerous tool
      then decision deny "rejected suspicious arguments"
      else if str_eq tool "process.kill_request" && leb (target_pid args) 1
      then decision deny "refusing process.kill_request for pid <= 1"
      else elim spec [
        | some spec ↦ decide new spec args
        | none ↦ decision deny ("unknown tool `" +++ tool +++ "`")
      ]
