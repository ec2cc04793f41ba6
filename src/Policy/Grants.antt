-- ===== src/Policy/Grants.antt =====
-- What a session grant changes in the decisions of crates/policy-engine/src/lib.rs.
use saaios.Prelude.{String, ◌≡◌, false, ◌||◌, List, arith, str_eq, eq_iff, one_of, if◌then◌else◌}
use saaios.Crates.{Crates}
use saaios.Protocol.{allow, deny, ask_user}
use saaios.Registry.{ToolSpec}
use saaios.Policy.{
  PolicyDecision, decision, PolicyEngine, insert_tool, grant_session, has_session_grant, decide,
  by_risk,
}

one_of-insert_tool :
    (n t : String) (set : List String) → one_of n (insert_tool t set) ≡ (str_eq n t || one_of n set)
unfolding insert_tool
one_of-insert_tool n t set = ground (arith, eq_iff n t)

-- A granted tool is found by its name, and a grant hides no earlier one.
has_session_grant-grant_session :
    (e : PolicyEngine) (t n : String)
    → e.session_allows.poisoned ≡ false
    → has_session_grant (grant_session e t) n ≡ (str_eq n t || has_session_grant e n)
unfolding has_session_grant grant_session
has_session_grant-grant_session e t n h =
    ground (arith, one_of-insert_tool n t e.session_allows.value)

-- What a grant makes of a decision about the granted tool.
abbrev pub granted : PolicyDecision → PolicyDecision
granted d = elim d.verdict [
  | deny ↦ d
  | allow ↦ decision allow "session grant"
  | ask_user ↦ decision allow "session grant"
]

module _ (C : Crates) where
  -- While the lock is sound, a grant turns every decision about its own tool that is no denial into
  -- an allowance, leaves denials of that tool as they were, and changes no decision about another.
  pub decide-grant_session :
      (e : PolicyEngine) (t : String) (spec : ToolSpec C) (args : C.Value)
      → e.session_allows.poisoned ≡ false
      → decide C (grant_session e t) spec args
        ≡ (if str_eq spec.name t then granted (decide C e spec args) else decide C e spec args)
  unfolding decide by_risk
  decide-grant_session e t spec args h =
      ground (arith, has_session_grant-grant_session e t spec.name)
