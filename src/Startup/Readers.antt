-- ===== src/Startup/Readers.antt =====
-- What a request of the user starts, under the tools that services/saaios-runtime/src/main.rs registers.
use saaios.Prelude.{◌≡◌, sym, subst, String, true, false, Option, some, List, All, one_of, inl, inr}
use saaios.Crates.{Crates}
use saaios.Protocol.{allow}
use saaios.Config.{ResolvedSettings}
use saaios.Policy.{has_session_grant}
use saaios.Policy.Guards.{allow_iff}
use saaios.Registry.{get}
use saaios.Registry.Keyed.{IsKeyed}
use saaios.Runtime.{Services, Rt}
use saaios.Runtime.MockPlanner.{diagnose_slow_with_mock_planner}
use saaios.Runtime.Requests.{handle_user_text_in_session}
use saaios.Runtime.Safety.{Endures, handle_user_text-IsGuarded}
use saaios.Runtime.Unasked.{diagnose_slow-IsGuarded}
use saaios.Tools.Commands.{readers}
use saaios.Tools.Installed.{get-Tools}
use saaios.Startup.{Host, Outside, registry_of}
use saaios.Startup.Registered.{registry_of-IsTool, registry_of-IsKeyed}

-- A program that only shows what there is.
abbrev pub IsReader : String × List String → Type 0
IsReader c = one_of c.0 readers ≡ true

module _ (C : Crates) (out : Outside C) where
  abbrev pub OnlyReaders : Host C → Type 0
  OnlyReaders h = All IsReader h.system.commands

  -- While killing has not been granted, a run that the policy allows starts readers only.
  lasts-IsReader :
      (r : Rt C (Host C)) (settings : ResolvedSettings)
      → r.tools ≡ registry_of C out settings
      → has_session_grant r.policy "process.kill_request" ≡ false
      → Endures C (Host C) OnlyReaders r.tools r.policy (λ v. v ≡ allow)
  lasts-IsReader r settings t g name tool args ctx s e v q =
      let found : get C (Host C) (registry_of C out settings) name ≡ some tool =
        subst (λ reg. get C (Host C) reg name ≡ some tool) t e in
      let known =
        get-Tools C (Host C) _ (registry_of C out settings) name tool
          (registry_of-IsTool C out IsReader (λ program a h. h) ⊥ (λ k. absurd k) settings) found in
      known.safe
        (λ asks. elim ((allow_iff C r.policy tool.spec args).0 v).granted_or_harmless [
          | inl granted ↦
              let killing =
                subst (λ n. has_session_grant r.policy n ≡ true) (known.asks asks) granted in
              cc
          | inr (silent, risk) ↦ cc
        ])
        args ctx s q

  -- A request of the user sends no signal: with the tools that the service registers for any settings,
  -- with or without those of the memory, and as long as killing has not been granted for the session, a
  -- whole request, whatever the model answers, and also when it fails, starts none but the four
  -- programs that only show what there is.
  pub handle_user_text-IsReader :
      (services : Services C (Host C)) (r : Rt C (Host C)) (settings : ResolvedSettings)
      (text : String) (session_id : Option C.Uuid)
      → r.tools ≡ registry_of C out settings
      → has_session_grant r.policy "process.kill_request" ≡ false
      → OnlyReaders r.machine
      → OnlyReaders (handle_user_text_in_session C (Host C) services text session_id r).1.machine
  handle_user_text-IsReader services r settings text session_id t g p =
      (handle_user_text-IsGuarded C (Host C) services OnlyReaders r text session_id
        (subst (IsKeyed C (Host C)) (sym t) (registry_of-IsKeyed C out settings))
        (lasts-IsReader r settings t g) p).machine_ok

  -- Nor does the diagnosis that asks no model: with the tools that the service registers, and as long
  -- as killing has not been granted for the session, it starts none but these programs, also when it
  -- fails.
  diagnose_slow-IsReader :
      (services : Services C (Host C)) (r : Rt C (Host C)) (settings : ResolvedSettings)
      → r.tools ≡ registry_of C out settings
      → has_session_grant r.policy "process.kill_request" ≡ false
      → OnlyReaders r.machine
      → OnlyReaders (diagnose_slow_with_mock_planner C (Host C) services r).1.machine
  diagnose_slow-IsReader services r settings t g p =
      (diagnose_slow-IsGuarded C (Host C) services OnlyReaders r
        (subst (IsKeyed C (Host C)) (sym t) (registry_of-IsKeyed C out settings))
        (lasts-IsReader r settings t g) p).machine_ok
