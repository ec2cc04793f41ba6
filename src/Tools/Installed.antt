-- ===== src/Tools/Installed.antt =====
-- The registry that `install_system_tools` of crates/system-tools/src/lib.rs fills.
use saaios.Prelude.{
  ℕ, ◌%◌, ◌^◌, ◌≡◌, refl, String, true, Option, some, List, [], ◌∷◌, All, Option-cases, inl, inr,
  and_then,
}
use saaios.Prelude.Dict.{All-insert, lookup-All}
use saaios.Crates.{Crates}
use saaios.Protocol.{Result, ok, err}
use saaios.Registry.{ToolExecutor, ToolRegistry, ToolContext, ToolError, register, string_key, get}
use saaios.Registry.Keyed.{IsKeyed, register-IsKeyed}
use saaios.Tools.{
  ToolsMode, SystemBackend, output_of, killed, kill_request_run, system_tools, register_all,
  install_system_tools,
}

module _ (C : Crates) (S : Type 0) where
  -- Every tool of the registry has `Q`.
  abbrev pub Tools : (ToolExecutor C S → Type 0) → ToolRegistry C S → Type 0
  Tools Q reg = All (λ e. Q e.1) reg.tools

  pub register-Tools :
      (Q : ToolExecutor C S → Type 0) (tool : ToolExecutor C S) (reg : ToolRegistry C S)
      → Q tool
      → Tools Q reg
      → Tools Q (register C S reg tool)
  unfolding register
  register-Tools Q tool reg q k =
      All-insert string_key (λ e. Q e.1) tool.spec.name tool reg.tools q k

  register_all-Tools :
      (Q : ToolExecutor C S → Type 0) (tools : List (ToolExecutor C S)) (reg : ToolRegistry C S)
      → All Q tools
      → Tools Q reg
      → Tools Q (register_all C S tools reg)
  unfolding register_all
  register_all-Tools Q [] reg h k = k
  register_all-Tools Q (tool ∷ tools) reg (q, h) k =
      register_all-Tools Q tools (register C S reg tool) h (register-Tools Q tool reg q k)

  pub install-Tools :
      (Q : ToolExecutor C S → Type 0) (backend : ToolsMode → SystemBackend C S) (mode : ToolsMode)
      (reg : ToolRegistry C S)
      → All Q (system_tools C S (backend mode))
      → Tools Q reg
      → Tools Q (install_system_tools C S backend mode reg)
  unfolding install_system_tools
  install-Tools Q backend mode reg h k =
      register_all-Tools Q (system_tools C S (backend mode)) reg h k

  pub get-Tools :
      (Q : ToolExecutor C S → Type 0) (reg : ToolRegistry C S) (name : String)
      (tool : ToolExecutor C S)
      → Tools Q reg
      → get C S reg name ≡ some tool
      → Q tool
  unfolding get
  get-Tools Q reg name tool h e = lookup-All string_key (λ e. Q e.1) name tool reg.tools h e

  register_all-IsKeyed :
      (tools : List (ToolExecutor C S)) (reg : ToolRegistry C S)
      → IsKeyed C S reg
      → IsKeyed C S (register_all C S tools reg)
  unfolding register_all
  register_all-IsKeyed [] reg h = h
  register_all-IsKeyed (tool ∷ tools) reg h =
      register_all-IsKeyed tools (register C S reg tool) (register-IsKeyed C S reg tool h)

  pub install-IsKeyed :
      (backend : ToolsMode → SystemBackend C S) (mode : ToolsMode)
      → IsKeyed C S (install_system_tools C S backend mode (record { tools = [] }))
  unfolding install_system_tools
  install-IsKeyed backend mode =
      register_all-IsKeyed (system_tools C S (backend mode)) (record { tools = [] }) tt

  module _ (P : S → Type 0) where
    abbrev pub Safe : {A : Type 0} → (S → A × S) → Type 0
    Safe run = (s : S) → P s → P (run s).1

    abbrev pub RunsSafely : ToolExecutor C S → Type 0
    RunsSafely tool = (args : C.Value) (ctx : ToolContext C) → Safe (tool.run args ctx)

    -- `P` outlives every method of the backend but `kill`, and `kill` where it is used.
    pub record IsSafeBackend (b : SystemBackend C S) (K : Type 0) : Type 0 where
      pub metrics : Safe b.metrics
      pub processes : Safe b.processes
      pub network_status : Safe b.network_status
      pub disk : Safe b.disk
      pub temperature : Safe b.temperature
      pub journal : (lines : ℕ) (unit : Option String) → Safe (b.journal lines unit)
      pub kill : K → (pid : ℕ) (signal : String) → Safe (b.kill pid signal)

    output_of-P :
        {A : Type 0} (f : A → C.Value) (x : Result ToolError A × S)
        → P x.1
        → P (output_of C S f x).1
    unfolding output_of
    output_of-P f (ok a, s) p = p
    output_of-P f (err e, s) p = p

    pub kill_request-P :
        (b : SystemBackend C S)
        → ((pid : ℕ) (signal : String) → Safe (b.kill pid signal))
        → (args : C.Value) (ctx : ToolContext C) → Safe (kill_request_run C S b args ctx)
    unfolding kill_request_run
    kill_request-P b h args ctx s p = elim (Option-cases (and_then (C.get args "pid") C.as_u64)) [
      | inl e ↦ rw (e, killed) p
      | inr (pid, e) ↦ rw (e, killed) (output_of-P (λ v. v) _ (h (pid % 2 ^ 32) _ s p))
    ]

    -- A tool that asks for confirmation is the one that kills, and it is safe if killing is.
    pub record IsSystemTool (K : Type 0) (tool : ToolExecutor C S) : Type 0 where
      pub asks : tool.spec.requires_confirmation ≡ true → tool.spec.name ≡ "process.kill_request"
      pub safe : (tool.spec.requires_confirmation ≡ true → K) → RunsSafely tool

    pub system_tools-IsSystemTool :
        (K : Type 0) (b : SystemBackend C S)
        → IsSafeBackend b K
        → All (IsSystemTool K) (system_tools C S b)
    unfolding system_tools
    system_tools-IsSystemTool K b h = (
      record { asks = λ e. cc; safe = λ k args ctx s p. output_of-P _ _ (h.metrics s p) },
      (
        record { asks = λ e. cc; safe = λ k args ctx s p. output_of-P _ _ (h.processes s p) },
        (
          record {
            asks = λ e. cc;
            safe = λ k args ctx s p. output_of-P _ _ (h.network_status s p);
          },
          (
            record { asks = λ e. cc; safe = λ k args ctx s p. output_of-P _ _ (h.disk s p) },
            (
              record {
                asks = λ e. cc;
                safe = λ k args ctx s p. output_of-P _ _ (h.temperature s p);
              },
              (
                record {
                  asks = λ e. cc;
                  safe = λ k args ctx s p. output_of-P _ _ (h.journal _ _ s p);
                },
                (record { asks = λ e. refl; safe = λ k. kill_request-P b (h.kill (k refl)) }, tt),
              ),
            ),
          ),
        ),
      ),
    )
