-- ===== src/Registry/Keyed.antt =====
-- Registries of crates/tool-registry/src/lib.rs in which tools stand under their own names.
use saaios.Prelude.{String, ◌≡◌, refl, some, All, str_eq, if◌then◌else◌}
use saaios.Prelude.Dict.{lookup-insert, All-insert, lookup-All}
use saaios.Crates.{Crates}
use saaios.Registry.{ToolExecutor, ToolRegistry, string_key, register, get}

module _ (C : Crates) (S : Type 0) where
  abbrev pub IsKeyed : ToolRegistry C S → Type 0
  IsKeyed reg = All (λ e. e.1.spec.name ≡ e.0) reg.tools

  -- Registering a tool keeps every tool under its specification's name.
  pub register-IsKeyed :
      (reg : ToolRegistry C S) (tool : ToolExecutor C S)
      → IsKeyed reg
      → IsKeyed (register C S reg tool)
  unfolding register
  register-IsKeyed reg tool h =
      All-insert string_key (λ e. e.1.spec.name ≡ e.0) tool.spec.name tool reg.tools refl h

  -- In such a registry the tool found under a name is the tool of that name.
  pub get-IsKeyed :
      (reg : ToolRegistry C S) (name : String) (tool : ToolExecutor C S)
      → IsKeyed reg
      → get C S reg name ≡ some tool
      → tool.spec.name ≡ name
  unfolding get
  get-IsKeyed reg name tool h e =
      lookup-All string_key (λ e. e.1.spec.name ≡ e.0) name tool reg.tools h e

  -- After a registration its name finds the new tool, and every other name what it found before.
  pub get-register :
      (reg : ToolRegistry C S) (tool : ToolExecutor C S) (name : String)
      → get C S (register C S reg tool) name
        ≡ (if str_eq tool.spec.name name then some tool else get C S reg name)
  unfolding get register
  get-register reg tool name = lookup-insert string_key tool.spec.name name tool reg.tools
