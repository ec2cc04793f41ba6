-- ===== src/Config/Precedence.antt =====
-- Which source of crates/config/src/lib.rs a setting comes from.
use saaios.Prelude.{
  ◌≤◌, String, Bool, true, false, ◌||◌, ◌≡◌, refl, ◌⊎◌, inl, inr, Option, none, some, List, [], ◌∷◌,
  if◌then◌else◌, unwrap_or, or_else, arith, ap,
}
use saaios.Protocol.{Result, ok, err}
use saaios.Config.{SaaiOsConfig, ResolvedSettings, CliOverrides}
use saaios.Config.Resolve.{
  Surroundings, discover_config_path, find_existing, candidates, is_mock_mode, switched,
  mode_enabled, with_env, provider_kind_of, mock_planner_of, telemetry_of, settings, file_config,
  resolved_from, resolve,
}

-- The mock is forced by the environment's mode or by either flag.
abbrev pub is_forced : Surroundings → CliOverrides → Bool
is_forced w o = o.mock || o.mock_planner || is_mock_mode w

-- Each setting by its sources. SAAIOS_MODE=mock, of the environment, goes before the command line.
pub record IsResolved (w : Surroundings) (o : CliOverrides) (cfg : SaaiOsConfig)
    (s : ResolvedSettings) : Type 0 where
  pub provider : s.provider_kind ≡ (
      if is_forced w o
      then "mock"
      else unwrap_or (or_else o.provider (w.var "SAAIOS_PROVIDER")) cfg.provider.kind)
  pub planner : s.mock_planner ≡ (cfg.runtime.mock_planner || o.mock_planner || is_mock_mode w)
  pub api_base : s.api_base ≡ or_else (w.var "SAAIOS_API_BASE") cfg.provider.api_base
  pub api_key : s.api_key ≡ or_else (w.var "SAAIOS_API_KEY") cfg.provider.api_key
  pub model : s.model ≡ or_else (w.var "SAAIOS_MODEL") cfg.provider.model
  pub local_base : s.local_base ≡ or_else (w.var "SAAIOS_LOCAL_BASE") cfg.provider.local_base
  pub local_model : s.local_model ≡ or_else (w.var "SAAIOS_LOCAL_MODEL") cfg.provider.local_model
  pub telemetry : s.telemetry_enabled ≡ (
      if o.no_telemetry
      then false
      else if o.telemetry
      then true
      else switched
          (w.var "SAAIOS_TELEMETRY")
          (mode_enabled cfg.telemetry.mode (cfg.runtime.real_linux || o.real_linux)))
  pub some_slot : 1 ≤ s.max_concurrent
  pub some_time : 1 ≤ s.request_timeout_secs
  pub some_round : 1 ≤ s.max_tool_iters
  pub some_interval : 1 ≤ s.telemetry_interval_secs

settings-IsResolved :
    (w : Surroundings) (o : CliOverrides) (path : Option String) (cfg : SaaiOsConfig)
    → IsResolved w o cfg (settings w o path (with_env w o cfg))
unfolding settings with_env provider_kind_of mock_planner_of telemetry_of
settings-IsResolved w o path cfg = record {
  provider = ground arith;
  planner = ground arith;
  api_base = ground arith;
  api_key = ground arith;
  model = ground arith;
  local_base = ground arith;
  local_model = ground arith;
  telemetry = ground arith;
  some_slot = omega arith;
  some_time = omega arith;
  some_round = omega arith;
  some_interval = omega arith;
}

-- An unreadable file and its error, or settings that keep the order of the sources.
abbrev pub Outcome : Surroundings → CliOverrides → Type 0
Outcome w o =
    ((e : String) × (file_config w (discover_config_path w o.config) ≡ err e)
      × (resolve w o ≡ err e))
    ⊎ ((cfg : SaaiOsConfig) × (s : ResolvedSettings) × (file_config w
            (discover_config_path w o.config)
          ≡ ok cfg)
        × (resolve w o ≡ ok s)
        × IsResolved w o cfg s)

Outcome-file_config :
    (w : Surroundings) (o : CliOverrides) (f : Result String SaaiOsConfig)
    → file_config w (discover_config_path w o.config) ≡ f
    → Outcome w o
unfolding resolve
Outcome-file_config w o (err e) h =
    inl (e, h, ap (resolved_from w o (discover_config_path w o.config)) h)
Outcome-file_config w o (ok cfg) h =
    let path = discover_config_path w o.config in
    inr (
      cfg,
      settings w o path (with_env w o cfg),
      h,
      ap (resolved_from w o path) h,
      settings-IsResolved w o path cfg,
    )

-- `resolve` fails exactly when a configuration file was found that cannot be loaded, and with that
-- error. Otherwise the provider is the mock if `--mock`, `--mock-planner` or SAAIOS_MODE=mock asks for
-- it, the last also against `--provider`; else the one of `--provider`, of SAAIOS_PROVIDER or of
-- the configuration, in this order. The planner is mocked if the configuration, `--mock-planner` or
-- SAAIOS_MODE=mock asks for it. The addresses, the key and the models come from the environment before
-- the configuration; telemetry is off by its flag, or else on by its flag, or else as the environment
-- says, and only then as the configuration does. The budgets and the interval are at least 1.
pub resolve_lem : (w : Surroundings) (o : CliOverrides) → Outcome w o
resolve_lem w o = Outcome-file_config w o (file_config w (discover_config_path w o.config)) refl

find_existing-exists :
    (w : Surroundings) (ps : List String) (p : String)
    → find_existing w ps ≡ some p
    → w.exists p ≡ true
find_existing-exists w [] p h = cc
find_existing-exists w (q ∷ qs) p h = ground (arith, find_existing-exists w qs p)

-- Without a path on the command line a configuration file is only taken if it exists; a path on the
-- command line is taken whether it exists or not.
pub discover_config_path_lem :
    (w : Surroundings) (explicit : Option String) (p : String)
    → discover_config_path w explicit ≡ some p
    → (explicit ≡ some p) ⊎ ((explicit ≡ none) × (w.exists p ≡ true))
unfolding discover_config_path
discover_config_path_lem w (some q) p h = inl h
discover_config_path_lem w none p h =
    inr (refl, ground (arith, find_existing-exists w candidates p))
