-- ===== src/Tools/Sys/Network.antt =====
-- `read_network_status` of crates/system-tools/src/lib.rs, with the addresses and the gateway.
use saaios.Prelude.{
  ℕ, ◌/◌, ◌%◌, ◌^◌, String, Bool, false, Option, none, some, List, [], ◌∷◌, map, if◌then◌else◌, ltb,
  str_eq, drop, length, and_then, any, ◌+++◌, get_elem?,
}
use saaios.Crates.{Crates}
use saaios.Text.{parse_u64, from_str_radix}
use saaios.Tools.World.{Machine, Look, pure, command, ◌>>=◌, if_ok}
use saaios.Tools.Proc.{lines, words}
use saaios.Tools.Processes.{read_as}
use saaios.Tools.Sys.{or_null, column, named_by, entries}

module _ (C : Crates) where
  open C use {Value, trim, show_nat, str, arr, obj, num, bool, get, as_str, from_utf8_lossy}

  -- The token behind the first "inet" of a line.
  unfoldable pub inet_of : List String → Option String
  inet_of [] = none
  inet_of (tok ∷ toks) = if str_eq tok "inet" then get_elem? toks 0 else inet_of toks

  abbrev addresses : List String → List String
  addresses [] = []
  addresses (line ∷ rest) = elim (inet_of (words C line)) [
    | none ↦ addresses rest
    | some addr ↦ addr ∷ addresses rest
  ]

  -- `to_le_bytes`, printed with dots.
  abbrev pub dotted : ℕ → String
  dotted n =
      show_nat (n % 256)
      +++ "."
      +++ show_nat (n / 256 % 256)
      +++ "."
      +++ show_nat (n / 256 / 256 % 256)
      +++ "."
      +++ show_nat (n / 256 / 256 / 256 % 256)

  -- The gateway of a row for the default route.
  abbrev gateway : List String → Option String
  gateway cols =
      if ltb (length cols) 3
      then none
      else if str_eq (column C cols 1) "00000000"
      then and_then (from_str_radix 16 (2 ^ 32) (column C cols 2)) (λ n. some (dotted n))
      else none

  unfoldable pub default_gateway : List String → Option String
  default_gateway [] = none
  default_gateway (line ∷ rest) = elim (gateway (words C line)) [
    | none ↦ default_gateway rest
    | some shown ↦ some shown
  ]

  abbrev is_up : Value → Bool
  is_up i = elim (and_then (get i "operstate") as_str) [ none ↦ false | some s ↦ str_eq s "up" ]

  module _ (m : Machine) where
    unfoldable pub read_iface_ipv4 : String → Look (List String)
    unfolding inet_of
    read_iface_ipv4 name = do
      out ← command m "ip" ("-4" ∷ "-o" ∷ "addr" ∷ "show" ∷ "dev" ∷ name ∷ [])
      if_ok out (λ out. pure (addresses (lines (from_utf8_lossy out.stdout)))) (λ e. pure [])

    unfoldable pub read_default_gateway : Look (Option String)
    unfolding default_gateway from_str_radix
    read_default_gateway =
        read_as C m "/proc/net/route" (λ content. default_gateway (drop 1 (lines content)))

    unfoldable pub interface : String → Look Value
    unfolding read_iface_ipv4
    interface name = do
      oper ← named_by C m ("/sys/class/net/" +++ name +++ "/operstate") "unknown"
      rx ←
          read_as C m ("/sys/class/net/" +++ name +++ "/statistics/rx_bytes")
            (λ s. parse_u64 (trim s))
      tx ←
          read_as C m ("/sys/class/net/" +++ name +++ "/statistics/tx_bytes")
            (λ s. parse_u64 (trim s))
      ipv4 ← read_iface_ipv4 name
      pure (
          obj (
            ("name", str name)
            ∷ ("operstate", str oper)
            ∷ ("ipv4", arr (map str ipv4))
            ∷ ("rx_bytes", or_null C num rx)
            ∷ ("tx_bytes", or_null C num tx)
            ∷ []))

    unfoldable pub interfaces : List String → Look (List Value)
    unfolding interface
    interfaces [] = pure []
    interfaces (name ∷ names) = do i ← interface name; rest ← interfaces names; pure (i ∷ rest)

    unfoldable pub read_network_status : Look Value
    unfolding entries interfaces read_default_gateway
    read_network_status = do
      names ← entries C m "/sys/class/net"
      found ← interfaces names
      default_route ← read_default_gateway
      pure (
          obj (
            ("online", bool (any is_up found))
            ∷ ("source", str "linux")
            ∷ ("interfaces", arr found)
            ∷ ("default_route", or_null C str default_route)
            ∷ []))
