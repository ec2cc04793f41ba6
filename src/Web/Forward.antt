-- ===== src/Web/Forward.antt =====
-- `forward_diagnose_stream` of crates/console-web/src/main.rs: the frames of a diagnosis, line by
-- line. The browser listens to the end.
use saaios.Prelude.{
  ℕ, zero, suc, String, Bool, true, false, Option, none, some, List, [], ◌∷◌, ◌++◌, if◌then◌else◌,
  ◌==◌, str_eq, ◌+++◌, and_then, or_else, length, is_empty,
}
use saaios.Crates.{Crates}
use saaios.Protocol.{Result, ok, err}

-- `position(|b| *b == b'\n')` and `drain(..=pos)`: the first line with its line feed, and the rest.
unfoldable pub take_line : List ℕ → Option (List ℕ × List ℕ)
take_line [] = none
take_line (b ∷ bytes) =
    let rest = and_then (take_line bytes) (λ (l, r). some (b ∷ l, r)) in
    if b == b'\n' then some (b ∷ [], bytes) else rest

module _ (C : Crates) where
  open C use {Uuid, get, as_str, parse, trim, from_utf8_lossy}

  -- What has been passed on, and the session that the console keeps.
  pub record Passed : Type 0 where
    pub saw_frame : Bool
    pub session_slot : Option Uuid
    pub lines : List String

  -- ... and the bytes behind the last line feed.
  pub record Buffer : Type 0 where
    pub buf : List ℕ
    pub passed : Passed

  module _ (parse_uuid : String → Option Uuid) where
    -- The session that a last frame names.
    unfoldable pub session_of : String → Option Uuid
    session_of line = and_then (parse line) λ frame.
        and_then (and_then (get frame "type") as_str) λ kind.
          if str_eq kind "done"
          then and_then (and_then (get frame "session_id") as_str) parse_uuid
          else none

    framed : String → Passed → Passed
    framed line p = record {
      saw_frame = true;
      session_slot = or_else (session_of line) p.session_slot;
      lines = p.lines ++ (line +++ "\n") ∷ [];
    }

    unfoldable pub on_line : List ℕ → Passed → Passed
    unfolding framed session_of
    on_line bytes p =
        let line = trim (from_utf8_lossy bytes) in if str_eq line "" then p else framed line p

    -- `while let Some(pos)`, on fuel.
    unfoldable pub drain : ℕ → Buffer → Buffer
    drain zero r = r
    drain (suc n) r = elim (take_line r.buf) [
      | none ↦ r
      | some (line, rest) ↦ drain n (record { buf = rest; passed = on_line line r.passed })
    ]

    -- A read: the fuel is the number of bytes in the buffer, and one more.
    unfoldable pub push_bytes : Buffer → List ℕ → Buffer
    unfolding drain
    push_bytes r bytes =
        let buf = r.buf ++ bytes in drain (suc (length buf)) (record r { buf = buf })

    -- What is left behind the last line feed; a session that it names is not kept.
    unfoldable pub flush : Buffer → Passed
    flush r =
        let line = trim (from_utf8_lossy r.buf) in
        if is_empty r.buf
        then r.passed
        else if str_eq line ""
        then r.passed
        else record r.passed { saw_frame = true; lines = r.passed.lines ++ (line +++ "\n") ∷ [] }

    closed : Passed → Result String (Unit {0}) × Passed
    closed p = (if p.saw_frame then ok tt else err "empty stream from runtime", p)

    -- The reads up to the end of the stream.
    unfoldable pub read_loop :
        Buffer → List (Result String (List ℕ)) → Result String (Unit {0}) × Passed
    unfolding flush push_bytes closed
    read_loop r [] = closed (flush r)
    read_loop r (err e ∷ chunks) = (err e, r.passed)
    read_loop r (ok bytes ∷ chunks) = read_loop (push_bytes r bytes) chunks

    unfoldable pub forward :
        Option Uuid → List (Result String (List ℕ)) → Result String (Unit {0}) × Passed
    unfolding read_loop
    forward slot chunks =
        read_loop
          (record {
            buf = [];
            passed = record { saw_frame = false; session_slot = slot; lines = [] };
          })
          chunks
