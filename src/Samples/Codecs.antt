-- ===== src/Samples/Codecs.antt =====
-- Records of the audit trail and of the memory of the tiny crates as short lines of text.
use Prim.Native.Char.{Char, code}
use Prim.Native.String.{◌∷◌}
use saaios.Prelude.{
  ap, sym, Bool-cases, inl, inr, String, Bool, true, false, not, ◌&&◌, ◌≡◌, refl, subst, Option,
  none, some, List, [], is_empty, ◌==◌, str_eq, if◌then◌else◌, arith, and_then, eq_iff,
}
use saaios.Protocol.{
  MessageKind, user_request, assistant_message, tool_call, tool_result, policy_decision,
  confirmation_request, confirmation_response, event, error, diagnose_result,
}
use saaios.Jsonl.{Codec}
use saaios.Jsonl.Text.{NoBreak}
use saaios.Jsonl.Records.{IsCodec}
use saaios.Audit.{AuditRecord}
use saaios.Memory.{MemoryFact}
use saaios.Samples.Tiny.{tiny}

abbrev bit : Bool → Char
bit true = "1"
bit false = "0"

abbrev bit_of : Char → Option Bool
bit_of c = if code c == b'0' then some false else if code c == b'1' then some true else none

abbrev cause : Option Bool → Char
cause none = "n"
cause (some b) = bit b

abbrev cause_of : Char → Option (Option Bool)
cause_of c = if code c == b'n' then some none else and_then (bit_of c) (λ b. some (some b))

bit_back : (b : Bool) → bit_of (bit b) ≡ some b
bit_back true = refl
bit_back false = refl

bit_line : (b : Bool) → NoBreak (bit b ∷ String.[])
bit_line true = (ground arith, ground arith, tt)
bit_line false = (ground arith, ground arith, tt)

cause_back : (o : Option Bool) → cause_of (cause o) ≡ some o
cause_back none = refl
cause_back (some true) = refl
cause_back (some false) = refl

cause_line : (o : Option Bool) → NoBreak (cause o ∷ String.[])
cause_line none = (ground arith, ground arith, tt)
cause_line (some b) = bit_line b

abbrev kind_letter : MessageKind → Char
kind_letter user_request = "a"
kind_letter assistant_message = "b"
kind_letter tool_call = "c"
kind_letter tool_result = "d"
kind_letter policy_decision = "e"
kind_letter confirmation_request = "f"
kind_letter confirmation_response = "g"
kind_letter event = "h"
kind_letter error = "i"
kind_letter diagnose_result = "j"

abbrev letter_kind : Char → Option MessageKind
letter_kind c =
    let n = code c in
    if n == b'a'
    then some user_request
    else if n == b'b'
    then some assistant_message
    else if n == b'c'
    then some tool_call
    else if n == b'd'
    then some tool_result
    else if n == b'e'
    then some policy_decision
    else if n == b'f'
    then some confirmation_request
    else if n == b'g'
    then some confirmation_response
    else if n == b'h'
    then some event
    else if n == b'i'
    then some error
    else if n == b'j'
    then some diagnose_result
    else none

kind_back : (k : MessageKind) → letter_kind (kind_letter k) ≡ some k
kind_back user_request = refl
kind_back assistant_message = refl
kind_back tool_call = refl
kind_back tool_result = refl
kind_back policy_decision = refl
kind_back confirmation_request = refl
kind_back confirmation_response = refl
kind_back event = refl
kind_back error = refl
kind_back diagnose_result = refl

kind_line : (k : MessageKind) → NoBreak (kind_letter k ∷ String.[])
kind_line user_request = (ground arith, ground arith, tt)
kind_line assistant_message = (ground arith, ground arith, tt)
kind_line tool_call = (ground arith, ground arith, tt)
kind_line tool_result = (ground arith, ground arith, tt)
kind_line policy_decision = (ground arith, ground arith, tt)
kind_line confirmation_request = (ground arith, ground arith, tt)
kind_line confirmation_response = (ground arith, ground arith, tt)
kind_line event = (ground arith, ground arith, tt)
kind_line error = (ground arith, ground arith, tt)
kind_line diagnose_result = (ground arith, ground arith, tt)

-- A record of the trail is four letters; an identifier is even or odd.
abbrev audit_line : AuditRecord tiny → String
audit_line r =
    kind_letter r.kind ∷ (bit r.id ∷ (bit r.correlation_id ∷ (cause r.causation_id ∷ String.[])))

abbrev audit_of : String → Option (AuditRecord tiny)
audit_of (k ∷ (i ∷ (c ∷ (o ∷ String.[])))) = and_then (letter_kind k) (λ kind.
    and_then (bit_of i) (λ id. and_then (bit_of c) (λ corr. and_then (cause_of o) (λ causation.
      some (record {
        id = id;
        ts = tt;
        correlation_id = corr;
        causation_id = causation;
        kind = kind;
        payload = tt;
      })))))
audit_of _ = none

abbrev pub audit_codec : Codec (AuditRecord tiny)
audit_codec = record { to_string = λ r. some (audit_line r); from_str = audit_of; trim = λ s. s }

cons_not_blank : (c : Char) (s : String) → str_eq (c ∷ s) "" ≡ false
cons_not_blank c s = elim (Bool-cases (str_eq (c ∷ s) "")) [
  | inl e ↦ absurd (let h = (eq_iff (c ∷ s) "").0 e in cc)
  | inr e ↦ e
]

some_line : {s t : String} → some s ≡ some t → s ≡ t
some_line h = cc

audit_back : (r : AuditRecord tiny) → audit_of (audit_line r) ≡ some r
audit_back r =
    rw (kind_back r.kind, bit_back r.id, bit_back r.correlation_id, cause_back r.causation_id) refl

audit_NoBreak : (r : AuditRecord tiny) → NoBreak (audit_line r)
audit_NoBreak r =
    let (k, k', _) = kind_line r.kind in
    let (i, i', _) = bit_line r.id in
    let (c, c', _) = bit_line r.correlation_id in
    let (o, o', _) = cause_line r.causation_id in (k, k', (i, i', (c, c', (o, o', tt))))

pub audit_codec-IsCodec : IsCodec audit_codec
audit_codec-IsCodec = record {
  one_line = λ r line h. subst NoBreak (some_line h) (audit_NoBreak r);
  not_blank = λ r line h. subst (λ t. str_eq t "" ≡ false) (some_line h) (cons_not_blank _ _);
  reads_back = λ r line h. subst (λ t. audit_of t ≡ some r) (some_line h) (audit_back r);
}

-- A fact is two letters and its key; the value is always "yes", the source is the tool, and there are
-- no tags.
abbrev is_tool : Option String → Bool
is_tool none = false
is_tool (some t) = str_eq t "tool"

abbrev pub is_clean : String → Bool
is_clean String.[] = true
is_clean (c ∷ s) = not (code c == b'\n') && not (code c == b'\r') && is_clean s

abbrev fits : MemoryFact tiny → Bool
fits f = is_clean f.key && str_eq f.value "yes" && is_empty f.tags && is_tool f.source

abbrev fact_line : MemoryFact tiny → String
fact_line f = bit f.id ∷ (bit f.deleted ∷ f.key)

abbrev fact_of : String → Option (MemoryFact tiny)
fact_of (i ∷ (d ∷ key)) = and_then (bit_of i) (λ id. and_then (bit_of d) (λ deleted. some (record {
  id = id;
  ts = tt;
  key = key;
  value = "yes";
  tags = [];
  source = some "tool";
  deleted = deleted;
})))
fact_of _ = none

abbrev pub memory_codec : Codec (MemoryFact tiny)
memory_codec = record {
  to_string = λ f. if fits f then some (fact_line f) else none;
  from_str = fact_of;
  trim = λ s. s;
}

pub clean_NoBreak : (s : String) → is_clean s ≡ true → NoBreak s
clean_NoBreak String.[] h = tt
clean_NoBreak (c ∷ s) h = (ground arith, ground arith, clean_NoBreak s (ground arith))

line_of :
    (f : MemoryFact tiny) (line : String)
    → memory_codec.to_string f ≡ some line
    → (fits f ≡ true) × (fact_line f ≡ line)
line_of f line h = (ground arith, ground arith)

is_empty_iff : {A : Type 0} (xs : List A) → is_empty xs ≡ true → [] ≡ xs
is_empty_iff [] h = refl
is_empty_iff (List.◌∷◌ x xs) h = cc

is_tool_iff : (o : Option String) → is_tool o ≡ true → some "tool" ≡ o
is_tool_iff none h = cc
is_tool_iff (some t) h = ap some (sym ((eq_iff t "tool").0 h))

fact_back : (f : MemoryFact tiny) → fits f ≡ true → fact_of (fact_line f) ≡ some f
fact_back f h =
    let v : f.value ≡ "yes" = (eq_iff f.value "yes").0 (ground arith) in
    let t : f.tags ≡ [] = sym (is_empty_iff f.tags (ground arith)) in
    let n : f.source ≡ some "tool" = sym (is_tool_iff f.source (ground arith)) in
    rw (bit_back f.id, bit_back f.deleted, t, v, n) refl

fact_NoBreak : (f : MemoryFact tiny) → fits f ≡ true → NoBreak (fact_line f)
fact_NoBreak f h =
    let (i, i', _) = bit_line f.id in
    let (d, d', _) = bit_line f.deleted in (i, i', (d, d', clean_NoBreak f.key (ground arith)))

pub memory_codec-IsCodec : IsCodec memory_codec
memory_codec-IsCodec = record {
  one_line = λ f line h. (let (ok, e) = line_of f line h in subst NoBreak e (fact_NoBreak f ok));
  not_blank = λ f line h.
      (let (ok, e) = line_of f line h in subst (λ t. str_eq t "" ≡ false) e (cons_not_blank _ _));
  reads_back = λ f line h.
      (let (ok, e) = line_of f line h in subst (λ t. fact_of t ≡ some f) e (fact_back f ok));
}
