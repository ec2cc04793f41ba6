-- ===== src/Runtime/Trail.antt =====
-- The audit file of crates/ai-runtime/src/lib.rs and the envelopes that it sends.
use saaios.Prelude.{
  map-append, append_assoc, String, true, ◌≡◌, refl, sym, ◌∙◌, ap, subst, Option, List, [], ◌∷◌,
  ◌++◌, map, inl, inr,
}
use saaios.Crates.{Crates}
use saaios.Protocol.{Result, ok, err, Envelope, ConfirmScope}
use saaios.Jsonl
use saaios.Jsonl.{Codec, Log, write, read_all}
use saaios.Jsonl.Records.{IsCodec, Holds, append-Holds, read_all-Holds, readable-append}
use saaios.Jsonl.Whole.{append-untorn}
use saaios.Registry.{ToolOutput, ToolError}
use saaios.Audit.{AuditRecord, record_of, append_envelope}
use saaios.Runtime.{Services, Rt, emit, audit, publish}
use saaios.Runtime.Effects.{Keeps, ◌>>=◌, modify}
use saaios.Runtime.Handle.{run_tool, ran}
use saaios.Runtime.Requests.{handle_user_text_in_session}
use saaios.Runtime.Confirm.{confirm_in_session}
use saaios.Runtime.Kept
use saaios.Runtime.Answered

module _ (C : Crates) (S : Type 0) (services : Services C S) (base : List (AuditRecord C)) where
  open services use {audit_codec}

  -- The audit file can be read, tears no write, and holds the records that it began with and then
  -- those of the envelopes sent, in order, and nothing else.
  pub record IsRecorded (rt : Rt C S) : Type 0 where
    pub whole_writes : rt.audit.writes ≡ []
    pub opens : rt.audit.readable ≡ true
    pub lines : Holds audit_codec (base ++ map (record_of C) rt.sent) rt.audit.content

  map-concat :
      (envs : List (Envelope C)) (env : Envelope C)
      → (base ++ map (record_of C) envs) ++ record_of C env ∷ []
        ≡ base ++ map (record_of C) (envs ++ env ∷ [])
  map-concat envs env =
      append_assoc base (map (record_of C) envs) (record_of C env ∷ [])
      ∙ ap (◌++◌ base) (sym (map-append (record_of C) envs (env ∷ [])))

  module _ (laws : IsCodec audit_codec) where
    pub emit-kept : (env : Envelope C) → Keeps IsRecorded (emit C S services env)
    unfolding emit audit publish append_envelope ◌>>=◌ modify
    emit-kept env = record {
      at = λ rt h. elim (append-untorn audit_codec rt.audit (record_of C env) h.whole_writes) [
        | inl e ↦ rw e h
        | inr (done, w) ↦ rw done (record {
          whole_writes = w;
          opens = readable-append audit_codec laws rt.audit _ ∙ h.opens;
          lines =
              subst
                (λ rs.
                  Holds audit_codec rs
                    (Jsonl.append audit_codec rt.audit (record_of C env)).1.content)
                (map-concat rt.sent env) (append-Holds audit_codec laws rt.audit _ _ h.lines done);
        })
      ];
    }

    pub same :
        {r r' : Rt C S} → IsRecorded r → r'.audit ≡ r.audit → r'.sent ≡ r.sent → IsRecorded r'
    same {r} {r'} h a s = record {
      whole_writes = ap (λ l. l.writes) a ∙ h.whole_writes;
      opens = ap (λ l. l.readable) a ∙ h.opens;
      lines = rw (a, s) h.lines;
    }

    ran-kept :
        (x : Result ToolError (ToolOutput C) × S) (r : Rt C S)
        → IsRecorded r
        → IsRecorded (ran C S services x r).1
    unfolding ran
    ran-kept (ok output, s) r h = same h refl refl
    ran-kept (err e, s) r h = same h refl refl

    pub run_tool-kept :
        (id call_id : C.Uuid) (tool : String) (args : C.Value)
        → Keeps IsRecorded (run_tool C S services id call_id tool args)
    unfolding run_tool
    run_tool-kept id call_id tool args = record { at = λ r h. ran-kept _ r h }

    pub steps : Kept.Steps C S services IsRecorded
    steps = record {
      on_advance = λ r h. same h refl refl;
      on_emit = emit-kept;
      on_save = λ id messages r h. same h refl refl;
      on_run = λ r tool args id call_id h v. run_tool-kept id call_id tool args;
    }

    answer_steps : (scope : ConfirmScope) → Answered.Steps C S services IsRecorded scope
    answer_steps scope = record {
      on_advance = λ r h. same h refl refl;
      on_emit = emit-kept;
      on_append = λ id m r h. same h refl refl;
      on_grant = λ tool r e h. same h refl refl;
      on_run = λ r tool args id call_id n h d. run_tool-kept id call_id tool args;
    }

    -- Reading the trail of such a runtime gives what it began with and then every envelope sent.
    pub read_all-IsRecorded :
        (rt : Rt C S)
        → IsRecorded rt
        → read_all audit_codec rt.audit ≡ ok (base ++ map (record_of C) rt.sent)
    read_all-IsRecorded rt h = read_all-Holds audit_codec laws rt.audit _ h.opens h.lines

    -- On a machine that tears no write, a request, successful or not, leaves the audit file holding
    -- the records that it began with and then those of all envelopes sent on the bus, in order, and
    -- nothing else.
    pub handle_user_text-IsRecorded :
        (rt : Rt C S) (text : String) (session_id : Option C.Uuid)
        → IsRecorded rt
        → IsRecorded (handle_user_text_in_session C S services text session_id rt).1
    handle_user_text-IsRecorded rt text session_id h =
        (Kept.handle_user_text-kept C S services IsRecorded steps text session_id
            (λ n r h. same h refl refl)).at
          rt h

    -- On a machine that tears no write, an answer to a confirmation request, of whatever scope and
    -- successful or not, leaves the audit file holding the records that it began with and then those
    -- of all envelopes sent on the bus, in order, and nothing else.
    pub confirm-IsRecorded :
        (rt : Rt C S) (id : C.Uuid) (session_id : Option C.Uuid) (call_id : C.Uuid) (tool : String)
        (args : C.Value) (scope : ConfirmScope)
        → IsRecorded rt
        → IsRecorded (confirm_in_session C S services id session_id call_id tool args scope rt).1
    confirm-IsRecorded rt id session_id call_id tool args scope h =
        (Answered.confirm-kept C S services IsRecorded (answer_steps scope) id session_id call_id
            tool args).at
          rt h
