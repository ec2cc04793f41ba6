-- ===== src/Audit/Report.antt =====
-- What the dry-run report of crates/audit-log/src/lib.rs says of the records that it was made from.
use saaios.Prelude.{
  ℕ, ◌+◌, String, Bool, true, false, ◌≡◌, refl, ap, ◌∙◌, sym, Option, none, some, List, [], ◌∷◌,
  ◌++◌, map, map-append, arith, length, length-append, append_assoc, append-nil, if◌then◌else◌,
  ◌+++◌, ◌⊎◌, inl, inr, subst, and_then, unwrap_or, or_else, or_else_assoc, or_else-none,
}
use saaios.Crates.{Crates}
use saaios.Protocol.{
  MessageKind, assistant_message, tool_call, policy_decision, confirmation_request, diagnose_result,
  ok, err, ok_inj,
}
use saaios.Jsonl.{Codec, Log}
use saaios.Jsonl.Records.{IsCodec, Holds, read_all-Holds}
use saaios.Audit.{
  AuditRecord, ReplayStep, ReplayReport, Progress, visit, visit_all, visit_kind, started, report,
  tool_of, is_dangerous, is_ask_user, of_correlation, list_by_correlation, replay,
}

module _ (C : Crates) where
  open C use {get, as_str}

  abbrev text_or : AuditRecord C → String → String → String
  text_or r field d = unwrap_or (and_then (get r.payload field) as_str) d

  -- What one record says: the text of a diagnosis, of an answer, of a request to confirm.
  abbrev pub diagnosis : AuditRecord C → Option String
  diagnosis r = elim r.kind [ diagnose_result ↦ some (text_or r "summary" "") | _ ↦ none ]

  abbrev pub answer : AuditRecord C → Option String
  answer r = elim r.kind [ assistant_message ↦ some (text_or r "text" "") | _ ↦ none ]

  abbrev pub request : AuditRecord C → Option String
  request r = elim r.kind [
    | confirmation_request ↦ some (text_or r "summary" "confirmation required")
    | _ ↦ none
  ]

  -- A call of a dangerous tool, and a decision to ask the user.
  abbrev hazard_of : MessageKind → AuditRecord C → Bool
  hazard_of tool_call r = is_dangerous C (tool_of C r)
  hazard_of _ r = false

  abbrev pub is_hazard : AuditRecord C → Bool
  is_hazard r = hazard_of r.kind r

  abbrev avoided_of : MessageKind → AuditRecord C → Bool
  avoided_of tool_call r = is_dangerous C (tool_of C r)
  avoided_of policy_decision r = is_ask_user C r
  avoided_of _ r = false

  abbrev pub is_avoided : AuditRecord C → Bool
  is_avoided r = avoided_of r.kind r

  abbrev pub last_by : (AuditRecord C → Option String) → List (AuditRecord C) → Option String
  last_by f [] = none
  last_by f (r ∷ rs) = or_else (last_by f rs) (f r)

  abbrev pub first_by : (AuditRecord C → Option String) → List (AuditRecord C) → Option String
  first_by f [] = none
  first_by f (r ∷ rs) = or_else (f r) (first_by f rs)

  abbrev pub count_by : (AuditRecord C → Bool) → List (AuditRecord C) → ℕ
  count_by p [] = 0
  count_by p (r ∷ rs) = (if p r then 1 else 0) + count_by p rs

  -- What a report says of its records: a step for each, with its kind, marked exactly where the
  -- record calls a dangerous tool; a side effect avoided for each such call and each decision to ask;
  -- the last diagnosis as the summary, or else the first answer; the last request to confirm.
  pub record IsReportOf (rs : List (AuditRecord C)) (rep : ReplayReport C) : Type 0 where
    pub kinds : map (λ s. s.kind) rep.steps ≡ map (λ r. r.kind) rs
    pub hazards : map (λ s. s.side_effect) rep.steps ≡ map is_hazard rs
    pub avoided : length rep.side_effects_avoided ≡ count_by is_avoided rs
    pub summary : rep.summary ≡ or_else (last_by diagnosis rs) (first_by answer rs)
    pub pending : rep.pending_confirmation ≡ last_by request rs
    pub dry_run : rep.dry_run ≡ true

  -- One round of the loop.
  record Visited (r : AuditRecord C) (p q : Progress C) : Type 0 where
    kinds : map (λ s. s.kind) q.steps ≡ map (λ s. s.kind) p.steps ++ r.kind ∷ []
    hazards :
        map (λ s. s.side_effect) q.steps ≡ map (λ s. s.side_effect) p.steps ++ is_hazard r ∷ []
    avoided : length q.side_effects ≡ length p.side_effects + (if is_avoided r then 1 else 0)
    summary : q.summary ≡ or_else (diagnosis r) (or_else p.summary (answer r))
    pending : q.pending ≡ or_else (request r) p.pending

  steps-visit_kind :
      (k : MessageKind) (r : AuditRecord C) (p : Progress C)
      → (s : ReplayStep C) × ((visit_kind C k r p).steps ≡ p.steps ++ s ∷ [])
        × (s.kind ≡ r.kind)
        × (s.side_effect ≡ hazard_of k r)
  unfolding visit_kind
  steps-visit_kind tool_call r p = (_, refl, refl, refl)
  steps-visit_kind _ r p = (_, refl, refl, refl)

  length-concat_if :
      (b : Bool) (xs : List String) (x : String)
      → length (if b then xs ++ x ∷ [] else xs) ≡ length xs + (if b then 1 else 0)
  length-concat_if true xs x = length-append xs (x ∷ [])
  length-concat_if false xs x = omega arith

  side_effects-visit_kind :
      (k : MessageKind) (r : AuditRecord C) (p : Progress C)
      → length (visit_kind C k r p).side_effects
        ≡ length p.side_effects + (if avoided_of k r then 1 else 0)
  unfolding visit_kind
  side_effects-visit_kind tool_call r p =
      length-concat_if (is_dangerous C (tool_of C r)) p.side_effects _
  side_effects-visit_kind policy_decision r p = length-concat_if (is_ask_user C r) p.side_effects _
  side_effects-visit_kind _ r p = omega arith

  visit_lem : (r : AuditRecord C) (p : Progress C) → Visited r p (visit C r p)
  unfolding visit
  visit_lem r p =
      let (s, e, k, h) = steps-visit_kind r.kind r p in
      record {
        kinds =
            ap (map (λ s. s.kind)) e
            ∙ map-append (λ s. s.kind) p.steps (s ∷ [])
            ∙ ap (λ t. map (λ s. s.kind) p.steps ++ t ∷ []) k;
        hazards =
            ap (map (λ s. s.side_effect)) e
            ∙ map-append (λ s. s.side_effect) p.steps (s ∷ [])
            ∙ ap (λ t. map (λ s. s.side_effect) p.steps ++ t ∷ []) h;
        avoided = side_effects-visit_kind r.kind r p;
        summary = unfold visit_kind in ground arith;
        pending = unfold visit_kind in ground arith;
      }

  -- The whole loop, from any state of its variables.
  record AllVisited (rs : List (AuditRecord C)) (p q : Progress C) : Type 0 where
    kinds : map (λ s. s.kind) q.steps ≡ map (λ s. s.kind) p.steps ++ map (λ r. r.kind) rs
    hazards :
        map (λ s. s.side_effect) q.steps ≡ map (λ s. s.side_effect) p.steps ++ map is_hazard rs
    avoided : length q.side_effects ≡ length p.side_effects + count_by is_avoided rs
    summary : q.summary ≡ or_else (last_by diagnosis rs) (or_else p.summary (first_by answer rs))
    pending : q.pending ≡ or_else (last_by request rs) p.pending

  visit_all_lem : (rs : List (AuditRecord C)) (p : Progress C) → AllVisited rs p (visit_all C p rs)
  unfolding visit_all
  visit_all_lem [] p = record {
    kinds = sym (append-nil (map (λ s. s.kind) p.steps));
    hazards = sym (append-nil (map (λ s. s.side_effect) p.steps));
    avoided = omega arith;
    summary = sym (or_else-none p.summary);
    pending = refl;
  }
  visit_all_lem (r ∷ rs) p =
      let one = visit_lem r p in
      let rest = visit_all_lem rs (visit C r p) in
      record {
        kinds =
            rest.kinds
            ∙ ap (λ t. t ++ map (λ r. r.kind) rs) one.kinds
            ∙ append_assoc (map (λ s. s.kind) p.steps) (r.kind ∷ []) (map (λ r. r.kind) rs);
        hazards =
            rest.hazards
            ∙ ap (λ t. t ++ map is_hazard rs) one.hazards
            ∙ append_assoc (map (λ s. s.side_effect) p.steps) (is_hazard r ∷ []) (map is_hazard rs);
        avoided = omega (arith, rest.avoided, one.avoided);
        summary =
            rest.summary
            ∙ ap (λ t. or_else (last_by diagnosis rs) (or_else t (first_by answer rs))) one.summary
            ∙ simp or_else_assoc;
        pending =
            rest.pending
            ∙ ap (or_else (last_by request rs)) one.pending
            ∙ sym (or_else_assoc (last_by request rs) (request r) p.pending);
      }

  report-IsReportOf :
      (id : C.Uuid) (rs : List (AuditRecord C)) (rep : ReplayReport C)
      → report C id rs ≡ ok rep
      → IsReportOf rs rep
  unfolding report
  report-IsReportOf id [] rep h = cc
  report-IsReportOf id (r ∷ rs) rep h =
      let v = visit_all_lem (r ∷ rs) (started C) in
      subst (IsReportOf (r ∷ rs)) (ok_inj h) (record {
        kinds = v.kinds;
        hazards = v.hazards;
        avoided = omega (arith, v.avoided);
        summary = v.summary;
        pending = v.pending ∙ or_else-none (last_by request (r ∷ rs));
        dry_run = refl;
      })

  report_total :
      (id : C.Uuid) (rs : List (AuditRecord C))
      → ((rs ≡ [])
          × (report C id rs ≡ err ("no audit records for correlation_id=" +++ C.show_uuid id)))
        ⊎ ((rep : ReplayReport C) × (report C id rs ≡ ok rep) × IsReportOf rs rep)
  report_total id [] = inl (refl, unfold report in refl)
  report_total id (r ∷ rs) =
      let made : (rep : ReplayReport C) × (report C id (r ∷ rs) ≡ ok rep) =
        unfold report in (_, refl) in
      inr (made.0, made.1, report-IsReportOf id (r ∷ rs) made.0 made.1)

  -- A replay of a file that holds some records reports on those of the correlation that was asked
  -- for, and fails exactly when there are none.
  pub replay_lem :
      (codec : Codec (AuditRecord C)) (laws : IsCodec codec) (log : Log) (rs : List (AuditRecord C))
      (id : C.Uuid)
      → log.readable ≡ true
      → Holds codec rs log.content
      → ((of_correlation C id rs ≡ [])
          × (replay C codec log id
              ≡ err ("no audit records for correlation_id=" +++ C.show_uuid id)))
        ⊎ ((rep : ReplayReport C) × (replay C codec log id ≡ ok rep)
            × IsReportOf (of_correlation C id rs) rep)
  unfolding replay list_by_correlation
  replay_lem codec laws log rs id open_ok h =
      rw (read_all-Holds codec laws log rs open_ok h) (report_total id (of_correlation C id rs))
