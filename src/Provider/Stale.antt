-- ===== src/Provider/Stale.antt =====
-- Deltas of providers that failed, before those of the one that answers.
use saaios.Prelude.{
  ℕ, ◌≡◌, refl, sym, ap, ◌∙◌, subst, String, Bool, true, false, Option, none, some, List, [], ◌∷◌,
  ◌++◌, append_assoc, append-nil, inl, inr, unwrap_or, All, All-append,
}
use saaios.Crates.{Crates}
use saaios.Protocol.{Result, Result-cases, ok, err, ok_inj}
use saaios.Conversation.{ChatMessage}
use saaios.Runtime.{ModelResponse, ToolDefinition}
use saaios.Runtime.Effects.{>>=-eq-ok, Keeps, Keeps-pure, Keeps-bind, Keeps-modify, pure}
use saaios.Text.{split_inclusive}
use saaios.Provider.{M, World, ModelProvider, Servers, ProviderKind, mock, remote, local, auto}
use saaios.Provider.Mock.{mock_progress, mock_provider, send_text, send_words-deltas}
use saaios.Provider.Openai.{OpenAiCompatConfig, ollama, openai_health}
use saaios.Provider.Stream.{
  openai_provider, openai_stream, openai_progress, read_stream, Reader, nothing, push_chunks,
}
use saaios.Provider.Chain.{
  first_ok, first_ok-answered, first_ok-failed, fallback, chain, build_provider, when, succeeds,
  remote_entry,
}
use saaios.Provider.Deltas.{
  Sends, IsStreaming, mock-IsStreaming, openai-IsStreaming, IsQuiet, request-IsQuiet,
  collected-IsQuiet, mock_complete-IsQuiet,
}

module _ (C : Crates) where
  -- Some deltas have been sent since.
  abbrev Extends : List String → World C → Type 0
  Extends ds w = (more : List String) × (w.deltas ≡ ds ++ more)

  pub record IsExtending (p : ModelProvider C) : Type 0 where
    pub extends :
        (messages : List ChatMessage) (tools : List (ToolDefinition C)) (ds : List String)
        → Keeps (Extends ds) (p.complete_with_progress messages tools true)

  Extends-quiet :
      {A : Type 0} (m : M C A)
      → ((ds : List String) → Keeps (IsQuiet C ds) m)
      → (ds : List String) → Keeps (Extends ds) m
  unfolding IsQuiet
  Extends-quiet m k ds = record { at = λ w (more, e). (more, (k w.deltas).at w refl ∙ e) }

  read_stream-Extends :
      (ds : List String) (chunks : List (Result String (List ℕ)))
      → Keeps (Extends ds) (read_stream C chunks)
  unfolding read_stream
  read_stream-Extends ds chunks =
      let start : Reader = record { line_buf = ""; assembly = nothing } in
      let sent : List String = (push_chunks C start chunks).1.assembly.sent in
      record {
        at = λ w (more, e). (more ++ sent, ap (λ x. x ++ sent) e ∙ append_assoc ds more sent);
      }

  openai-IsExtending :
      (servers : Servers C) (config : OpenAiCompatConfig)
      → IsExtending (openai_provider C servers config)
  unfolding openai_progress openai_stream
  openai-IsExtending servers config = record {
    extends = λ messages tools ds.
        Keeps-bind _ _ (Extends-quiet _ (λ d. request-IsQuiet C d servers _) ds) (λ reply.
          Keeps-bind _ _ (read_stream-Extends ds reply.chunks) (λ r.
            Keeps-bind _ _ (Extends-quiet _ (λ d. collected-IsQuiet C d r.assembly.tool_acc) ds)
              (λ calls. Keeps-pure _)));
  }

  send_text-Extends :
      (text : Option String) (ds : List String) (w : World C)
      → Extends ds w
      → Extends ds (send_text C true text w)
  unfolding send_text
  send_text-Extends none ds w h = h
  send_text-Extends (some text) ds w (more, e) = (
    more ++ split_inclusive text,
    send_words-deltas C (split_inclusive text) w
        ∙ ap (λ x. x ++ split_inclusive text) e
        ∙ append_assoc ds more (split_inclusive text),
  )

  mock-IsExtending : IsExtending (mock_provider C)
  unfolding mock_progress
  mock-IsExtending = record {
    extends = λ messages tools ds.
        Keeps-bind _ _ (Extends-quiet _ (λ d. mock_complete-IsQuiet C d messages tools) ds) (λ resp.
          Keeps-bind _ _ (Keeps-modify _ (send_text-Extends resp.assistant_text ds))
            (λ _. Keeps-pure _));
  }

  abbrev IsSound : ModelProvider C → Type 0
  IsSound p = IsStreaming C p × IsExtending p

  module _ (messages : List ChatMessage) (tools : List (ToolDefinition C)) where
    abbrev streaming : ModelProvider C → M C (ModelResponse C)
    streaming p = p.complete_with_progress messages tools true

    -- These all failed, one after the other, and what they had sent by then is `stale`.
    abbrev pub Failed : List (ModelProvider C) → (w w1 : World C) → (stale : List String) → Type 0
    Failed [] w w1 stale = (w1 ≡ w) × (stale ≡ [])
    Failed (p ∷ ps) w w1 stale =
        (why : String) × (mine : List String) × (others : List String) × ((streaming p w).0
          ≡ err why)
        × ((streaming p w).1.deltas ≡ w.deltas ++ mine)
        × Failed ps (streaming p w).1 w1 others
        × (stale ≡ mine ++ others)

    -- One of the providers answered after those before it had failed. What was sent are the pieces
    -- of these, and then pieces that together are the text of the answer.
    pub record IsAnswered (ps : List (ModelProvider C)) (w w' : World C) (resp : ModelResponse C)
        : Type 0 where
      pub before : List (ModelProvider C)
      pub p : ModelProvider C
      pub after : List (ModelProvider C)
      pub parts : ps ≡ before ++ p ∷ after
      pub w1 : World C
      pub stale : List String
      pub failed : Failed before w w1 stale
      pub answered : streaming p w1 ≡ (ok resp, w')
      pub sends : Sends C w w' stale (unwrap_or resp.assistant_text "")

    first_ok-IsAnswered :
        (ps : List (ModelProvider C)) (last_err : String) (w w' : World C) (resp : ModelResponse C)
        → All IsSound ps
        → first_ok C streaming last_err ps w ≡ (ok resp, w')
        → IsAnswered ps w w' resp
    first_ok-IsAnswered [] last_err w w' resp h e = unfold first_ok in cc
    first_ok-IsAnswered (p ∷ ps) last_err w w' resp (s, h) e =
        elim (Result-cases (streaming p w).0) [
          | inl (a, answered) ↦
              let returned : streaming p w ≡ (ok resp, w') =
                ap (λ (x : Result String (ModelResponse C)). (x, (streaming p w).1)) answered
                ∙ sym (first_ok-answered C streaming last_err p ps w a answered)
                ∙ e in
              record {
                before = [];
                p = p;
                after = ps;
                parts = refl;
                w1 = w;
                stale = [];
                failed = (refl, refl);
                answered = returned;
                sends = s.0.streams messages tools w w' resp returned;
              }
          | inr (why, failed) ↦
              let (more, x) =
                (s.1.extends messages tools w.deltas).at w ([], sym (append-nil w.deltas)) in
              let later : first_ok C streaming why ps (streaming p w).1 ≡ (ok resp, w') =
                sym (first_ok-failed C streaming last_err p ps w why failed) ∙ e in
              let t = first_ok-IsAnswered ps why (streaming p w).1 w' resp h later in
              record {
                before = p ∷ t.before;
                p = t.p;
                after = t.after;
                parts = ap (λ qs. p ∷ qs) t.parts;
                w1 = t.w1;
                stale = more ++ t.stale;
                failed = (why, more, t.stale, failed, x, t.failed, refl);
                answered = t.answered;
                sends = record {
                  pieces = t.sends.pieces;
                  sent =
                      t.sends.sent
                      ∙ ap (λ d. d ++ (t.stale ++ t.sends.pieces)) x
                      ∙ append_assoc w.deltas more (t.stale ++ t.sends.pieces)
                      ∙ ap (λ d. w.deltas ++ d) (sym (append_assoc more t.stale t.sends.pieces));
                  whole = t.sends.whole;
                };
              }
        ]

  -- Where a completion with a channel for deltas answers, it is one of these providers that does.
  pub record IsEnding (ps : List (ModelProvider C)) (p : ModelProvider C) : Type 0 where
    pub ends :
        (messages : List ChatMessage) (tools : List (ToolDefinition C)) (w w' : World C)
        (resp : ModelResponse C)
        → p.complete_with_progress messages tools true w ≡ (ok resp, w')
        → IsAnswered messages tools ps w w' resp

  fallback-IsEnding : (ps : List (ModelProvider C)) → All IsSound ps → IsEnding ps (fallback C ps)
  fallback-IsEnding ps h = record {
    ends = λ messages tools w w' resp e. first_ok-IsAnswered messages tools ps _ w w' resp h e;
  }

  passed_on :
      (P : ModelProvider C → Type 0) (q p : ModelProvider C) (w w' : World C)
      → pure q w ≡ (ok p, w')
      → P q
      → P p
  unfolding pure
  passed_on P q p w w' h k =
      subst P (ok_inj (ap (λ (y : Result String (ModelProvider C) × World C). y.0) h)) k

  chain-IsSound :
      (servers : Servers C) (healthy : Bool) (config : OpenAiCompatConfig)
      (base key : Option String) (model : String)
      → All IsSound (chain C servers healthy (openai_provider C servers config) base key model)
  chain-IsSound servers healthy config base key model =
      All-append IsSound (when C healthy server) _ (here healthy) (
        All-append IsSound (remote_entry C servers base key model) _ (there base key)
          ((mock-IsStreaming C, mock-IsExtending), tt))
    where
      server : ModelProvider C
      server = openai_provider C servers config

      here : (b : Bool) → All IsSound (when C b server)
      here true = ((openai-IsStreaming C servers config, openai-IsExtending servers config), tt)
      here false = tt

      there : (b k : Option String) → All IsSound (remote_entry C servers b k model)
      there (some b) (some k) = ((openai-IsStreaming C servers _, openai-IsExtending servers _), tt)
      there (some b) none = tt
      there none k = tt

  -- The providers of `auto`: the local server if it was healthy, the remote one if it is configured, and
  -- the mock. Any other provider stands alone.
  abbrev pub Ending :
      (servers : Servers C) (kind : ProviderKind) (base key model lbase lmodel : Option String)
      (w : World C) (p : ModelProvider C)
      → Type 0
  Ending servers auto base key model lbase lmodel w p =
      let config =
        ollama (unwrap_or lbase "http://127.0.0.1:11434/v1") (unwrap_or lmodel "llama3.2") in
      (healthy : Bool) × ((succeeds C (openai_health C servers config) w).0 ≡ ok healthy)
      × IsEnding
          (chain C servers healthy (openai_provider C servers config) base key
            (unwrap_or model "gpt-4o-mini"))
          p
  Ending servers kind base key model lbase lmodel w p = IsStreaming C p

  -- Whatever provider is built: where a completion with a channel for deltas answers, the last pieces
  -- sent are together the text of the answer. The provider of `auto` has sent before them exactly the
  -- pieces that those of its servers sent that stand before the one that answers, each of which was
  -- tried and failed; any other provider has sent nothing else.
  pub build_provider-IsEnding :
      (servers : Servers C) (kind : ProviderKind) (base key model lbase lmodel : Option String)
      (w w' : World C) (p : ModelProvider C)
      → build_provider C servers kind base key model lbase lmodel w ≡ (ok p, w')
      → Ending servers kind base key model lbase lmodel w p
  unfolding build_provider
  build_provider-IsEnding servers mock base key model lbase lmodel w w' p h =
      passed_on (IsStreaming C) _ p w w' h (mock-IsStreaming C)
  build_provider-IsEnding servers remote base key model lbase lmodel w w' p h =
      let (b, w1, e1, h1) = >>=-eq-ok _ _ w w' p h in
      let (k, w2, e2, h2) = >>=-eq-ok _ _ w1 w' p h1 in
      passed_on (IsStreaming C) _ p w2 w' h2 (openai-IsStreaming C servers _)
  build_provider-IsEnding servers local base key model lbase lmodel w w' p h =
      let (healthy, w1, e1, h1) = >>=-eq-ok _ _ w w' p h in
      passed_on (IsStreaming C) _ p w1 w' h1 (openai-IsStreaming C servers _)
  build_provider-IsEnding servers auto base key model lbase lmodel w w' p h =
      let (healthy, w1, e1, h1) = >>=-eq-ok _ _ w w' p h in
      (
        healthy,
        ap (λ (y : Result String Bool × World C). y.0) e1,
        passed_on (IsEnding _) _ p w1 w' h1 (
            fallback-IsEnding _
              (chain-IsSound servers healthy _ base key (unwrap_or model "gpt-4o-mini"))),
      )
