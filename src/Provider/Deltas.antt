-- ===== src/Provider/Deltas.antt =====
-- The texts that the providers of crates/model-provider/src/lib.rs send on the channel for deltas.
use text.Mathlib.TextLemmas.{nil-append}
use text.Mathlib.TextLemmas as Texts
use saaios.Prelude.{
  ℕ, zero, suc, ◌≡◌, refl, sym, ap, ◌∙◌, subst, String, true, Option, none, some, List, [], ◌∷◌,
  ◌++◌, append-nil, ◌+++◌, Option-cases, Bool-cases, inl, inr, unwrap_or, and_then, str_eq, eq_iff,
}
use saaios.Crates.{Crates}
use saaios.Protocol.{Result, ok, err}
use saaios.Conversation.{ChatMessage}
use saaios.Runtime.{ModelResponse, ToolDefinition}
use saaios.Runtime.Effects.{>>=-eq-ok, Keeps, Keeps-bind, Keeps-pure, keeps_rules, pure, modify}
use saaios.Text.{size, concat, split_inclusive, split_line}
use saaios.Text.Split.{concat-split_inclusive}
use saaios.Provider.{M, World, ModelProvider, Servers, Request, fresh, request}
use saaios.Provider.Mock.{
  mock_complete, answer, calling, mock_progress, mock_provider, send_text, send_words-deltas,
}
use saaios.Provider.Openai.{OpenAiCompatConfig}
use saaios.Provider.Stream.{
  Assembly, Reader, nothing, on_piece, on_delta, handled, on_line, drain, push_text, push_chunks,
  read_stream, collected, text_of, openai_provider, openai_stream, openai_progress,
}

concat-append : (xs ys : List String) → concat (xs ++ ys) ≡ concat xs +++ concat ys
concat-append [] ys = sym (nil-append (concat ys))
concat-append (x ∷ xs) ys =
    ap (λ t. x +++ t) (concat-append xs ys) ∙ sym (Texts.append_assoc x (concat xs) (concat ys))

module _ (C : Crates) where
  -- From `w` to `w'`, pieces were sent that together are the text, and before them `stale`.
  pub record Sends (w w' : World C) (stale : List String) (text : String) : Type 0 where
    pub pieces : List String
    pub sent : w'.deltas ≡ w.deltas ++ (stale ++ pieces)
    pub whole : concat pieces ≡ text

  -- What was sent is the text put together so far.
  IsEchoed : Assembly → Type 0
  IsEchoed a = concat a.sent ≡ a.assistant_text

  on_piece-IsEchoed :
      (piece : Option String) (a : Assembly) → IsEchoed a → IsEchoed (on_piece C piece a)
  unfolding IsEchoed
  on_piece-IsEchoed none a h = h
  on_piece-IsEchoed (some piece) a h = elim (Bool-cases (str_eq piece "")) [
    | inl e ↦ rw e h
    | inr e ↦ rw e (concat-append a.sent (piece ∷ []) ∙ rw (h, Texts.append-nil) refl)
  ]

  handled-IsEchoed : (o : Option C.Value) (a : Assembly) → IsEchoed a → IsEchoed (handled C o a)
  unfolding handled on_delta IsEchoed
  handled-IsEchoed none a h = h
  handled-IsEchoed (some delta) a h =
      on_piece-IsEchoed (and_then (C.get delta "content") C.as_str) a h

  on_line-IsEchoed : (line : String) (a : Assembly) → IsEchoed a → IsEchoed (on_line C line a)
  unfolding on_line
  on_line-IsEchoed line a h = handled-IsEchoed _ a h

  drain-IsEchoed : (n : ℕ) (r : Reader) → IsEchoed r.assembly → IsEchoed (drain C n r).assembly
  unfolding drain
  drain-IsEchoed zero r h = h
  drain-IsEchoed (suc n) r h = elim (Option-cases (split_line r.line_buf)) [
    | inl e ↦ rw (drain, e) h
    | inr ((line, rest), e) ↦
        rw (drain, e) (drain-IsEchoed n _ (on_line-IsEchoed line r.assembly h))
  ]

  push_text-IsEchoed :
      (r : Reader) (text : String) → IsEchoed r.assembly → IsEchoed (push_text C r text).assembly
  unfolding push_text
  push_text-IsEchoed r text h =
      drain-IsEchoed (suc (size (r.line_buf +++ text)))
        (record { line_buf = r.line_buf +++ text; assembly = r.assembly }) h

  push_chunks-IsEchoed :
      (chunks : List (Result String (List ℕ))) (r : Reader)
      → IsEchoed r.assembly
      → IsEchoed (push_chunks C r chunks).1.assembly
  unfolding push_chunks
  push_chunks-IsEchoed [] r h = h
  push_chunks-IsEchoed (err e ∷ chunks) r h = h
  push_chunks-IsEchoed (ok bytes ∷ chunks) r h =
      push_chunks-IsEchoed chunks (push_text C r (C.from_utf8_lossy bytes))
        (push_text-IsEchoed r (C.from_utf8_lossy bytes) h)

  -- A reader that is returned is the last one.
  push_chunks-last :
      (chunks : List (Result String (List ℕ))) (r r' : Reader)
      → (push_chunks C r chunks).0 ≡ ok r'
      → (push_chunks C r chunks).1 ≡ r'
  unfolding push_chunks
  push_chunks-last [] r r' h = cc
  push_chunks-last (err e ∷ chunks) r r' h = cc
  push_chunks-last (ok bytes ∷ chunks) r r' h = push_chunks-last chunks _ r' h

  -- Calls that send nothing.
  unfoldable pub IsQuiet : List String → World C → Type 0
  IsQuiet ds w = w.deltas ≡ ds

  pub fresh-IsQuiet : (ds : List String) → Keeps (IsQuiet ds) (fresh C)
  unfolding fresh IsQuiet
  fresh-IsQuiet ds = record { at = λ w h. h }

  pub request-IsQuiet :
      (ds : List String) (servers : Servers C) (q : Request C)
      → Keeps (IsQuiet ds) (request C servers q)
  unfolding request IsQuiet
  request-IsQuiet ds servers q = record { at = λ w h. h }

  pub collected-IsQuiet :
      (ds : List String) (acc : List (String × String)) → Keeps (IsQuiet ds) (collected C acc)
  unfolding collected
  collected-IsQuiet ds [] = Keeps-pure _
  collected-IsQuiet ds ((name, args_raw) ∷ acc) = elim (Bool-cases (str_eq name "")) [
    | inl e ↦ rw (collected, e) (collected-IsQuiet ds acc)
    | inr e ↦
        rw (collected, e)
          (Keeps-bind _ _ (fresh-IsQuiet ds)
            (λ id. Keeps-bind _ _ (collected-IsQuiet ds acc) (λ rest. Keeps-pure _)))
  ]

  -- What such a call leaves, from its equation.
  quiet :
      {A : Type 0} (m : M C A) (w w' : World C) (x : Result String A)
      → Keeps (IsQuiet w.deltas) m
      → m w ≡ (x, w')
      → w'.deltas ≡ w.deltas
  unfolding IsQuiet
  quiet m w w' x k e = ap (λ (y : Result String _ × World C). y.1.deltas) (sym e) ∙ k.at w refl

  read_stream-Sends :
      (chunks : List (Result String (List ℕ))) (w w' : World C) (r : Reader)
      → read_stream C chunks w ≡ (ok r, w')
      → Sends w w' [] r.assembly.assistant_text
  unfolding read_stream IsEchoed
  read_stream-Sends chunks w w' r h =
      let start : Reader = record { line_buf = ""; assembly = nothing } in
      let last : Reader = (push_chunks C start chunks).1 in
      let same : last ≡ r =
        push_chunks-last chunks start r (ap (λ (y : Result String Reader × World C). y.0) h) in
      record {
        pieces = last.assembly.sent;
        sent = sym (ap (λ (y : Result String Reader × World C). y.1.deltas) h);
        whole =
            push_chunks-IsEchoed chunks start refl
            ∙ ap (λ (q : Reader). q.assembly.assistant_text) same;
      }

  Sends-quiet :
      (w w1 w2 w' : World C) (stale : List String) (text text' : String)
      → w1.deltas ≡ w.deltas
      → Sends w1 w2 stale text
      → w'.deltas ≡ w2.deltas
      → text ≡ text'
      → Sends w w' stale text'
  Sends-quiet w w1 w2 w' stale text text' e s f g = record {
    pieces = s.pieces;
    sent = f ∙ s.sent ∙ ap (λ ds. ds ++ (stale ++ s.pieces)) e;
    whole = s.whole ∙ g;
  }

  -- A provider whose deltas, where it answers, are the answer's text.
  pub record IsStreaming (p : ModelProvider C) : Type 0 where
    pub streams :
        (messages : List ChatMessage) (tools : List (ToolDefinition C)) (w w' : World C)
        (resp : ModelResponse C)
        → p.complete_with_progress messages tools true w ≡ (ok resp, w')
        → Sends w w' [] (unwrap_or resp.assistant_text "")

  -- The text of a result, or another one where there is none.
  abbrev text_in : String → Result String (ModelResponse C) × World C → String
  text_in other (ok resp, w) = unwrap_or resp.assistant_text ""
  text_in other (err e, w) = other

  unwrap-text_of : (text : String) → unwrap_or (text_of C text) "" ≡ text
  unwrap-text_of text = elim (Bool-cases (str_eq text "")) [
    | inl e ↦ rw (e, (eq_iff text "").0 e) refl
    | inr e ↦ rw e refl
  ]

  module _ (servers : Servers C) (config : OpenAiCompatConfig) where
    pub openai-IsStreaming : IsStreaming (openai_provider C servers config)
    unfolding openai_progress openai_stream pure
    openai-IsStreaming = record {
      streams = λ messages tools w w' resp h.
          let (reply, w1, e1, h1) = >>=-eq-ok _ _ w w' resp h in
          let (r, w2, e2, h2) = >>=-eq-ok _ _ w1 w' resp h1 in
          let (calls, w3, e3, h3) = >>=-eq-ok _ _ w2 w' resp h2 in
          Sends-quiet w w1 w2 w' [] _ _
            (quiet _ w w1 (ok reply) (request-IsQuiet w.deltas servers _) e1)
            (read_stream-Sends reply.chunks w1 w2 r e2)
            (ap (λ (y : Result String (ModelResponse C) × World C). y.1.deltas) (sym h3)
              ∙ quiet _ w2 w3 (ok calls) (collected-IsQuiet w2.deltas r.assembly.tool_acc) e3)
            (sym (unwrap-text_of r.assembly.assistant_text)
              ∙ ap (text_in (unwrap_or (text_of C r.assembly.assistant_text) "")) h3);
    }

  pub calling-IsQuiet :
      (ds : List String) (text : Option String) (name : String) (args : C.Value)
      → Keeps (IsQuiet ds) (calling C text name args)
  unfolding calling
  calling-IsQuiet ds text name args = Keeps-bind _ _ (fresh-IsQuiet ds) (λ id. Keeps-pure _)

  pub mock_complete-IsQuiet :
      (ds : List String) (messages : List ChatMessage) (tools : List (ToolDefinition C))
      → Keeps (IsQuiet ds) (mock_complete C messages tools)
  unfolding mock_complete answer
  mock_complete-IsQuiet ds messages tools = search (keeps_rules, calling-IsQuiet)

  send_text-Sends :
      (text : Option String) (w : World C)
      → Sends w (send_text C true text w) [] (unwrap_or text "")
  unfolding send_text
  send_text-Sends none w = record { pieces = []; sent = sym (append-nil w.deltas); whole = refl }
  send_text-Sends (some text) w = record {
    pieces = split_inclusive text;
    sent = send_words-deltas C (split_inclusive text) w;
    whole = concat-split_inclusive text;
  }

  pub mock-IsStreaming : IsStreaming (mock_provider C)
  unfolding mock_progress pure modify
  mock-IsStreaming = record {
    streams = λ messages tools w w' resp h.
        let (r, w1, e1, h1) = >>=-eq-ok _ _ w w' resp h in
        let (u, w2, e2, h2) = >>=-eq-ok _ _ w1 w' resp h1 in
        Sends-quiet w w1 w2 w' [] _ _
          (quiet _ w w1 (ok r) (mock_complete-IsQuiet w.deltas messages tools) e1)
          (subst (λ v. Sends w1 v [] (unwrap_or r.assistant_text ""))
            (ap (λ (y : Result String (Unit {0}) × World C). y.1) e2)
            (send_text-Sends r.assistant_text w1))
          (ap (λ (y : Result String (ModelResponse C) × World C). y.1.deltas) (sym h2))
          (ap (text_in "") h2);
  }
