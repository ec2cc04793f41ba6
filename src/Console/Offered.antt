-- ===== src/Console/Offered.antt =====
-- The confirmations that crates/console-tui/src/main.rs sends.
use saaios.Prelude.{
  ℕ, zero, suc, ◌≡◌, append-nil, append_assoc, get_elem?, refl, sym, subst, String, true, Option,
  none, some, List, [], ◌∷◌, ◌++◌, length, Option-cases, inl, inr, or_else,
}
use saaios.Crates.{Crates}
use saaios.Protocol.{ConfirmScope, Result, ok, err}
use saaios.Runtime.{PendingConfirmation}
use saaios.Service.{ClientRequest, diagnose, confirm}
use saaios.Console.{ClientResponse, Socket, App, Report, show, sent, asking}
use saaios.Console.Stream.{request_stream, asked_back, accepted, received, diagnosing, nonempty}
use saaios.Console.Keys.{answering}

module _ (C : Crates) (socket : Socket C) where
  -- The answer to one of the requests `before` asked back for this call.
  pub record IsOffered (before : List (ClientRequest C)) (correlation_id call_id : C.Uuid)
      (tool : String) (arguments : C.Value) : Type 0 where
    pub n : ℕ
    pub request : ClientRequest C
    pub resp : ClientResponse C
    pub progress : List String
    pub put : get_elem? before n ≡ some request
    pub answered : request_stream C socket n request ≡ ok (resp, progress)
    pub correlated : resp.correlation_id ≡ some correlation_id
    pub summary : String
    pub asked_back :
        resp.pending
        ≡ some (record { call_id = call_id; tool = tool; arguments = arguments; summary = summary })

  abbrev pub Asked : List (ClientRequest C) → ClientRequest C → Type 0
  Asked before (confirm correlation_id call_id tool arguments scope confirmed session_id) =
      IsOffered before correlation_id call_id tool arguments
  Asked before _ = Unit

  -- Each confirmation that was sent is for a call that the answer to an earlier request asked back for.
  abbrev pub AllAsked : (before rs : List (ClientRequest C)) → Type 0
  AllAsked before [] = Unit
  AllAsked before (r ∷ rs) = Asked before r × AllAsked (before ++ r ∷ []) rs

  abbrev pub Waits : List (ClientRequest C) → Option (C.Uuid × PendingConfirmation C) → Type 0
  Waits before none = Unit
  Waits before (some (correlation_id, p)) =
      IsOffered before correlation_id p.call_id p.tool p.arguments

  pub record IsSound (app : App C) : Type 0 where
    pub all : AllAsked [] app.asked
    pub waits : Waits app.asked app.pending

  get_elem?-append :
      (xs ys : List (ClientRequest C)) (n : ℕ) (x : ClientRequest C)
      → get_elem? xs n ≡ some x
      → get_elem? (xs ++ ys) n ≡ some x
  get_elem?-append [] ys n x h = cc
  get_elem?-append (y ∷ xs) ys zero x h = h
  get_elem?-append (y ∷ xs) ys (suc n) x h = get_elem?-append xs ys n x h

  get_elem?-last :
      (xs : List (ClientRequest C)) (x : ClientRequest C)
      → get_elem? (xs ++ x ∷ []) (length xs) ≡ some x
  get_elem?-last [] x = refl
  get_elem?-last (y ∷ xs) x = get_elem?-last xs x

  AllAsked-snoc :
      (before rs : List (ClientRequest C)) (r : ClientRequest C)
      → AllAsked before rs
      → Asked (before ++ rs) r
      → AllAsked before (rs ++ r ∷ [])
  AllAsked-snoc before [] r h a = (subst (λ b. Asked b r) (append-nil before) a, tt)
  AllAsked-snoc before (x ∷ rs) r (b, h) a = (
    b,
    AllAsked-snoc (before ++ x ∷ []) rs r h
        (subst (λ b. Asked b r) (sym (append_assoc before (x ∷ []) rs)) a),
  )

  IsOffered-later :
      (before : List (ClientRequest C)) (r : ClientRequest C) (c i : C.Uuid) (tool : String)
      (arguments : C.Value)
      → IsOffered before c i tool arguments
      → IsOffered (before ++ r ∷ []) c i tool arguments
  IsOffered-later before r c i tool arguments h = record {
    n = h.n;
    request = h.request;
    resp = h.resp;
    progress = h.progress;
    put = get_elem?-append before (r ∷ []) h.n h.request h.put;
    answered = h.answered;
    correlated = h.correlated;
    summary = h.summary;
    asked_back = h.asked_back;
  }

  Waits-later :
      (r : ClientRequest C) (rs : List (ClientRequest C))
      (o : Option (C.Uuid × PendingConfirmation C))
      → Waits rs o
      → Waits (rs ++ r ∷ []) o
  Waits-later r rs none h = tt
  Waits-later r rs (some (c, p)) h = IsOffered-later rs r c p.call_id p.tool p.arguments h

  pub same : (a b : App C) → IsSound a → b.asked ≡ a.asked → b.pending ≡ a.pending → IsSound b
  same a b h e f = record { all = subst (AllAsked []) (sym e) h.all; waits = rw (e, f) h.waits }

  pub sent-IsSound :
      (r : ClientRequest C) (app : App C) → Asked app.asked r → IsSound app → IsSound (sent C r app)
  sent-IsSound r app a h = record {
    all = AllAsked-snoc [] app.asked r h.all a;
    waits = Waits-later r app.asked app.pending h.waits;
  }

  pub asking-IsSound :
      (r : ClientRequest C) (report : Result String (ClientResponse C) → Report C) (app : App C)
      → Asked app.asked r
      → IsSound app
      → IsSound (asking C socket r report app)
  unfolding asking
  asking-IsSound r report app a h = same (sent C r app) _ (sent-IsSound r app a h) refl refl

  pub answering-IsSound :
      (scope : ConfirmScope) (o : Option (C.Uuid × PendingConfirmation C)) (app : App C)
      → Waits app.asked o
      → IsSound app
      → IsSound (answering C socket scope o app)
  unfolding answering
  answering-IsSound scope none app w h = h
  answering-IsSound scope (some (c, p)) app w h =
      asking-IsSound _ _ (record app { pending = none }) w (record { all = h.all; waits = tt })

  or_else-Waits :
      (k : List (ClientRequest C)) (a b : Option (C.Uuid × PendingConfirmation C))
      → Waits k a
      → Waits k b
      → Waits k (or_else a b)
  or_else-Waits k none b h w = w
  or_else-Waits k (some x) b h w = h

  back-Waits :
      (k : List (ClientRequest C)) (c : Option C.Uuid) (p : Option (PendingConfirmation C))
      → ((i : C.Uuid) (q : PendingConfirmation C)
          → c ≡ some i
          → p ≡ some q
          → IsOffered k i q.call_id q.tool q.arguments)
      → Waits k (asked_back C c p)
  back-Waits k none p f = tt
  back-Waits k (some i) none f = tt
  back-Waits k (some i) (some q) f = f i q refl refl

  module _ (n : ℕ) (request : ClientRequest C) where
    accepted-IsSound :
        (resp : ClientResponse C) (ls : List String) (app : App C)
        → request_stream C socket n request ≡ ok (resp, ls)
        → get_elem? app.asked n ≡ some request
        → IsSound app
        → IsSound (accepted C resp app)
    unfolding accepted
    accepted-IsSound resp ls app e l h = record {
      all = h.all;
      waits =
          or_else-Waits app.asked (asked_back C resp.correlation_id resp.pending) app.pending
            (back-Waits app.asked resp.correlation_id resp.pending (λ i q c p. record {
              n = n;
              request = request;
              resp = resp;
              progress = ls;
              put = l;
              answered = e;
              correlated = c;
              summary = q.summary;
              asked_back = p;
            }))
            h.waits;
    }

    received-IsSound :
        (x : Result String (ClientResponse C × List String)) (app : App C)
        → request_stream C socket n request ≡ x
        → get_elem? app.asked n ≡ some request
        → IsSound app
        → IsSound (received C x app)
    unfolding received
    received-IsSound (err why) app e l h = same app _ h refl refl
    received-IsSound (ok (resp, ls)) app e l h = elim (Option-cases resp.error) [
      | inl f ↦
          rw (received, f)
            (accepted-IsSound resp ls (show C (nonempty ls, none) app) e l (same app _ h refl refl))
      | inr (why, f) ↦ rw (received, f) (same app _ h refl refl)
    ]

  pub diagnosing-IsSound :
      (text : String) (app : App C) → IsSound app → IsSound (diagnosing C socket text app)
  unfolding diagnosing
  diagnosing-IsSound text app h =
      let request = diagnose text app.chat_session true in
      received-IsSound (length app.asked) request _ (sent C request app) refl
        (get_elem?-last app.asked request) (sent-IsSound request app tt h)
