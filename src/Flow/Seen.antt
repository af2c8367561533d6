-- ===== src/Flow/Seen.antt =====
-- Whole runs: every state that waits for a signature has been approved, and the call for the
-- signature is for what the user has seen.
use app_exchange.Flow.History.{events_induction}
use app_exchange.Context.{zeroed}
use app_exchange.Application.Cycle.{restart}
use app_exchange.Flow.Approval.{step-Approves}
use app_exchange.Application.Cycle.{first_start}
use app_exchange.Flow.Approval.{Approves}
use app_exchange.Flow.History.{restart-ShowsOwn}
use app_exchange.Trust.Approval.{step-AsksOnly}
use app_exchange.Flow.Faithful.{ShowsOwn}
use app_exchange.Application.Cycle.{step}
use app_exchange.Trust.Run.{step-IsSound}
use app_exchange.Trust.Run.{boot-IsSound}
use app_exchange.Trust.Calls.{calls_of}
use app_exchange.Trust.Run.{IsSound}
use app_exchange.Application.Cycle.{run}
use app_exchange.Application.Cycle.{boot}
use app_exchange.Common.{◌≡◌, refl, sym, ap, ◌∙◌, true, List, [], ◌∷◌, ◌++◌, inl, inr, ◌⊎◌, arith}
use app_exchange.Protocol.States.{State, waiting_signing}
use app_exchange.Protocol.Commands.{Subcommand}
use app_exchange.Context.{Context}
use app_exchange.Platform.{Platform, Env, SignCall}
use app_exchange.Display.{review, review_of}
use app_exchange.Signing.{sign_call}
use app_exchange.Application.{App, Event, choice}
use app_exchange.Flow.History.{Approved, WaitsApproved, later-Approved, run-append, step-ShowsOwn}
use mathlib.Core.Path.{subst}

-- What holds after the events so far.
record IsFollowed (p : Platform) (start : App) (events : List Event) : Type 0 where
  sound : IsSound p (run p start events)
  own : ShowsOwn p (run p start events)
  approved : WaitsApproved p start events

pub run-one :
    (p : Platform) (start : App) (events : List Event) (e : Event)
    → run p start (events ++ (e ∷ [])) ≡ (step p (run p start events) e).0
unfolding run
run-one p start events e = run-append p start events (e ∷ [])

IsFollowed-next :
    (p : Platform) (start : App) (events : List Event) (e : Event)
    → IsFollowed p start events
    → IsFollowed p start (events ++ (e ∷ []))
IsFollowed-next p start events e f =
    let app = run p start events in
    let one = run-one p start events e in
    record {
      sound = subst (IsSound p) (sym one) (step-IsSound p app e f.sound);
      own = subst (ShowsOwn p) (sym one) (step-ShowsOwn p app e f.sound f.own);
      approved = λ waits.
          later-Approved p start events e f.approved
            (subst (Approves p app e) (sym one) (
              step-Approves p app e f.sound f.own
                (ap (λ (a : App). a.context.state) (sym one) ∙ waits)))
            waits;
    }

boot-IsFollowed : (p : Platform) (env : Env) → IsFollowed p (boot p env) []
unfolding run
boot-IsFollowed p env = record {
  sound = boot-IsSound p env;
  own = unfold boot in (restart-ShowsOwn p env (first_start p));
  approved = λ waits. absurd (unfold boot restart zeroed in (ground arith));
}

-- A run from the start that ends in WAITING_SIGNING has an event at which the user has confirmed the
-- review of the context of that moment, and the context has not changed since, but for the state.
pub run-Approved :
    (p : Platform) (env : Env) (events : List Event)
    → (run p (boot p env) events).context.state ≡ waiting_signing
    → Approved p (boot p env) events
run-Approved p env events waits =
    (events_induction (IsFollowed p (boot p env)) (boot-IsFollowed p env)
        (IsFollowed-next p (boot p env)) events).approved
      waits

same_call :
    (p : Platform) (s : Subcommand) (ctx : Context) (state : State)
    → sign_call p s (record ctx { state = state }) ≡ sign_call p s ctx
unfolding sign_call
same_call p s ctx state = refl

-- A call for what was on the screen when the user confirmed.
abbrev pub SignsSeen : Platform → App → List Event → List SignCall → Type 0
SignsSeen p start events calls =
    (calls ≡ [])
    ⊎ ((before : List Event) × (after : List Event) × (env : Env) × (events
          ≡ before ++ (choice env true ∷ after))
        × let shown = run p start before in
          (shown.screen ≡ review (review_of p shown.context))
          × (calls ≡ sign_call p shown.context.subcommand shown.context ∷ []))

-- After any run from the start of the application, one more event asks the coin application for a
-- signature at most once, and only if the user has confirmed a review during the run: the review was
-- the one of the context of that moment, and the call is the one that this same context describes,
-- with its amount, fees, destination and paying coin.
pub run-SignsSeen :
    (p : Platform) (env : Env) (events : List Event) (e : Event)
    → SignsSeen p (boot p env) events (calls_of (step p (run p (boot p env) events) e).1)
run-SignsSeen p env events e = elim (step-AsksOnly p (run p (boot p env) events) e) [
  | inl silent ↦ inl silent
  | inr (waits, asked) ↦
      let (before, after, env', split, seen, same) = run-Approved p env events waits in
      let shown = (run p (boot p env) before).context in
      let call =
        ap (λ (c : Context). sign_call p c.subcommand c) same
        ∙ same_call p shown.subcommand shown waiting_signing in
      inr (before, after, env', split, (seen, asked ∙ ap (λ call. call ∷ []) call))
]
