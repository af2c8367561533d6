-- ===== src/Flow/History.antt =====
-- What the user has seen is what is signed.
use app_exchange.Common.{append-nil}
use app_exchange.Flow.Faithful.{by_instruction-shows}
use app_exchange.Flow.Faithful.{OnScreen}
use app_exchange.Flow.Faithful.{Screening}
use app_exchange.Flow.Faithful.{Shows-Screening}
use app_exchange.Trust.Run.{quiet}
use app_exchange.Trust.Dispatch.{allowed_state}
use app_exchange.ApduParser.Frame.{check_apdu_validity-guards}
use app_exchange.Flow.Approval.{taken_in}
use app_exchange.Trust.Screens.{asks}
use app_exchange.Trust.Run.{verdict_cases}
use app_exchange.ApduParser.Frame.{check_apdu_validity-IsFramed}
use app_exchange.ApduParser.Reception.{no_apdu}
use app_exchange.Trust.Screens.{IsShown}
use app_exchange.Application.Cycle.{handle_refusal}
use app_exchange.Application.Cycle.{zero_context}
use app_exchange.Application.{dispatch_command}
use app_exchange.Application.Cycle.{on_warning_choice}
use app_exchange.Application.Cycle.{new_cycle}
use app_exchange.Application.Cycle.{run_verdict}
use app_exchange.Application.Cycle.{review_choice}
use app_exchange.Application.Cycle.{abandon}
use app_exchange.Application.Cycle.{restart}
use app_exchange.Application.Cycle.{after_dispatch}
use app_exchange.Application.Cycle.{receive_apdu}
use app_exchange.Application.Cycle.{choose}
use app_exchange.Application.Cycle.{step}
use app_exchange.Application.Cycle.{run}
use app_exchange.Flow.Approval.{Approves}
use app_exchange.Common.{
  ℕ, ◌≡◌, refl, sym, ap, ◌∙◌, Bool, true, false, List, [], ◌∷◌, ◌++◌, append_assoc, inl, inr, arith,
  Bool-cases,
}
use app_exchange.Protocol.States.{waiting_signing, state_eq, sign_finished}
use app_exchange.Context.{Context}
use app_exchange.Platform.{Platform, Env}
use app_exchange.ApduParser.Reception.{Verdict, check_apdu_validity}
use app_exchange.Handler.{End, returned, exception, trap}
use app_exchange.Display.{
  Screen, menu, warning, review, signing_spinner, rejected, signed, failed, review_of,
}
use app_exchange.Application.{App, Event, apdu, choice, reception_failed, io_reset}
use app_exchange.Trust.Run.{IsSound}
use app_exchange.Flow.Faithful.{Shows, ShowsOwn}
use mathlib.Core.Path.{subst}

module _ (p : Platform) (S : Context → Screen → Type 0) (law : Screening p S) (env : Env) where
  pub restart-shows : (app : App) → OnScreen S (restart env app)
  unfolding restart
  restart-shows app =
      law.quiet app.context (restart env app).screen (unfold restart in (ground arith))

  after_dispatch-shows : (d : App) (e : End) → OnScreen S d → OnScreen S (after_dispatch p env d e)
  unfolding after_dispatch new_cycle abandon
  after_dispatch-shows d (returned true) own =
      elim (Bool-cases (state_eq d.context.state sign_finished)) [
        | inl e ↦ rw e (
            restart-shows (record d {
              context = zero_context p;
              received = no_apdu;
              cycle = record d.cycle { had_previous_cycle = true };
            }))
        | inr e ↦ rw e own
      ]
  after_dispatch-shows d (returned false) own =
      restart-shows (record d { context = zero_context p })
  after_dispatch-shows d exception own = restart-shows d
  after_dispatch-shows d trap own = own

  pub receive-shows :
      (app : App) (bytes : List ℕ)
      → IsShown app
      → OnScreen S app
      → OnScreen S (receive_apdu p env app bytes).0
  unfolding receive_apdu run_verdict dispatch_command
  receive-shows app bytes shown own =
      let ctx = app.context in
      let r = check_apdu_validity p.layout ctx app.received bytes in
      let framed = check_apdu_validity-IsFramed p.layout ctx app.received bytes in
      let next : App = record app { context = r.context; received = r.received } in
      let goal = λ (v : Verdict). OnScreen S (run_verdict p env next v).0 in
      elim (verdict_cases r.verdict) [
        | inl (e, refused) ↦ subst goal (sym refused) (elim (Bool-cases (asks app.screen)) [
          | inl asking ↦
              let kept =
                taken_in p app bytes (λ h. let st = shown asking in absurd (ground arith)) in
              subst (λ c. S c app.screen) (sym kept) own
          | inr quiet ↦ law.quiet r.context app.screen quiet
        ])
        | inr (cmd, ok) ↦
            let guards = check_apdu_validity-guards p.layout ctx app.received bytes cmd ok in
            let idle = (allowed_state ctx cmd.ins cmd.subcommand guards).1 in
            let d = dispatch_command p env cmd next in
            subst goal (sym ok) (
              after_dispatch-shows d.app d.end
                (by_instruction-shows p S law env cmd next cmd.ins (quiet p env app shown idle)))
      ]

pub restart-ShowsOwn : (p : Platform) (env : Env) (app : App) → ShowsOwn p (restart env app)
restart-ShowsOwn p = restart-shows p (Shows p) (Shows-Screening p)

choose-ShowsOwn :
    (p : Platform) (app : App) (s : Screen) (confirm : Bool)
    → app.screen ≡ s
    → Shows p app.context s
    → ShowsOwn p (choose p app s confirm).0
unfolding choose review_choice on_warning_choice handle_refusal
choose-ShowsOwn p app (review r) true e own = tt
choose-ShowsOwn p app (review r) false e own = tt
choose-ShowsOwn p app (warning r) true e own = own.0
choose-ShowsOwn p app (warning r) false e own = tt
choose-ShowsOwn p app menu confirm e own = rw e tt
choose-ShowsOwn p app signing_spinner confirm e own = rw e tt
choose-ShowsOwn p app rejected confirm e own = rw e tt
choose-ShowsOwn p app signed confirm e own = rw e tt
choose-ShowsOwn p app (failed text) confirm e own = rw e tt

pub step-ShowsOwn :
    (p : Platform) (app : App) (e : Event)
    → IsSound p app
    → ShowsOwn p app
    → ShowsOwn p (step p app e).0
unfolding step abandon
step-ShowsOwn p app (apdu env bytes) s own =
    receive-shows p (Shows p) (Shows-Screening p) env app bytes s.shown own
step-ShowsOwn p app (choice env confirm) s own = choose-ShowsOwn p app app.screen confirm refl own
step-ShowsOwn p app (reception_failed env) s own =
    restart-ShowsOwn p env (record app { context = zero_context p })
step-ShowsOwn p app (io_reset env) s own = restart-ShowsOwn p env app

pub run-append :
    (p : Platform) (app : App) (before : List Event) (after : List Event)
    → run p app (before ++ after) ≡ run p (run p app before) after
unfolding run
run-append p app [] after = refl
run-append p app (e ∷ before) after = run-append p (step p app e).0 before after

-- Where the user has confirmed the review, and that nothing has changed since.
abbrev pub Approved : Platform → App → List Event → Type 0
Approved p start events =
    (before : List Event) × (after : List Event) × (env : Env) × (events
      ≡ before ++ (choice env true ∷ after))
    × ((run p start before).screen ≡ review (review_of p (run p start before).context))
    × ((run p start events).context
        ≡ record (run p start before).context { state = waiting_signing })

abbrev pub WaitsApproved : Platform → App → List Event → Type 0
WaitsApproved p start events =
    (run p start events).context.state ≡ waiting_signing → Approved p start events

-- One more event: an approval stays, or is made now.
pub later-Approved :
    (p : Platform) (start : App) (events : List Event) (e : Event)
    → WaitsApproved p start events
    → Approves p (run p start events) e (run p start (events ++ (e ∷ [])))
    → WaitsApproved p start (events ++ (e ∷ []))
later-Approved p start events e known (inl kept) waits =
    let (before, after, env, split, seen, same) =
      known (ap (λ (c : Context). c.state) (sym kept) ∙ waits) in
    (
      before,
      after ++ (e ∷ []),
      env,
      ap (λ es. es ++ (e ∷ [])) split ∙ append_assoc before (choice env true ∷ after) (e ∷ []),
      seen,
      kept ∙ same,
    )
later-Approved p start events e known (inr (env, made, seen, now)) waits =
    (events, [], env, ap (λ x. events ++ (x ∷ [])) made, seen, now)

events_behind :
    (K : List Event → Type 0)
    → ((events : List Event) (e : Event) → K events → K (events ++ (e ∷ [])))
    → (before events : List Event) → K before
    → K (before ++ events)
events_behind K next before [] k = subst K (sym (append-nil before)) k
events_behind K next before (e ∷ events) k =
    subst K (append_assoc before (e ∷ []) events)
      (events_behind K next (before ++ (e ∷ [])) events (next before e k))

-- Induction on the events so far, the last one added.
pub events_induction :
    (K : List Event → Type 0)
    → K []
    → ((events : List Event) (e : Event) → K events → K (events ++ (e ∷ [])))
    → (events : List Event) → K events
events_induction K none_yet next events = events_behind K next [] events none_yet
