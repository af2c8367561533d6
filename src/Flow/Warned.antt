-- ===== src/Flow/Warned.antt =====
-- On the larger screens, a review that sends the payout to another device comes behind a warning.
use app_exchange.Flow.History.{events_induction}
use app_exchange.Application.Cycle.{handle_refusal}
use app_exchange.Application.Cycle.{on_warning_choice}
use app_exchange.Trust.Run.{step-IsSound}
use app_exchange.Application.Cycle.{first_start}
use app_exchange.Application.Cycle.{review_choice}
use app_exchange.Application.Cycle.{zero_context}
use app_exchange.Flow.Seen.{run-one}
use app_exchange.Trust.Run.{boot-IsSound}
use app_exchange.Trust.Dispatch.{allowed_state}
use app_exchange.ApduParser.Frame.{check_apdu_validity-guards}
use app_exchange.Trust.Run.{verdict_cases}
use app_exchange.ApduParser.Reception.{Verdict}
use app_exchange.Flow.Approval.{taken_in}
use app_exchange.ApduParser.Reception.{check_apdu_validity}
use app_exchange.Application.Cycle.{run_verdict}
use app_exchange.Common.{
  ◌≡◌, ◌≢◌, refl, sym, ap, ◌∙◌, Bool, true, false, ◌&&◌, List, [], ◌∷◌, ◌++◌, append_assoc, inl,
  inr, ◌⊎◌, arith, Bool-cases, ℕ,
}
use app_exchange.Context.{Context}
use app_exchange.Platform.{Platform, Env}
use app_exchange.Display.{
  Screen, Review, menu, warning, review, signing_spinner, rejected, signed, failed,
  ui_validate_amounts,
}
use app_exchange.Application.{App, Event, apdu, choice, reception_failed, io_reset}
use app_exchange.Application.Cycle.{step, run, boot, restart, abandon, choose, receive_apdu}
use app_exchange.Trust.Run.{IsSound}
use app_exchange.Trust.Screens.{IsShown, asks}
use app_exchange.Flow.Faithful.{Screening}
use app_exchange.Flow.History.{receive-shows}
use mathlib.Core.Path.{subst}

abbrev pub needs_warning : Platform → Context → Bool
needs_warning p ctx = p.screen_size_wallet && ctx.other_seed_payout

-- A review that is opened needs no warning.
abbrev pub Opened : Platform → Context → Screen → Type 0
Opened p ctx (review r) = needs_warning p ctx ≡ false
Opened p ctx (warning r) = Unit {0}
Opened p ctx menu = Unit {0}
Opened p ctx signing_spinner = Unit {0}
Opened p ctx rejected = Unit {0}
Opened p ctx signed = Unit {0}
Opened p ctx (failed text) = Unit {0}

quiet-Opened : (p : Platform) (ctx : Context) (s : Screen) → asks s ≡ false → Opened p ctx s
quiet-Opened p ctx (warning r) h = tt
quiet-Opened p ctx (review r) h = absurd (ground arith)
quiet-Opened p ctx menu h = tt
quiet-Opened p ctx signing_spinner h = tt
quiet-Opened p ctx rejected h = tt
quiet-Opened p ctx signed h = tt
quiet-Opened p ctx (failed text) h = tt

no_flag : (b : Bool) → (b && false) ≡ false
no_flag true = refl
no_flag false = refl

validated-Opened : (p : Platform) (ctx : Context) → Opened p ctx (ui_validate_amounts p ctx)
unfolding ui_validate_amounts
validated-Opened p ctx = elim (Bool-cases ctx.other_seed_payout) [
  | inl e ↦ elim (Bool-cases p.screen_size_wallet) [ inl w ↦ rw (e, w) tt | inr w ↦ rw (e, w) refl ]
  | inr e ↦ rw e (no_flag p.screen_size_wallet)
]

Opened-Screening : (p : Platform) → Screening p (Opened p)
Opened-Screening p = record { quiet = quiet-Opened p; opened = validated-Opened p }

-- Where the user has accepted the warning of this review.
abbrev pub Accepted : Platform → App → List Event → Review → Type 0
Accepted p start events r =
    (before : List Event) × (after : List Event) × (env : Env) × (events
      ≡ before ++ (choice env true ∷ after))
    × ((run p start before).screen ≡ warning r)

abbrev ReviewsAccepted : Platform → App → List Event → Type 0
ReviewsAccepted p start events =
    (r : Review)
    → (run p start events).screen ≡ review r
    → needs_warning p (run p start events).context ≡ true
    → Accepted p start events r

-- While a review or a warning is on the screen, an APDU is refused and changes neither.
asking-stays :
    (p : Platform) (env : Env) (app : App) (bytes : List ℕ)
    → IsShown app
    → asks app.screen ≡ true
    → let next = (receive_apdu p env app bytes).0 in
      (next.screen ≡ app.screen) × (next.context ≡ app.context)
unfolding receive_apdu run_verdict
asking-stays p env app bytes shown asking =
    let ctx = app.context in
    let r = check_apdu_validity p.layout ctx app.received bytes in
    let next : App = record app { context = r.context; received = r.received } in
    let kept = taken_in p app bytes (λ h. let st = shown asking in absurd (ground arith)) in
    let goal = λ (v : Verdict).
      ((run_verdict p env next v).0.screen ≡ app.screen)
      × ((run_verdict p env next v).0.context ≡ ctx) in
    elim (verdict_cases r.verdict) [
      | inl (e, refused) ↦ subst goal (sym refused) (refl, kept)
      | inr (cmd, ok) ↦
          let guards = check_apdu_validity-guards p.layout ctx app.received bytes cmd ok in
          let idle = (allowed_state ctx cmd.ins cmd.subcommand guards).1 in
          absurd (idle (shown asking))
    ]

-- The acceptance stays in the past.
later-Accepted :
    (p : Platform) (start : App) (events : List Event) (e : Event) (r : Review)
    → Accepted p start events r
    → Accepted p start (events ++ (e ∷ [])) r
later-Accepted p start events e r (before, after, env, split, warned) = (
  before,
  after ++ (e ∷ []),
  env,
  ap (λ es. es ++ (e ∷ [])) split ∙ append_assoc before (choice env true ∷ after) (e ∷ []),
  warned,
)

-- How a review comes onto the screen that needs a warning: it was there, or the warning has just been
-- accepted.
abbrev Comes : Platform → App → Event → Review → Type 0
Comes p app e r =
    ((app.screen ≡ review r) × ((step p app e).0.context ≡ app.context))
    ⊎ ((env : Env) × (e ≡ choice env true) × (app.screen ≡ warning r))

receive-Comes :
    (p : Platform) (env : Env) (app : App) (bytes : List ℕ) (r : Review)
    → IsSound p app
    → (receive_apdu p env app bytes).0.screen ≡ review r
    → needs_warning p (receive_apdu p env app bytes).0.context ≡ true
    → Comes p app (apdu env bytes) r
unfolding step
receive-Comes p env app bytes r sound shows needs =
    let next = (receive_apdu p env app bytes).0 in
    elim (Bool-cases (asks app.screen)) [
      | inl asking ↦
          let (same, kept) = asking-stays p env app bytes sound.shown asking in
          inl (sym same ∙ shows, kept)
      | inr silent ↦
          let opened =
            receive-shows p (Opened p) (Opened-Screening p) env app bytes sound.shown
              (quiet-Opened p app.context app.screen silent) in
          let unneeded : needs_warning p next.context ≡ false =
            subst (Opened p next.context) shows opened in
          absurd (ground arith)
    ]

choose-Comes :
    (p : Platform) (env : Env) (app : App) (s : Screen) (confirm : Bool) (r : Review)
    → app.screen ≡ s
    → (choose p app s confirm).0.screen ≡ review r
    → (env' : Env) × (choice env confirm ≡ choice env' true) × (s ≡ warning r)
unfolding choose review_choice on_warning_choice handle_refusal
choose-Comes p env app (warning w) true r e shows = (env, refl, ground arith)
choose-Comes p env app (warning w) false r e shows = absurd (ground arith)
choose-Comes p env app (review w) true r e shows = absurd (ground arith)
choose-Comes p env app (review w) false r e shows = absurd (ground arith)
choose-Comes p env app menu confirm r e shows = absurd (ground arith)
choose-Comes p env app signing_spinner confirm r e shows = absurd (ground arith)
choose-Comes p env app rejected confirm r e shows = absurd (ground arith)
choose-Comes p env app signed confirm r e shows = absurd (ground arith)
choose-Comes p env app (failed text) confirm r e shows = absurd (ground arith)

restart-asks : (env : Env) (app : App) (r : Review) → (restart env app).screen ≢ review r
unfolding restart
restart-asks env app r shows = absurd (ground arith)

step-Comes :
    (p : Platform) (app : App) (e : Event) (r : Review)
    → IsSound p app
    → (step p app e).0.screen ≡ review r
    → needs_warning p (step p app e).0.context ≡ true
    → Comes p app e r
unfolding step abandon
step-Comes p app (apdu env bytes) r sound shows needs =
    receive-Comes p env app bytes r sound shows needs
step-Comes p app (choice env confirm) r sound shows needs =
    inr (choose-Comes p env app app.screen confirm r refl shows)
step-Comes p app (reception_failed env) r sound shows needs =
    absurd (restart-asks env (record app { context = zero_context p }) r shows)
step-Comes p app (io_reset env) r sound shows needs = absurd (restart-asks env app r shows)

-- After every event so far.
record IsWarned (p : Platform) (start : App) (events : List Event) : Type 0 where
  sound : IsSound p (run p start events)
  accepted : ReviewsAccepted p start events

IsWarned-next :
    (p : Platform) (start : App) (events : List Event) (e : Event)
    → IsWarned p start events
    → IsWarned p start (events ++ (e ∷ []))
IsWarned-next p start events e f =
    let app = run p start events in
    let one = run-one p start events e in
    record {
      sound = subst (IsSound p) (sym one) (step-IsSound p app e f.sound);
      accepted =
          subst
            (λ next.
              (r : Review)
              → next.screen ≡ review r
              → needs_warning p next.context ≡ true
              → Accepted p start (events ++ (e ∷ [])) r)
            (sym one)
            (λ r shows needs. elim (step-Comes p app e r f.sound shows needs) [
              | inl (showed, kept) ↦
                  later-Accepted p start events e r
                    (f.accepted r showed (ap (needs_warning p) (sym kept) ∙ needs))
              | inr (env, made, warned) ↦
                  (events, [], env, ap (λ x. events ++ (x ∷ [])) made, warned)
            ]);
    }

boot-IsWarned : (p : Platform) (env : Env) → IsWarned p (boot p env) []
unfolding run
boot-IsWarned p env = record {
  sound = boot-IsSound p env;
  accepted = λ r shows needs. absurd (restart-asks env (first_start p) r (unfold boot in shows));
}

-- What stands on the screen after a run: no review that needs a warning, or one that has come behind
-- the warning of it.
abbrev pub WarnsFirst : Platform → App → List Event → Type 0
WarnsFirst p start events =
    let end = run p start events in
    Opened p end.context end.screen
    ⊎ ((r : Review) × (end.screen ≡ review r) × Accepted p start events r)

screen_cases :
    (p : Platform) (ctx : Context) (s : Screen)
    → Opened p ctx s ⊎ ((r : Review) × (s ≡ review r) × (needs_warning p ctx ≡ true))
screen_cases p ctx (review r) = elim (Bool-cases (needs_warning p ctx)) [
  | inl e ↦ inr (r, refl, e)
  | inr e ↦ inl e
]
screen_cases p ctx (warning r) = inl tt
screen_cases p ctx menu = inl tt
screen_cases p ctx signing_spinner = inl tt
screen_cases p ctx rejected = inl tt
screen_cases p ctx signed = inl tt
screen_cases p ctx (failed text) = inl tt

-- On the larger screens, where a run from the start ends with a review on the screen and the payout
-- address is known not to be the device's, the user has accepted a warning of this very review during
-- the run.
pub run-WarnsFirst :
    (p : Platform) (env : Env) (events : List Event) → WarnsFirst p (boot p env) events
run-WarnsFirst p env events =
    let end = run p (boot p env) events in
    let warned =
      events_induction (IsWarned p (boot p env)) (boot-IsWarned p env)
        (IsWarned-next p (boot p env)) events in
    elim (screen_cases p end.context end.screen) [
      | inl opened ↦ inl opened
      | inr (r, shows, needs) ↦ inr (r, shows, warned.accepted r shows needs)
    ]
