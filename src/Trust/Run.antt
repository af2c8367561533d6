-- ===== src/Trust/Run.antt =====
-- The application between two events: what every run from the start keeps.
use app_exchange.Common.{
  ℕ, ◌∷◌, ◌≡◌, ◌≢◌, refl, sym, ap, ◌∙◌, Bool, true, false, List, [], none, inl, inr, arith, ◌⊎◌,
  Bool-cases,
}
use app_exchange.Protocol.States.{
  initial_state, waiting_user_validation, waiting_signing, sign_finished, state_eq,
}
use app_exchange.Protocol.Commands.{Command, Instruction, Subcommand}
use app_exchange.Context.{Context, zeroed, Transaction as Message}
use app_exchange.Protocol.Errors.{SwapError}
use app_exchange.Platform.{Platform, Env}
use app_exchange.ApduParser.{check_instruction, check_requirement}
use app_exchange.ApduParser.Reception.{no_apdu, Verdict, reply, proceed, check_apdu_validity}
use app_exchange.ApduParser.Frame.{
  check_apdu_validity-IsFramed, check_apdu_validity-writes, check_apdu_validity-guards,
}
use app_exchange.Handler.{End, returned, exception, trap}
use app_exchange.Display.{Screen, menu, warning, review, signing_spinner, rejected, signed, failed}
use app_exchange.Application.{
  App, Event, apdu, choice, reception_failed, io_reset, dispatch_command,
}
use app_exchange.Application.Cycle.{
  first_start, zero_context, restart, new_cycle, abandon, after_dispatch, run_verdict, receive_apdu,
  handle_refusal, review_choice, on_warning_choice, choose, step, boot, run,
}
use app_exchange.Trust.{IsTrusted}
use app_exchange.Trust.Frame.{Kept-IsTrusted, Kept-refl}
use app_exchange.Trust.Dispatch.{dispatch-IsTrusted, allowed_state}
use app_exchange.Trust.Screens.{asks, IsShown, by_instruction-IsShown}
use mathlib.Core.Path.{subst}

-- The context is trusted, and a review is shown only while the choice is waited for.
pub record IsSound (p : Platform) (app : App) : Type 0 where
  pub trusted : IsTrusted p app.context
  pub shown : IsShown app

pub same_guards :
    (ctx : Context) (t : Message) (i : Instruction) (s : Subcommand)
    → check_instruction (record ctx { transaction = t }) i s ≡ check_instruction ctx i s
unfolding check_instruction check_requirement
same_guards ctx t i s = refl

pub verdict_cases :
    (v : Verdict) → ((e : SwapError) × (v ≡ reply e)) ⊎ ((cmd : Command) × (v ≡ proceed cmd))
verdict_cases (reply e) = inl (e, refl)
verdict_cases (proceed cmd) = inr (cmd, refl)

module _ (p : Platform) (env : Env) where
  zeroed-IsTrusted : IsTrusted p (zero_context p)
  unfolding zeroed
  zeroed-IsTrusted = record {
    ledger = ground arith;
    loaded = ground arith;
    certified = ground arith;
    received = ground arith;
    signed = ground arith;
  }

  restart-IsSound : (app : App) → IsTrusted p app.context → IsSound p (restart env app)
  unfolding restart
  restart-IsSound app t = record { trusted = t; shown = ground arith }

  new_cycle-IsSound : (app : App) → IsSound p (new_cycle p env app)
  unfolding new_cycle
  new_cycle-IsSound app =
      restart-IsSound
        (record app {
          context = zero_context p;
          received = no_apdu;
          cycle = record app.cycle { had_previous_cycle = true };
        })
        zeroed-IsTrusted

  abandon-IsSound : (app : App) → IsSound p (abandon p env app)
  unfolding abandon
  abandon-IsSound app = restart-IsSound (record app { context = zero_context p }) zeroed-IsTrusted

  after_dispatch-IsSound :
      (app : App) (e : End) → IsSound p app → IsSound p (after_dispatch p env app e)
  unfolding after_dispatch
  after_dispatch-IsSound app (returned true) s =
      elim (Bool-cases (state_eq app.context.state sign_finished)) [
        | inl e ↦ rw e (new_cycle-IsSound app)
        | inr e ↦ rw e s
      ]
  after_dispatch-IsSound app (returned false) s = abandon-IsSound app
  after_dispatch-IsSound app exception s = restart-IsSound app s.trusted
  after_dispatch-IsSound app trap s = s

  pub quiet :
      (app : App)
      → IsShown app
      → app.context.state ≢ waiting_user_validation
      → asks app.screen ≡ false
  quiet app shown other = elim (Bool-cases (asks app.screen)) [
    | inl e ↦ absurd (other (shown e))
    | inr e ↦ e
  ]

  dispatch-IsSound :
      (cmd : Command) (app : App)
      → check_instruction app.context cmd.ins cmd.subcommand ≡ none
      → IsSound p app
      → IsSound p (dispatch_command p env cmd app).app
  unfolding dispatch_command
  dispatch-IsSound cmd app ok s = record {
    trusted = unfold dispatch_command in dispatch-IsTrusted p env cmd app ok s.trusted;
    shown =
        by_instruction-IsShown p env cmd app cmd.ins
          (quiet app s.shown (allowed_state app.context cmd.ins cmd.subcommand ok).1);
  }

  -- The APDU is taken in before the command runs: the context changes only where a transaction is
  -- expected, and only in the bytes of that transaction.
  received_in-IsTrusted :
      (app : App) (bytes : List ℕ)
      → IsTrusted p app.context
      → IsTrusted p (check_apdu_validity p.layout app.context app.received bytes).context
  received_in-IsTrusted app bytes t =
      let ctx = app.context in
      let r = check_apdu_validity p.layout ctx app.received bytes in
      elim (check_apdu_validity-writes p.layout ctx app.received bytes) [
        | inl e ↦ subst (IsTrusted p) (sym e) t
        | inr st ↦
            subst (IsTrusted p) (sym (check_apdu_validity-IsFramed p.layout ctx app.received bytes))
              (record {
                ledger = t.ledger;
                loaded = t.loaded;
                certified = t.certified;
                received = λ h. absurd (ground arith);
                signed = λ h. absurd (ground arith);
              })
      ]

  receive-IsSound :
      (app : App) (bytes : List ℕ) → IsSound p app → IsSound p (receive_apdu p env app bytes).0
  unfolding receive_apdu run_verdict
  receive-IsSound app bytes s =
      let ctx = app.context in
      let r = check_apdu_validity p.layout ctx app.received bytes in
      let framed = check_apdu_validity-IsFramed p.layout ctx app.received bytes in
      let next : App = record app { context = r.context; received = r.received } in
      let sound : IsSound p next = record {
        trusted = received_in-IsTrusted app bytes s.trusted;
        shown = λ h. ap (λ (c : Context). c.state) framed ∙ s.shown h;
      } in
      elim (verdict_cases r.verdict) [
        | inl (e, refused) ↦ subst (λ v. IsSound p (run_verdict p env next v).0) (sym refused) sound
        | inr (cmd, ok) ↦
            let guards = check_apdu_validity-guards p.layout ctx app.received bytes cmd ok in
            let allowed =
              ap (λ (c : Context). check_instruction c cmd.ins cmd.subcommand) framed
              ∙ (same_guards ctx r.context.transaction cmd.ins cmd.subcommand ∙ guards) in
            let d = dispatch_command p env cmd next in
            subst (λ v. IsSound p (run_verdict p env next v).0) (sym ok)
              (after_dispatch-IsSound d.app d.end (dispatch-IsSound cmd next allowed sound))
      ]

pub refusal-IsTrusted :
    (p : Platform) (ctx : Context) → IsTrusted p (record ctx { state = initial_state })
refusal-IsTrusted p ctx = record {
  ledger = ground arith;
  loaded = ground arith;
  certified = ground arith;
  received = ground arith;
  signed = ground arith;
}

choose-IsSound :
    (p : Platform) (app : App) (s : Screen) (confirm : Bool)
    → app.screen ≡ s
    → IsSound p app
    → IsSound p (choose p app s confirm).0
unfolding choose review_choice on_warning_choice handle_refusal
choose-IsSound p app (review r) true e s =
    let st = s.shown (rw e refl) in
    record {
      trusted =
          Kept-IsTrusted p app.context (record app.context { state = waiting_signing })
            (ground arith) (omega arith) (Kept-refl app.context) s.trusted;
      shown = ground arith;
    }
choose-IsSound p app (review r) false e s = record {
  trusted = refusal-IsTrusted p app.context;
  shown = ground arith;
}
choose-IsSound p app (warning r) true e s = record {
  trusted = s.trusted;
  shown = λ _. s.shown (rw e refl);
}
choose-IsSound p app (warning r) false e s = record {
  trusted = refusal-IsTrusted p app.context;
  shown = ground arith;
}
choose-IsSound p app menu confirm e s = s
choose-IsSound p app signing_spinner confirm e s = s
choose-IsSound p app rejected confirm e s = s
choose-IsSound p app signed confirm e s = s
choose-IsSound p app (failed text) confirm e s = s

-- Every event keeps a sound application sound: the chain from Ledger's key over the partner's key to
-- the transaction holds in every state that relies on it, and a review or a warning is on the screen
-- only while the state waits for the user's choice.
pub step-IsSound :
    (p : Platform) (app : App) (e : Event) → IsSound p app → IsSound p (step p app e).0
unfolding step
step-IsSound p app (apdu env bytes) s = receive-IsSound p env app bytes s
step-IsSound p app (choice env confirm) s = choose-IsSound p app app.screen confirm refl s
step-IsSound p app (reception_failed env) s = abandon-IsSound p env app
step-IsSound p app (io_reset env) s = restart-IsSound p env app s.trusted

pub boot-IsSound : (p : Platform) (env : Env) → IsSound p (boot p env)
unfolding boot
boot-IsSound p env = restart-IsSound p env (first_start p) (zeroed-IsTrusted p env)

pub run-IsSound :
    (p : Platform) (app : App) (events : List Event) → IsSound p app → IsSound p (run p app events)
unfolding run
run-IsSound p app [] s = s
run-IsSound p app (e ∷ events) s = run-IsSound p (step p app e).0 events (step-IsSound p app e s)
