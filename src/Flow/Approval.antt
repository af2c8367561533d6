-- ===== src/Flow/Approval.antt =====
-- Who lets a transaction be signed: what one event does to the approval.
use app_exchange.Flow.Faithful.{Shows}
use app_exchange.ApduParser.Frame.{check_apdu_validity-guards}
use app_exchange.Application.Cycle.{handle_refusal}
use app_exchange.Flow.Refines.{step-Moves}
use app_exchange.Trust.Run.{verdict_cases}
use app_exchange.Application.Cycle.{on_warning_choice}
use app_exchange.Flow.Faithful.{ShowsOwn}
use app_exchange.Application.Cycle.{run_verdict}
use app_exchange.Application.Cycle.{review_choice}
use app_exchange.Trust.Run.{IsSound}
use app_exchange.ApduParser.Frame.{check_apdu_validity-writes}
use app_exchange.Application.Cycle.{receive_apdu}
use app_exchange.Application.Cycle.{choose}
use app_exchange.Flow.Refines.{verdict_trigger}
use app_exchange.Application.Cycle.{step}
use app_exchange.Context.{zeroed}
use app_exchange.Application.Cycle.{restart}
use app_exchange.Flow.Handlers.{start_new_transaction-states}
use app_exchange.Application.Cycle.{abandon}
use app_exchange.Application.{after_handler}
use app_exchange.Application.Cycle.{new_cycle}
use app_exchange.Application.{dispatch_signing}
use app_exchange.Application.{dispatch_start}
use app_exchange.Common.{none}
use app_exchange.Application.Cycle.{after_dispatch}
use app_exchange.Application.{dispatch_by}
use app_exchange.Application.{dispatch_command}
use app_exchange.Common.{
  ℕ, ◌≡◌, ◌≢◌, refl, sym, ap, ◌∙◌, Bool, true, false, List, inl, inr, ◌⊎◌, arith,
}
use app_exchange.Protocol.States.{
  State, initial_state, provider_checked, waiting_user_validation, waiting_signing, sign_finished,
}
use app_exchange.Protocol.Commands.{
  Instruction, Subcommand, start_new_transaction_command,
  start_signing_transaction as start_signing_command, Command,
}
use app_exchange.Context.{Context}
use app_exchange.Platform.{Platform, Env}
use app_exchange.ApduParser.{check_instruction, check_requirement, requirement, refused_for_flow}
use app_exchange.ApduParser.Reception.{Verdict, reply, proceed, check_apdu_validity}
use app_exchange.Handler.{End}
use app_exchange.Display.{
  Screen, menu, warning, review, signing_spinner, rejected, signed, failed, review_of,
}
use app_exchange.Application.{App, Event, apdu, choice, reception_failed, io_reset}
use app_exchange.Flow.{Trigger, Moves, answer}
use app_exchange.Flow.{
  stay, end, lose, start, set_key, check_key, receive, verify, check_payout, check_asset,
  check_refund, show_asset, show_refund, show, approve, reject, finish,
}
use mathlib.Core.Path.{subst}
use app_exchange.Signing.{start_signing_transaction}

-- Only the user's approval leads to WAITING_SIGNING.
pub Moves-waiting_signing :
    {t : Trigger} {s u : State}
    → Moves t s u
    → u ≡ waiting_signing
    → (s ≡ waiting_signing) ⊎ ((t ≡ answer true) × (s ≡ waiting_user_validation))
Moves-waiting_signing stay e = inl e
Moves-waiting_signing end e = absurd (ground arith)
Moves-waiting_signing lose e = absurd (ground arith)
Moves-waiting_signing (start h) e = absurd (ground arith)
Moves-waiting_signing set_key e = absurd (ground arith)
Moves-waiting_signing check_key e = absurd (ground arith)
Moves-waiting_signing receive e = absurd (ground arith)
Moves-waiting_signing verify e = absurd (ground arith)
Moves-waiting_signing check_payout e = absurd (ground arith)
Moves-waiting_signing check_asset e = absurd (ground arith)
Moves-waiting_signing check_refund e = absurd (ground arith)
Moves-waiting_signing show_asset e = absurd (ground arith)
Moves-waiting_signing show_refund e = absurd (ground arith)
Moves-waiting_signing show e = absurd (ground arith)
Moves-waiting_signing approve e = inr (refl, refl)
Moves-waiting_signing reject e = absurd (ground arith)
Moves-waiting_signing finish e = absurd (ground arith)

-- While a signature is waited for, two commands are run.
signing_commands :
    (ctx : Context) (i : Instruction) (s : Subcommand)
    → check_instruction ctx i s ≡ none
    → ctx.state ≡ waiting_signing
    → (i ≡ start_new_transaction_command) ⊎ (i ≡ start_signing_command)
unfolding check_instruction check_requirement requirement refused_for_flow
signing_commands ctx start_new_transaction_command s h st = inl refl
signing_commands ctx start_signing_command s h st = inr refl
signing_commands ctx _ s h st = absurd (ground arith)

module _ (p : Platform) (env : Env) where
  -- After a command the context stays where the handler has left it, or the exchange is over.
  after_dispatch-context :
      (d : App) (e : End)
      → ((after_dispatch p env d e).context ≡ d.context)
        ⊎ ((after_dispatch p env d e).context.state ≡ initial_state)
  unfolding after_dispatch new_cycle abandon restart zeroed
  after_dispatch-context d e = ground arith

  signing_context :
      (cmd : Command) (app : App)
      → let c = (dispatch_by p env cmd app start_signing_command).app.context in
        (c ≡ app.context) ⊎ (c.state ≡ sign_finished)
  unfolding dispatch_by dispatch_signing start_signing_transaction
  signing_context cmd app = ground arith

  starting_state :
      (cmd : Command) (app : App)
      → (dispatch_by p env cmd app start_new_transaction_command).app.context.state
        ≢ waiting_signing
  unfolding dispatch_by dispatch_start after_handler
  starting_state cmd app e = elim (start_new_transaction-states p env cmd app.context) [
    | inl s ↦ absurd (ground arith)
    | inr s ↦ absurd (ground arith)
  ]

  by_instruction-waiting :
      (cmd : Command) (app : App) (i : Instruction)
      → (i ≡ start_new_transaction_command) ⊎ (i ≡ start_signing_command)
      → let c = (dispatch_by p env cmd app i).app.context in
        (c ≡ app.context) ⊎ (c.state ≢ waiting_signing)
  by_instruction-waiting cmd app i (inl e) = inr (
      subst (λ j. (dispatch_by p env cmd app j).app.context.state ≢ waiting_signing) (sym e)
        (starting_state cmd app))
  by_instruction-waiting cmd app i (inr e) =
      subst
        (λ j.
          ((dispatch_by p env cmd app j).app.context ≡ app.context)
          ⊎ ((dispatch_by p env cmd app j).app.context.state ≢ waiting_signing))
        (sym e)
        (elim (signing_context cmd app) [
          | inl same ↦ inl same
          | inr over ↦ inr (λ h. absurd (ground arith))
        ])

  dispatched-waiting :
      (cmd : Command) (app : App)
      → check_instruction app.context cmd.ins cmd.subcommand ≡ none
      → app.context.state ≡ waiting_signing
      → let d = dispatch_command p env cmd app in
        let c = (after_dispatch p env d.app d.end).context in
        c.state ≡ waiting_signing → c ≡ app.context
  unfolding dispatch_command
  dispatched-waiting cmd app ok st after =
      let d = dispatch_by p env cmd app cmd.ins in
      elim (after_dispatch-context d.app d.end) [
        | inr over ↦ absurd (ground arith)
        | inl same ↦
            elim (by_instruction-waiting cmd app cmd.ins
              (signing_commands app.context cmd.ins cmd.subcommand ok st)) [
                | inl kept ↦ same ∙ kept
                | inr other ↦ absurd (other (ap (λ (c : Context). c.state) (sym same) ∙ after))
              ]
      ]

-- A context that waits for the signature has been kept, or the user has just approved its review.
abbrev pub Approves : Platform → App → Event → App → Type 0
Approves p app e next =
    (next.context ≡ app.context)
    ⊎ ((env : Env) × (e ≡ choice env true)
        × (app.screen ≡ review (review_of p app.context))
        × (next.context ≡ record app.context { state = waiting_signing }))

-- An APDU leaves the context alone outside of the state that expects a transaction.
pub taken_in :
    (p : Platform) (app : App) (bytes : List ℕ)
    → app.context.state ≢ provider_checked
    → (check_apdu_validity p.layout app.context app.received bytes).context ≡ app.context
taken_in p app bytes other =
    elim (check_apdu_validity-writes p.layout app.context app.received bytes) [
      | inl e ↦ e
      | inr st ↦ absurd (other st)
    ]

receive-waiting :
    (p : Platform) (env : Env) (app : App) (bytes : List ℕ)
    → app.context.state ≡ waiting_signing
    → (receive_apdu p env app bytes).0.context.state ≡ waiting_signing
    → (receive_apdu p env app bytes).0.context ≡ app.context
unfolding receive_apdu run_verdict
receive-waiting p env app bytes st =
    let ctx = app.context in
    let r = check_apdu_validity p.layout ctx app.received bytes in
    let kept = taken_in p app bytes (λ h. absurd (ground arith)) in
    let next : App = record app { context = r.context; received = r.received } in
    let goal = λ (v : Verdict).
      (run_verdict p env next v).0.context.state ≡ waiting_signing
      → (run_verdict p env next v).0.context ≡ ctx in
    elim (verdict_cases r.verdict) [
      | inl (e, refused) ↦ subst goal (sym refused) (λ _. kept)
      | inr (cmd, ok) ↦
          let guards = check_apdu_validity-guards p.layout ctx app.received bytes cmd ok in
          let allowed =
            ap (λ (c : Context). check_instruction c cmd.ins cmd.subcommand) kept ∙ guards in
          let waits = ap (λ (c : Context). c.state) kept ∙ st in
          subst goal (sym ok)
            (λ after. dispatched-waiting p env cmd next allowed waits after ∙ kept)
    ]

choose-Approves :
    (p : Platform) (env : Env) (app : App) (s : Screen) (confirm : Bool)
    → app.screen ≡ s
    → Shows p app.context s
    → (choose p app s confirm).0.context.state ≡ waiting_signing
    → Approves p app (choice env confirm) (choose p app s confirm).0
unfolding choose review_choice on_warning_choice handle_refusal
choose-Approves p env app (review r) true e shows after = inr (env, refl, e ∙ ap review shows, refl)
choose-Approves p env app (review r) false e shows after = absurd (ground arith)
choose-Approves p env app (warning r) true e shows after = inl refl
choose-Approves p env app (warning r) false e shows after = absurd (ground arith)
choose-Approves p env app menu confirm e shows after = inl refl
choose-Approves p env app signing_spinner confirm e shows after = inl refl
choose-Approves p env app rejected confirm e shows after = inl refl
choose-Approves p env app signed confirm e shows after = inl refl
choose-Approves p env app (failed text) confirm e shows after = inl refl

no_answer : (v : Verdict) → verdict_trigger v ≢ answer true
no_answer (reply e) h = absurd (ground arith)
no_answer (proceed cmd) h = absurd (ground arith)

-- From one event to the next, WAITING_SIGNING keeps its context, and it is entered by nothing but the
-- user's confirmation of the review of the context at hand.
pub step-Approves :
    (p : Platform) (app : App) (e : Event)
    → IsSound p app
    → ShowsOwn p app
    → (step p app e).0.context.state ≡ waiting_signing
    → Approves p app e (step p app e).0
unfolding step abandon restart zeroed
step-Approves p app (apdu env bytes) s shows after =
    let moves = step-Moves p app (apdu env bytes) s in
    elim (Moves-waiting_signing moves (unfold step in after)) [
      | inl waits ↦ inl (receive-waiting p env app bytes waits after)
      | inr (answered, _) ↦
          absurd (
            no_answer (check_apdu_validity p.layout app.context app.received bytes).verdict
              answered)
    ]
step-Approves p app (choice env confirm) s shows after =
    choose-Approves p env app app.screen confirm refl shows after
step-Approves p app (reception_failed env) s shows after = absurd (ground arith)
step-Approves p app (io_reset env) s shows after = inl refl
