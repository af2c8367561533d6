-- ===== src/Flow/Refines.antt =====
-- Every event of the application moves along the flow chart.
use app_exchange.Trust.Run.{same_guards}
use app_exchange.Trust.Screens.{IsShown}
use app_exchange.Signature.{check_tx_signature}
use app_exchange.ApduParser.Frame.{check_apdu_validity-guards}
use app_exchange.Display.{Screen}
use app_exchange.Trust.Run.{IsSound}
use app_exchange.Process.{process_transaction}
use app_exchange.Context.{zeroed}
use app_exchange.Trust.Run.{verdict_cases}
use app_exchange.Application.Cycle.{handle_refusal}
use app_exchange.Partner.{check_partner}
use app_exchange.Application.Cycle.{restart}
use app_exchange.ApduParser.Frame.{check_apdu_validity-IsFramed}
use app_exchange.Application.Cycle.{on_warning_choice}
use app_exchange.Partner.{set_partner_key}
use app_exchange.Application.Cycle.{new_cycle}
use app_exchange.Application.Cycle.{run_verdict}
use app_exchange.Application.Cycle.{review_choice}
use app_exchange.Application.Cycle.{abandon}
use app_exchange.Common.{none}
use app_exchange.Application.Cycle.{after_dispatch}
use app_exchange.Application.Cycle.{receive_apdu}
use app_exchange.Application.Cycle.{choose}
use app_exchange.Application.Cycle.{step}
use app_exchange.Addresses.{check_addresses_and_amounts}
use app_exchange.Protocol.Commands.{instruction_eq}
use app_exchange.Addresses.{displays}
use app_exchange.Common.{
  ℕ, ◌≡◌, ◌≢◌, refl, sym, ap, ◌∙◌, Bool, true, false, List, inl, inr, ◌⊎◌, arith, if◌then◌else◌,
}
use app_exchange.Protocol.States.{
  State, initial_state, waiting_transaction, provider_set, provider_checked, transaction_received,
  signature_checked, payout_address_checked, all_addresses_checked, waiting_user_validation,
  waiting_signing, sign_finished,
}
use app_exchange.Protocol.Commands.{
  Instruction, get_version_command, start_new_transaction_command, set_partner_key_command,
  check_partner_command, process_transaction_response_command, check_transaction_signature_command,
  get_challenge, send_trusted_name_descriptor, check_payout_address, check_asset_in_and_display,
  check_asset_in_no_display, check_refund_address_and_display, check_refund_address_no_display,
  prompt_ui_display, start_signing_transaction as start_signing_command, unknown, Command,
}
use app_exchange.Context.{Context}
use app_exchange.Platform.{Platform, Env}
use app_exchange.ApduParser.{check_instruction}
use app_exchange.ApduParser.Reception.{Verdict, reply, proceed, check_apdu_validity}
use app_exchange.Handler.{End, start_ui_display}
use app_exchange.Session.{get_version_handler, get_challenge_handler}
use app_exchange.Application.{
  App, Event, apdu, choice, reception_failed, io_reset, dispatch_command, dispatch_by,
  dispatch_start, dispatch_trusted_name, dispatch_signing, after_handler,
}
use app_exchange.Signing.{start_signing_transaction}
use app_exchange.Display.{review, warning, menu, signing_spinner, rejected, signed, failed}
use app_exchange.Trust.Dispatch.{AllowsIn, allowed_state}
use app_exchange.Flow.{
  Trigger, command, refused_apdu, failure, answer, Moves, stay, end, lose, start, set_key,
  check_key, receive, verify, check_payout, check_asset, check_refund, show_asset, show_refund,
  show, approve, reject, finish,
}
use app_exchange.Flow.Handlers.{
  StaysOrEnters, set_partner_key-StaysOrEnters, check_partner-StaysOrEnters,
  process_transaction-StaysOrEnters, check_tx_signature-StaysOrEnters, start_new_transaction-states,
  descriptor_state, check_addresses-StaysOrEnters, signing-StaysOrEnters,
}
use mathlib.Core.Path.{subst}

-- A move to the state that a handler has entered, or none.
moves_to :
    (i : Instruction) (ctx c : Context) (s t : State)
    → ctx.state ≡ s
    → StaysOrEnters ctx t c
    → Moves (command i) s t
    → Moves (command i) ctx.state c.state
moves_to i ctx c s t from (inl same) move = subst (Moves (command i) ctx.state) (sym same) stay
moves_to i ctx c s t from (inr entered) move =
    subst (λ u. Moves (command i) u c.state) (sym from)
      (subst (Moves (command i) s) (sym entered) move)

module _ (p : Platform) (env : Env) (cmd : Command) (app : App) where
  start-Moves :
      app.context.state ≢ waiting_user_validation
      → Moves
          (command start_new_transaction_command)
          app.context.state
          (dispatch_start p env cmd app).app.context.state
  unfolding dispatch_start after_handler
  start-Moves idle = elim (start_new_transaction-states p env cmd app.context) [
    | inl e ↦ subst (Moves (command start_new_transaction_command) app.context.state) (sym e) end
    | inr e ↦
        subst (Moves (command start_new_transaction_command) app.context.state) (sym e) (start idle)
  ]

  address_check-Moves :
      (i : Instruction) (s t : State)
      → cmd.ins ≡ i
      → app.context.state ≡ s
      → (if displays i
          then waiting_user_validation
          else if instruction_eq i check_payout_address
          then payout_address_checked
          else all_addresses_checked)
        ≡ t
      → Moves (command i) s t
      → Moves
          (command i)
          app.context.state
          (check_addresses_and_amounts p env cmd app.context).context.state
  address_check-Moves i s t same from target move =
      moves_to i app.context (check_addresses_and_amounts p env cmd app.context).context s t from
        (subst
          (λ u.
            StaysOrEnters app.context u (check_addresses_and_amounts p env cmd app.context).context)
          (rw same target) (check_addresses-StaysOrEnters p env cmd app.context))
        move

  by_instruction-Moves :
      (i : Instruction)
      → cmd.ins ≡ i
      → AllowsIn app.context.state i × (app.context.state ≢ waiting_user_validation)
      → Moves (command i) app.context.state (dispatch_by p env cmd app i).app.context.state
  unfolding dispatch_by dispatch_trusted_name dispatch_signing after_handler get_version_handler
      get_challenge_handler start_ui_display
  by_instruction-Moves get_version_command same (st, idle) = stay
  by_instruction-Moves start_new_transaction_command same (st, idle) = start-Moves idle
  by_instruction-Moves get_challenge same (st, idle) = stay
  by_instruction-Moves send_trusted_name_descriptor same (st, idle) =
      subst (Moves (command send_trusted_name_descriptor) app.context.state)
        (sym (descriptor_state p env cmd app.context app.challenge)) stay
  by_instruction-Moves prompt_ui_display same (st, idle) =
      subst (λ u. Moves (command prompt_ui_display) u waiting_user_validation) (sym st) show
  by_instruction-Moves start_signing_command same (st, idle) =
      moves_to start_signing_command app.context
        (start_signing_transaction p env cmd app.context app.cycle).context waiting_signing
        sign_finished st (signing-StaysOrEnters p env cmd app.context app.cycle) finish
  by_instruction-Moves unknown same (st, idle) = absurd (st refl)
  by_instruction-Moves set_partner_key_command same (st, idle) =
      moves_to set_partner_key_command app.context (set_partner_key p env cmd app.context).context
        waiting_transaction provider_set st (set_partner_key-StaysOrEnters p env cmd app.context)
        set_key
  by_instruction-Moves check_partner_command same (st, idle) =
      moves_to check_partner_command app.context (check_partner p env cmd app.context).context
        provider_set provider_checked st (check_partner-StaysOrEnters p env cmd app.context)
        check_key
  by_instruction-Moves process_transaction_response_command same (st, idle) =
      moves_to process_transaction_response_command app.context
        (process_transaction p env cmd app.context).context provider_checked transaction_received st
        (process_transaction-StaysOrEnters p env cmd app.context) receive
  by_instruction-Moves check_transaction_signature_command same (st, idle) =
      moves_to check_transaction_signature_command app.context
        (check_tx_signature p env cmd app.context).context transaction_received signature_checked st
        (check_tx_signature-StaysOrEnters p env cmd app.context) verify
  by_instruction-Moves check_payout_address same (st, idle) =
      address_check-Moves check_payout_address signature_checked payout_address_checked same st refl
        check_payout
  by_instruction-Moves check_asset_in_and_display same (st, idle) =
      address_check-Moves check_asset_in_and_display signature_checked waiting_user_validation same
        st refl show_asset
  by_instruction-Moves check_asset_in_no_display same (st, idle) =
      address_check-Moves check_asset_in_no_display signature_checked all_addresses_checked same st
        refl check_asset
  by_instruction-Moves check_refund_address_and_display same (st, idle) =
      address_check-Moves check_refund_address_and_display payout_address_checked
        waiting_user_validation same st refl show_refund
  by_instruction-Moves check_refund_address_no_display same (st, idle) =
      address_check-Moves check_refund_address_no_display payout_address_checked
        all_addresses_checked same st refl check_refund

  dispatch-Moves :
      check_instruction app.context cmd.ins cmd.subcommand ≡ none
      → Moves (command cmd.ins) app.context.state (dispatch_command p env cmd app).app.context.state
  unfolding dispatch_command
  dispatch-Moves ok =
      by_instruction-Moves cmd.ins refl (allowed_state app.context cmd.ins cmd.subcommand ok)

  pub ended :
      (d : App) (e : End)
      → ((after_dispatch p env d e).context.state ≡ d.context.state)
        ⊎ ((after_dispatch p env d e).context.state ≡ initial_state)
  unfolding after_dispatch new_cycle abandon restart zeroed
  ended d e = ground arith

-- What an event triggers: an APDU the command that it carries, unless it is refused.
abbrev pub verdict_trigger : Verdict → Trigger
verdict_trigger (reply e) = refused_apdu
verdict_trigger (proceed cmd) = command cmd.ins

abbrev pub trigger_of : Platform → App → Event → Trigger
trigger_of p app (apdu env bytes) =
    verdict_trigger (check_apdu_validity p.layout app.context app.received bytes).verdict
trigger_of p app (choice env confirm) = answer confirm
trigger_of p app (reception_failed env) = failure
trigger_of p app (io_reset env) = failure

end_of_command :
    (i : Instruction) (s t u : State)
    → Moves (command i) s t
    → (u ≡ t) ⊎ (u ≡ initial_state)
    → Moves (command i) s u
end_of_command i s t u move (inl e) = subst (Moves (command i) s) (sym e) move
end_of_command i s t u move (inr e) = subst (Moves (command i) s) (sym e) end

receive-Moves :
    (p : Platform) (env : Env) (app : App) (bytes : List ℕ)
    → Moves
        (trigger_of p app (apdu env bytes))
        app.context.state
        (receive_apdu p env app bytes).0.context.state
unfolding receive_apdu run_verdict
receive-Moves p env app bytes =
    let ctx = app.context in
    let r = check_apdu_validity p.layout ctx app.received bytes in
    let framed = check_apdu_validity-IsFramed p.layout ctx app.received bytes in
    let same : r.context.state ≡ ctx.state = ap (λ (c : Context). c.state) framed in
    let next : App = record app { context = r.context; received = r.received } in
    let moves = λ (v : Verdict).
      Moves (verdict_trigger v) ctx.state (run_verdict p env next v).0.context.state in
    elim (verdict_cases r.verdict) [
      | inl (e, refused) ↦
          subst moves (sym refused) (subst (Moves refused_apdu ctx.state) (sym same) stay)
      | inr (cmd, ok) ↦
          let guards = check_apdu_validity-guards p.layout ctx app.received bytes cmd ok in
          let allowed =
            ap (λ (c : Context). check_instruction c cmd.ins cmd.subcommand) framed
            ∙ (same_guards ctx r.context.transaction cmd.ins cmd.subcommand ∙ guards) in
          let d = dispatch_command p env cmd next in
          subst moves (sym ok) (
            end_of_command cmd.ins ctx.state d.app.context.state _
              (subst (λ s. Moves (command cmd.ins) s d.app.context.state) same
                (dispatch-Moves p env cmd next allowed))
              (ended p env cmd next d.app d.end))
    ]

choose-Moves :
    (p : Platform) (app : App) (s : Screen) (confirm : Bool)
    → app.screen ≡ s
    → IsShown app
    → Moves (answer confirm) app.context.state (choose p app s confirm).0.context.state
unfolding choose review_choice on_warning_choice handle_refusal
choose-Moves p app (review r) true e shown =
    subst (λ s. Moves (answer true) s waiting_signing) (sym (shown (rw e refl))) approve
choose-Moves p app (review r) false e shown =
    subst (λ s. Moves (answer false) s initial_state) (sym (shown (rw e refl))) reject
choose-Moves p app (warning r) true e shown = stay
choose-Moves p app (warning r) false e shown =
    subst (λ s. Moves (answer false) s initial_state) (sym (shown (rw e refl))) reject
choose-Moves p app menu confirm e shown = stay
choose-Moves p app signing_spinner confirm e shown = stay
choose-Moves p app rejected confirm e shown = stay
choose-Moves p app signed confirm e shown = stay
choose-Moves p app (failed text) confirm e shown = stay

-- Every event takes a sound application along the flow chart: an APDU by the command that it carries,
-- or nowhere when it is refused; a choice of the user from the review only; a failure of the
-- reception to the start, or nowhere.
pub step-Moves :
    (p : Platform) (app : App) (e : Event)
    → IsSound p app
    → Moves (trigger_of p app e) app.context.state (step p app e).0.context.state
unfolding step abandon restart zeroed
step-Moves p app (apdu env bytes) s = receive-Moves p env app bytes
step-Moves p app (choice env confirm) s = choose-Moves p app app.screen confirm refl s.shown
step-Moves p app (reception_failed env) s = lose
step-Moves p app (io_reset env) s = stay
