-- ===== src/Refusals/Steps.antt =====
-- No event that is answered by an error advances the exchange.
use app_exchange.Refusals.Handlers.{check_addresses-RefusesInPlace}
use app_exchange.Addresses.{check_addresses_and_amounts}
use app_exchange.Refusals.Handlers.{check_tx_signature-RefusesInPlace}
use app_exchange.Signature.{check_tx_signature}
use app_exchange.Refusals.Handlers.{process_transaction-RefusesInPlace}
use app_exchange.Process.{process_transaction}
use app_exchange.Refusals.Handlers.{check_partner-RefusesInPlace}
use app_exchange.Partner.{check_partner}
use app_exchange.Refusals.Handlers.{set_partner_key-RefusesInPlace}
use app_exchange.Partner.{set_partner_key}
use app_exchange.Refusals.Handlers.{start_ui_display-RefusesInPlace}
use app_exchange.Refusals.Handlers.{trusted_name-RefusesInPlace}
use app_exchange.TrustedNames.{trusted_name_descriptor_handler}
use app_exchange.Refusals.Handlers.{get_challenge-RefusesInPlace}
use app_exchange.Session.{get_challenge_handler}
use app_exchange.Refusals.Handlers.{start_new_transaction-RefusesInPlace}
use app_exchange.Flow.Refines.{ended}
use app_exchange.Session.{start_new_transaction}
use app_exchange.Trust.Run.{verdict_cases}
use app_exchange.Protocol.States.{waiting_signing}
use app_exchange.Context.{Context}
use app_exchange.Application.Cycle.{handle_refusal}
use app_exchange.Protocol.States.{state_eq}
use app_exchange.Common.{ℕ}
use app_exchange.Application.Cycle.{on_warning_choice}
use app_exchange.Refusals.Handlers.{get_version-RefusesInPlace}
use app_exchange.Application.Cycle.{run_verdict}
use app_exchange.Application.Cycle.{review_choice}
use app_exchange.Protocol.Errors.{error_value}
use app_exchange.Session.{get_version_handler}
use app_exchange.Application.Cycle.{exception_actions}
use app_exchange.Application.Cycle.{receive_apdu}
use app_exchange.Application.Cycle.{choose}
use app_exchange.Application.Cycle.{step}
use app_exchange.Common.{
  ◌≡◌, refl, sym, ap, ◌∙◌, Bool, true, false, List, [], ◌∷◌, ◌++◌, map, ◌⊎◌, inl, inr, arith,
  if◌then◌else◌, ◌||◌,
}
use app_exchange.Protocol.Commands.{
  Instruction, get_version_command, start_new_transaction_command, set_partner_key_command,
  check_partner_command, process_transaction_response_command, check_transaction_signature_command,
  get_challenge, send_trusted_name_descriptor, check_payout_address, check_asset_in_and_display,
  check_asset_in_no_display, check_refund_address_and_display, check_refund_address_no_display,
  prompt_ui_display, start_signing_transaction as start_signing_command, unknown, Command,
}
use app_exchange.Platform.{Platform, Env, Response}
use app_exchange.Handler.{Outcome, End, returned, exception, trap, start_ui_display}
use app_exchange.ApduParser.Reception.{Verdict, check_apdu_validity}
use app_exchange.ApduParser.Frame.{check_apdu_validity-IsFramed}
use app_exchange.Application.{
  App, Action, Event, attempted, asked_to_sign, apdu, choice, reception_failed, io_reset,
  Dispatched, after_handler, dispatch_by, dispatch_start, dispatch_trusted_name, dispatch_signing,
  dispatch_command,
}
use app_exchange.Signing.{start_signing_transaction}
use app_exchange.Display.{Screen, menu, warning, review, signing_spinner, rejected, signed, failed}
use app_exchange.Refusals.{reports_error, has_error, is_error, StaysOrEnds, RefusesInPlace}
use mathlib.Core.Path.{subst}

reports_error-append :
    (a b : List Action) → reports_error (a ++ b) ≡ (reports_error a || reports_error b)
unfolding reports_error
reports_error-append [] b = refl
reports_error-append (attempted r ∷ a) b = let rest = reports_error-append a b in ground arith
reports_error-append (asked_to_sign call ∷ a) b = reports_error-append a b

reports_error-replies : (rs : List Response) → reports_error (map attempted rs) ≡ has_error rs
unfolding reports_error has_error
reports_error-replies [] = refl
reports_error-replies (r ∷ rs) = ap (λ b. is_error r || b) (reports_error-replies rs)

-- What a command leaves when it is answered by an error, by its handler or by the main loop.
abbrev DispatchRefuses : App → Dispatched → Type 0
DispatchRefuses app d =
    (reports_error d.actions ≡ true) ⊎ (d.end ≡ exception) → StaysOrEnds app.context d.app.context

module _ (p : Platform) (env : Env) (cmd : Command) where
  handled :
      (shown app : App) (o : Outcome)
      → RefusesInPlace app.context o
      → DispatchRefuses app (after_handler p shown o)
  unfolding after_handler
  handled shown app o refuses (inl e) = refuses (inl (sym (reports_error-replies o.attempted) ∙ e))
  handled shown app o refuses (inr e) = refuses (inr e)

  signing : (app : App) → DispatchRefuses app (dispatch_signing p env cmd app)
  unfolding dispatch_signing start_signing_transaction reports_error error_value
  signing app = ground arith

  by_instruction-DispatchRefuses :
      (app : App) (i : Instruction) → DispatchRefuses app (dispatch_by p env cmd app i)
  unfolding dispatch_by dispatch_start dispatch_trusted_name reports_error
  by_instruction-DispatchRefuses app get_version_command =
      handled app app (get_version_handler p env app.context)
        (get_version-RefusesInPlace p env cmd app.context)
  by_instruction-DispatchRefuses app start_new_transaction_command =
      handled
        (record app {
          screen = if state_eq app.context.state waiting_signing then menu else app.screen;
        })
        app (start_new_transaction p env cmd app.context)
        (start_new_transaction-RefusesInPlace p env cmd app.context)
  by_instruction-DispatchRefuses app get_challenge =
      handled app app (get_challenge_handler p env app.challenge app.context)
        (get_challenge-RefusesInPlace p env cmd app.context app.challenge)
  by_instruction-DispatchRefuses app send_trusted_name_descriptor =
      handled (record app { challenge = env.rng_u32 }) app
        (trusted_name_descriptor_handler p env app.challenge cmd app.context)
        (trusted_name-RefusesInPlace p env cmd app.context app.challenge)
  by_instruction-DispatchRefuses app prompt_ui_display =
      handled app app (start_ui_display app.context)
        (start_ui_display-RefusesInPlace p env cmd app.context)
  by_instruction-DispatchRefuses app start_signing_command = signing app
  by_instruction-DispatchRefuses app unknown = ground arith
  by_instruction-DispatchRefuses app set_partner_key_command =
      handled app app (set_partner_key p env cmd app.context)
        (set_partner_key-RefusesInPlace p env cmd app.context)
  by_instruction-DispatchRefuses app check_partner_command =
      handled app app (check_partner p env cmd app.context)
        (check_partner-RefusesInPlace p env cmd app.context)
  by_instruction-DispatchRefuses app process_transaction_response_command =
      handled app app (process_transaction p env cmd app.context)
        (process_transaction-RefusesInPlace p env cmd app.context)
  by_instruction-DispatchRefuses app check_transaction_signature_command =
      handled app app (check_tx_signature p env cmd app.context)
        (check_tx_signature-RefusesInPlace p env cmd app.context)
  by_instruction-DispatchRefuses app check_payout_address =
      handled app app (check_addresses_and_amounts p env cmd app.context)
        (check_addresses-RefusesInPlace p env cmd app.context)
  by_instruction-DispatchRefuses app check_asset_in_and_display =
      handled app app (check_addresses_and_amounts p env cmd app.context)
        (check_addresses-RefusesInPlace p env cmd app.context)
  by_instruction-DispatchRefuses app check_asset_in_no_display =
      handled app app (check_addresses_and_amounts p env cmd app.context)
        (check_addresses-RefusesInPlace p env cmd app.context)
  by_instruction-DispatchRefuses app check_refund_address_and_display =
      handled app app (check_addresses_and_amounts p env cmd app.context)
        (check_addresses-RefusesInPlace p env cmd app.context)
  by_instruction-DispatchRefuses app check_refund_address_no_display =
      handled app app (check_addresses_and_amounts p env cmd app.context)
        (check_addresses-RefusesInPlace p env cmd app.context)

error_origin :
    (actions : List Action) (e : End)
    → reports_error (actions ++ exception_actions e) ≡ true
    → (reports_error actions ≡ true) ⊎ (e ≡ exception)
unfolding reports_error
error_origin actions (returned b) h =
    let split = reports_error-append actions [] in inl (ground arith)
error_origin actions trap h = let split = reports_error-append actions [] in inl (ground arith)
error_origin actions exception h = inr refl

receive-refusal :
    (p : Platform) (env : Env) (app : App) (bytes : List ℕ)
    → reports_error (receive_apdu p env app bytes).1 ≡ true
    → StaysOrEnds app.context (receive_apdu p env app bytes).0.context
unfolding receive_apdu run_verdict dispatch_command
receive-refusal p env app bytes h =
    let ctx = app.context in
    let r = check_apdu_validity p.layout ctx app.received bytes in
    let framed = check_apdu_validity-IsFramed p.layout ctx app.received bytes in
    let same : r.context.state ≡ ctx.state = ap (λ (c : Context). c.state) framed in
    let next : App = record app { context = r.context; received = r.received } in
    let goal = λ (v : Verdict).
      reports_error (run_verdict p env next v).1 ≡ true
      → StaysOrEnds ctx (run_verdict p env next v).0.context in
    let holds : goal r.verdict = elim (verdict_cases r.verdict) [
      | inl (e, refused) ↦ subst goal (sym refused) (λ _. inl same)
      | inr (cmd, ok) ↦ subst goal (sym ok) (λ h.
          let d = dispatch_command p env cmd next in
          let refuses =
            by_instruction-DispatchRefuses p env cmd next cmd.ins
              (error_origin d.actions d.end h) in
          let over = ended p env cmd next d.app d.end in ground arith)
    ] in
    holds h

choose-refusal :
    (p : Platform) (app : App) (s : Screen) (confirm : Bool)
    → reports_error (choose p app s confirm).1 ≡ true
    → StaysOrEnds app.context (choose p app s confirm).0.context
unfolding choose review_choice on_warning_choice handle_refusal reports_error error_value
choose-refusal p app (review r) true h = absurd (ground arith)
choose-refusal p app (review r) false h = inr refl
choose-refusal p app (warning r) true h = inl refl
choose-refusal p app (warning r) false h = inr refl
choose-refusal p app menu confirm h = inl refl
choose-refusal p app signing_spinner confirm h = inl refl
choose-refusal p app rejected confirm h = inl refl
choose-refusal p app signed confirm h = inl refl
choose-refusal p app (failed text) confirm h = inl refl

-- If an event makes the device reply with an error, whichever handler or check it comes from, the state
-- is the one before the event or the initial one: no error advances the exchange.
pub step-refusal :
    (p : Platform) (app : App) (e : Event)
    → reports_error (step p app e).1 ≡ true
    → StaysOrEnds app.context (step p app e).0.context
unfolding step
step-refusal p app (apdu env bytes) h = receive-refusal p env app bytes h
step-refusal p app (choice env confirm) h = choose-refusal p app app.screen confirm h
step-refusal p app (reception_failed env) h = absurd (unfold reports_error in (ground arith))
step-refusal p app (io_reset env) h = absurd (unfold reports_error in (ground arith))
