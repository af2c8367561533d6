-- ===== src/Trust/Calls.antt =====
-- What the coin application is asked to sign.
use app_exchange.Common.{
  ◌∷◌, ◌++◌, ◌≡◌, refl, sym, ap, ◌∙◌, List, [], map, inl, inr, arith, ◌⊎◌, Bool-cases, none,
  append-nil, if◌then◌else◌,
}
use app_exchange.Protocol.States.{state_eq, waiting_signing}
use app_exchange.Protocol.Commands.{
  Instruction, get_version_command, start_new_transaction_command, set_partner_key_command,
  check_partner_command, process_transaction_response_command, check_transaction_signature_command,
  get_challenge, send_trusted_name_descriptor, check_payout_address, check_asset_in_and_display,
  check_asset_in_no_display, check_refund_address_and_display, check_refund_address_no_display,
  prompt_ui_display, start_signing_transaction as start_signing_command, unknown, Command,
}
use app_exchange.Context.{Context}
use app_exchange.Platform.{Platform, Env, Response, SignCall}
use app_exchange.ApduParser.{check_instruction}
use app_exchange.Handler.{status_only, Outcome, End, returned, exception, trap}
use app_exchange.Protocol.Errors.{success}
use app_exchange.Handler.{start_ui_display}
use app_exchange.Session.{start_new_transaction, get_version_handler, get_challenge_handler}
use app_exchange.Partner.{set_partner_key, check_partner}
use app_exchange.Process.{process_transaction}
use app_exchange.Signature.{check_tx_signature}
use app_exchange.TrustedNames.{trusted_name_descriptor_handler}
use app_exchange.Addresses.{check_addresses_and_amounts}
use app_exchange.Display.{menu}
use mathlib.Core.Path.{subst}
use app_exchange.Signing.{sign_call, start_signing_transaction}
use app_exchange.Application.{
  App, Action, attempted, asked_to_sign, dispatch_command, dispatch_by, dispatch_start,
  dispatch_trusted_name, dispatch_signing, after_handler,
}
use app_exchange.Application.Cycle.{exception_actions}
use app_exchange.Trust.Dispatch.{allowed_state, allowed_flow, AllowsIn, FlowOf}

-- The calls among the outputs of an event.
unfoldable pub calls_of : List Action → List SignCall
calls_of [] = []
calls_of (attempted r ∷ actions) = calls_of actions
calls_of (asked_to_sign call ∷ actions) = call ∷ calls_of actions

calls_of-append : (a b : List Action) → calls_of (a ++ b) ≡ calls_of a ++ calls_of b
unfolding calls_of
calls_of-append [] b = refl
calls_of-append (attempted r ∷ a) b = calls_of-append a b
calls_of-append (asked_to_sign call ∷ a) b = ap (λ rest. call ∷ rest) (calls_of-append a b)

calls_of-replies : (rs : List Response) → calls_of (map attempted rs) ≡ []
unfolding calls_of
calls_of-replies [] = refl
calls_of-replies (r ∷ rs) = calls_of-replies rs

calls_of-exception : (e : End) → calls_of (exception_actions e) ≡ []
unfolding calls_of
calls_of-exception (returned b) = refl
calls_of-exception exception = refl
calls_of-exception trap = refl

-- No call, or the one that the context's transaction describes.
abbrev pub AsksOnly : Platform → Context → List SignCall → Type 0
AsksOnly p ctx calls =
    (calls ≡ []) ⊎ ((ctx.state ≡ waiting_signing) × (calls ≡ sign_call p ctx.subcommand ctx ∷ []))

module _ (p : Platform) (env : Env) where
  no_calls : (app : App) (o : Outcome) → calls_of (after_handler p app o).actions ≡ []
  unfolding after_handler
  no_calls app o = calls_of-replies o.attempted

  signing_calls :
      (cmd : Command) (app : App)
      → app.context.state ≡ waiting_signing
      → app.context.subcommand ≡ cmd.subcommand
      → AsksOnly p app.context (calls_of (dispatch_signing p env cmd app).actions)
  unfolding dispatch_signing start_signing_transaction calls_of
  signing_calls cmd app st flow = elim (Bool-cases (env.sends (status_only success))) [
    | inl e ↦ inr (st, rw (flow, e) (ground arith))
    | inr e ↦ inl (rw e refl)
  ]

  -- The outputs of every other command are replies.
  by_instruction-AsksOnly :
      (cmd : Command) (app : App) (i : Instruction)
      → AllowsIn app.context.state i
      → FlowOf app.context cmd.subcommand i
      → AsksOnly p app.context (calls_of (dispatch_by p env cmd app i).actions)
  unfolding dispatch_by dispatch_start dispatch_trusted_name
  by_instruction-AsksOnly cmd app start_signing_command st flow = signing_calls cmd app st flow
  by_instruction-AsksOnly cmd app unknown st flow = absurd (st refl)
  by_instruction-AsksOnly cmd app start_new_transaction_command st flow =
      let shown = record app {
        screen = if state_eq app.context.state waiting_signing then menu else app.screen;
      } in
      inl (no_calls shown (start_new_transaction p env cmd app.context))
  by_instruction-AsksOnly cmd app send_trusted_name_descriptor st flow = inl (
      no_calls (record app { challenge = env.rng_u32 })
        (trusted_name_descriptor_handler p env app.challenge cmd app.context))
  by_instruction-AsksOnly cmd app get_version_command st flow =
      inl (no_calls app (get_version_handler p env app.context))
  by_instruction-AsksOnly cmd app set_partner_key_command st flow =
      inl (no_calls app (set_partner_key p env cmd app.context))
  by_instruction-AsksOnly cmd app check_partner_command st flow =
      inl (no_calls app (check_partner p env cmd app.context))
  by_instruction-AsksOnly cmd app process_transaction_response_command st flow =
      inl (no_calls app (process_transaction p env cmd app.context))
  by_instruction-AsksOnly cmd app check_transaction_signature_command st flow =
      inl (no_calls app (check_tx_signature p env cmd app.context))
  by_instruction-AsksOnly cmd app get_challenge st flow =
      inl (no_calls app (get_challenge_handler p env app.challenge app.context))
  by_instruction-AsksOnly cmd app prompt_ui_display st flow =
      inl (no_calls app (start_ui_display app.context))
  by_instruction-AsksOnly cmd app check_payout_address st flow =
      inl (no_calls app (check_addresses_and_amounts p env cmd app.context))
  by_instruction-AsksOnly cmd app check_asset_in_and_display st flow =
      inl (no_calls app (check_addresses_and_amounts p env cmd app.context))
  by_instruction-AsksOnly cmd app check_asset_in_no_display st flow =
      inl (no_calls app (check_addresses_and_amounts p env cmd app.context))
  by_instruction-AsksOnly cmd app check_refund_address_and_display st flow =
      inl (no_calls app (check_addresses_and_amounts p env cmd app.context))
  by_instruction-AsksOnly cmd app check_refund_address_no_display st flow =
      inl (no_calls app (check_addresses_and_amounts p env cmd app.context))

  dispatch-AsksOnly :
      (cmd : Command) (app : App)
      → check_instruction app.context cmd.ins cmd.subcommand ≡ none
      → AsksOnly p app.context (calls_of (dispatch_command p env cmd app).actions)
  unfolding dispatch_command
  dispatch-AsksOnly cmd app ok =
      by_instruction-AsksOnly cmd app cmd.ins
        (allowed_state app.context cmd.ins cmd.subcommand ok).0
        (allowed_flow app.context cmd.ins cmd.subcommand ok)

  pub dispatched-AsksOnly :
      (cmd : Command) (app : App)
      → check_instruction app.context cmd.ins cmd.subcommand ≡ none
      → let d = dispatch_command p env cmd app in
        AsksOnly p app.context (calls_of (d.actions ++ exception_actions d.end))
  dispatched-AsksOnly cmd app ok =
      let d = dispatch_command p env cmd app in
      let whole : calls_of (d.actions ++ exception_actions d.end) ≡ calls_of d.actions =
        calls_of-append d.actions (exception_actions d.end)
        ∙ (ap (λ c. calls_of d.actions ++ c) (calls_of-exception d.end)
            ∙ append-nil (calls_of d.actions)) in
      subst (AsksOnly p app.context) (sym whole) (dispatch-AsksOnly cmd app ok)
