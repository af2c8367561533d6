-- ===== src/Trust/Dispatch.antt =====
-- Every command that passes the guards keeps the application sound: the context is trusted, and a
-- review is on the screen only while the user's choice is waited for.
use app_exchange.Protocol.States.{all_addresses_checked}
use app_exchange.Protocol.States.{payout_address_checked}
use app_exchange.Protocol.States.{signature_checked}
use app_exchange.Common.{ℕ, ◌≤◌, ◌≡◌, refl, sym, none, arith, ◌≢◌}
use app_exchange.Protocol.States.{
  State, state_value, waiting_transaction, provider_set, provider_checked, transaction_received,
  waiting_user_validation, waiting_signing,
}
use app_exchange.Protocol.Commands.{
  Instruction, get_version_command, start_new_transaction_command, set_partner_key_command,
  check_partner_command, process_transaction_response_command, check_transaction_signature_command,
  get_challenge, send_trusted_name_descriptor, check_payout_address, check_asset_in_and_display,
  check_asset_in_no_display, check_refund_address_and_display, check_refund_address_no_display,
  prompt_ui_display, start_signing_transaction as start_signing_command, unknown, Subcommand,
  Command, subcommand_eq→eq,
}
use app_exchange.Context.{Context}
use app_exchange.Platform.{Platform, Env}
use app_exchange.ApduParser.{check_instruction, check_requirement, requirement, refused_for_flow}
use app_exchange.Handler.{start_ui_display}
use app_exchange.Session.{get_version_handler, get_challenge_handler}
use app_exchange.Signing.{PreviousCycle, start_signing_transaction}
use app_exchange.Application.{
  App, dispatch_command, dispatch_by, dispatch_start, dispatch_trusted_name, dispatch_signing,
  after_handler,
}
use app_exchange.Trust.{IsTrusted}
use app_exchange.Trust.Partner.{
  start_new_transaction-IsTrusted, set_partner_key-IsTrusted, check_partner-IsTrusted,
}
use app_exchange.Trust.Process.{process_transaction-IsTrusted, check_tx_signature-IsTrusted}
use app_exchange.Trust.Names.{trusted_name_descriptor_handler-IsTrusted}
use app_exchange.Trust.Display.{check_addresses_and_amounts-IsTrusted}
use app_exchange.Trust.Frame.{Kept-IsTrusted, Kept-refl}

-- The state that a command is run in.
abbrev pub AllowsIn : State → Instruction → Type 0
AllowsIn s set_partner_key_command = s ≡ waiting_transaction
AllowsIn s check_partner_command = s ≡ provider_set
AllowsIn s process_transaction_response_command = s ≡ provider_checked
AllowsIn s check_transaction_signature_command = s ≡ transaction_received
AllowsIn s start_signing_command = s ≡ waiting_signing
AllowsIn s unknown = s ≢ s
AllowsIn s get_version_command = s ≡ s
AllowsIn s start_new_transaction_command = s ≡ s
AllowsIn s get_challenge = s ≡ signature_checked
AllowsIn s send_trusted_name_descriptor = s ≡ signature_checked
AllowsIn s check_payout_address = s ≡ signature_checked
AllowsIn s check_asset_in_and_display = s ≡ signature_checked
AllowsIn s check_asset_in_no_display = s ≡ signature_checked
AllowsIn s check_refund_address_and_display = s ≡ payout_address_checked
AllowsIn s check_refund_address_no_display = s ≡ payout_address_checked
AllowsIn s prompt_ui_display = s ≡ all_addresses_checked

abbrev pub FlowOf : Context → Subcommand → Instruction → Type 0
FlowOf ctx s get_version_command = s ≡ s
FlowOf ctx s start_new_transaction_command = s ≡ s
FlowOf ctx s _ = ctx.subcommand ≡ s

pub allowed_state :
    (ctx : Context) (i : Instruction) (s : Subcommand)
    → check_instruction ctx i s ≡ none
    → AllowsIn ctx.state i × (ctx.state ≢ waiting_user_validation)
unfolding check_instruction check_requirement requirement refused_for_flow
allowed_state ctx get_version_command s h = ground arith
allowed_state ctx start_new_transaction_command s h = ground arith
allowed_state ctx _ s h = ground arith

pub allowed_flow :
    (ctx : Context) (i : Instruction) (s : Subcommand)
    → check_instruction ctx i s ≡ none
    → FlowOf ctx s i
unfolding check_instruction check_requirement requirement refused_for_flow
allowed_flow ctx get_version_command s h = refl
allowed_flow ctx start_new_transaction_command s h = refl
allowed_flow ctx _ s h = sym (subcommand_eq→eq s ctx.subcommand (ground arith))

module _ (p : Platform) (env : Env) where
  answered-IsTrusted :
      (challenge : ℕ) (ctx : Context)
      → IsTrusted p ctx
      → IsTrusted p (get_version_handler p env ctx).context
        × IsTrusted p (get_challenge_handler p env challenge ctx).context
  unfolding get_version_handler get_challenge_handler
  answered-IsTrusted challenge ctx t = (t, t)

  displayed-IsTrusted :
      (ctx : Context)
      → 5 ≤ state_value ctx.state
      → IsTrusted p ctx
      → IsTrusted p (start_ui_display ctx).context
  unfolding start_ui_display
  displayed-IsTrusted ctx st t =
      Kept-IsTrusted p ctx (record ctx { state = waiting_user_validation }) st (omega arith)
        (Kept-refl ctx) t

  signing-IsTrusted :
      (cmd : Command) (ctx : Context) (cycle : PreviousCycle)
      → ctx.state ≡ waiting_signing
      → IsTrusted p ctx
      → IsTrusted p (start_signing_transaction p env cmd ctx cycle).context
  unfolding start_signing_transaction
  signing-IsTrusted cmd ctx cycle st t =
      Kept-IsTrusted p ctx (start_signing_transaction p env cmd ctx cycle).context (ground arith)
        (ground arith) (ground arith) t

  by_instruction :
      (cmd : Command) (app : App) (i : Instruction)
      → AllowsIn app.context.state i
      → FlowOf app.context cmd.subcommand i
      → IsTrusted p app.context
      → IsTrusted p (dispatch_by p env cmd app i).app.context
  unfolding dispatch_by dispatch_start dispatch_trusted_name dispatch_signing after_handler
  by_instruction cmd app get_version_command st flow t = (answered-IsTrusted 0 app.context t).0
  by_instruction cmd app start_new_transaction_command st flow t =
      start_new_transaction-IsTrusted p env cmd app.context
  by_instruction cmd app set_partner_key_command st flow t =
      set_partner_key-IsTrusted p env cmd app.context st flow t
  by_instruction cmd app check_partner_command st flow t =
      check_partner-IsTrusted p env cmd app.context st t
  by_instruction cmd app process_transaction_response_command st flow t =
      process_transaction-IsTrusted p env cmd app.context st flow t
  by_instruction cmd app check_transaction_signature_command st flow t =
      check_tx_signature-IsTrusted p env cmd app.context st t
  by_instruction cmd app get_challenge st flow t =
      (answered-IsTrusted app.challenge app.context t).1
  by_instruction cmd app send_trusted_name_descriptor st flow t =
      trusted_name_descriptor_handler-IsTrusted p env app.challenge cmd app.context (ground arith) t
  by_instruction cmd app prompt_ui_display st flow t =
      displayed-IsTrusted app.context (ground arith) t
  by_instruction cmd app start_signing_command st flow t =
      signing-IsTrusted cmd app.context app.cycle st t
  by_instruction cmd app unknown st flow t = absurd (st refl)
  by_instruction cmd app check_payout_address st flow t =
      check_addresses_and_amounts-IsTrusted p env app.context cmd (ground arith) t
  by_instruction cmd app check_asset_in_and_display st flow t =
      check_addresses_and_amounts-IsTrusted p env app.context cmd (ground arith) t
  by_instruction cmd app check_asset_in_no_display st flow t =
      check_addresses_and_amounts-IsTrusted p env app.context cmd (ground arith) t
  by_instruction cmd app check_refund_address_and_display st flow t =
      check_addresses_and_amounts-IsTrusted p env app.context cmd (ground arith) t
  by_instruction cmd app check_refund_address_no_display st flow t =
      check_addresses_and_amounts-IsTrusted p env app.context cmd (ground arith) t

  pub dispatch-IsTrusted :
      (cmd : Command) (app : App)
      → check_instruction app.context cmd.ins cmd.subcommand ≡ none
      → IsTrusted p app.context
      → IsTrusted p (dispatch_command p env cmd app).app.context
  unfolding dispatch_command
  dispatch-IsTrusted cmd app ok t =
      let ctx = app.context in
      let allowed = (allowed_state ctx cmd.ins cmd.subcommand ok).0 in
      let flow = allowed_flow ctx cmd.ins cmd.subcommand ok in
      by_instruction cmd app cmd.ins allowed flow t
