-- ===== src/ApduParser/Guards.antt =====
-- Which instructions the current flow accepts: `check_instruction` against a table by states.
use app_exchange.Common.{◌≡◌, Bool, true, false, ◌&&◌, ◌||◌, none, ◌↔◌, arith}
use app_exchange.Protocol.States.{
  State, waiting_transaction, provider_set, provider_checked, transaction_received,
  signature_checked, payout_address_checked, all_addresses_checked, waiting_user_validation,
  waiting_signing,
}
use app_exchange.Protocol.Commands.{
  Instruction, get_version_command, start_new_transaction_command, set_partner_key_command,
  check_partner_command, process_transaction_response_command, check_transaction_signature_command,
  get_challenge, send_trusted_name_descriptor, check_payout_address, check_asset_in_and_display,
  check_asset_in_no_display, check_refund_address_and_display, check_refund_address_no_display,
  prompt_ui_display, start_signing_transaction, Subcommand, subcommand_eq, is_swap,
}
use app_exchange.Context.{Context}
use app_exchange.ApduParser.{check_instruction, check_requirement, requirement, refused_for_flow}

-- The steps of a flow of the given kind, by the state that each is taken in.
abbrev pub step_of : State → Bool → Instruction → Bool
step_of waiting_transaction _ set_partner_key_command = true
step_of provider_set _ check_partner_command = true
step_of provider_checked _ process_transaction_response_command = true
step_of transaction_received _ check_transaction_signature_command = true
step_of signature_checked true get_challenge = true
step_of signature_checked true send_trusted_name_descriptor = true
step_of signature_checked true check_payout_address = true
step_of signature_checked false check_asset_in_and_display = true
step_of signature_checked false check_asset_in_no_display = true
step_of payout_address_checked true check_refund_address_and_display = true
step_of payout_address_checked true check_refund_address_no_display = true
step_of all_addresses_checked _ prompt_ui_display = true
step_of waiting_signing _ start_signing_transaction = true
step_of _ _ _ = false

-- The version may be asked for, and a transaction started, outside the states that wait.
abbrev pub always_allowed : State → Instruction → Bool
always_allowed waiting_user_validation _ = false
always_allowed waiting_signing start_new_transaction_command = true
always_allowed waiting_signing _ = false
always_allowed _ get_version_command = true
always_allowed _ start_new_transaction_command = true
always_allowed _ _ = false

abbrev pub accepts : Context → Instruction → Subcommand → Bool
accepts ctx i s =
    always_allowed ctx.state i
    || (step_of ctx.state (is_swap s) i && subcommand_eq s ctx.subcommand)

-- An APDU passes `check_instruction` exactly when the table by states has it: the instruction is a
-- step of the current state for the kind of flow, under the current flow's subcommand, or it needs
-- no flow. The latter are START_NEW_TRANSACTION, except while a review waits for the user, and
-- GET_VERSION, except then and while the signing is awaited.
pub check_instruction-accepts :
    (ctx : Context) (i : Instruction) (s : Subcommand)
    → (check_instruction ctx i s ≡ none) ↔ (accepts ctx i s ≡ true)
unfolding check_instruction check_requirement requirement refused_for_flow
check_instruction-accepts ctx get_version_command s = ground arith
check_instruction-accepts ctx start_new_transaction_command s = ground arith
check_instruction-accepts ctx set_partner_key_command s = ground arith
check_instruction-accepts ctx _ s = ground arith
