-- ===== src/ApduParser.antt =====
-- src/apdu_parser.c: the checks on a received APDU against the current flow, and the reception of
-- an APDU that is split into chunks.
pub mod Guards
pub mod Frame
pub mod Reassembly
pub mod RoundTrip
pub mod Bounds
pub mod Reception
use app_exchange.Common.{
  ℕ, ◌+◌, ◌-◌, ◌%◌, ◌/◌, Bool, true, false, not, ◌&&◌, ◌||◌, ◌==◌, ltb, if◌then◌else◌, List, Option,
  none, some, length, take, drop, get_or, write_at,
}
use app_exchange.Protocol.States.{
  State, state_eq, waiting_transaction, provider_set, provider_checked, transaction_received,
  signature_checked, payout_address_checked, all_addresses_checked, waiting_user_validation,
  waiting_signing,
}
use app_exchange.Protocol.Commands.{
  Instruction, get_version_command, start_new_transaction_command, set_partner_key_command,
  check_partner_command, process_transaction_response_command, check_transaction_signature_command,
  get_challenge, send_trusted_name_descriptor, check_payout_address, check_asset_in_and_display,
  check_asset_in_no_display, check_refund_address_and_display, check_refund_address_no_display,
  prompt_ui_display, start_signing_transaction, unknown, instruction_of_byte, instruction_eq, Rate,
  rate_of_byte, rate_eq, Subcommand, swap, sell, fund, subcommand_of_byte, subcommand_eq, is_swap,
  Command,
}
use app_exchange.Protocol.Errors.{
  SwapError, malformed_apdu, class_not_supported, wrong_p1, wrong_p2_subcommand, wrong_p2_extension,
  invalid_p2_extension, invalid_instruction, unexpected_instruction, success,
}
use app_exchange.Context.{Context, raw_transaction, raw_transaction_size}
use app_exchange.Context.Memory.{Layout, as_raw}

-- The three locals that the `switch` of `check_instruction` sets; `none` is -1, any state.
pub record Requirement : Type 0 where
  pub check_current_state : Option State
  pub check_subcommand_context : Bool
  pub allowed_during_waiting_for_signing : Bool

in_state : State → Option Requirement
in_state s = some (record {
  check_current_state = some s;
  check_subcommand_context = true;
  allowed_during_waiting_for_signing = false;
})

-- The `switch`; `none` is its `default`, an unknown instruction.
unfoldable pub requirement : Instruction → Option Requirement
unfolding in_state
requirement get_version_command = some (record {
  check_current_state = none;
  check_subcommand_context = false;
  allowed_during_waiting_for_signing = false;
})
requirement start_new_transaction_command = some (record {
  check_current_state = none;
  check_subcommand_context = false;
  allowed_during_waiting_for_signing = true;
})
requirement set_partner_key_command = in_state waiting_transaction
requirement check_partner_command = in_state provider_set
requirement process_transaction_response_command = in_state provider_checked
requirement check_transaction_signature_command = in_state transaction_received
requirement get_challenge = in_state signature_checked
requirement send_trusted_name_descriptor = in_state signature_checked
requirement check_payout_address = in_state signature_checked
requirement check_asset_in_and_display = in_state signature_checked
requirement check_asset_in_no_display = in_state signature_checked
requirement check_refund_address_and_display = in_state payout_address_checked
requirement check_refund_address_no_display = in_state payout_address_checked
requirement prompt_ui_display = in_state all_addresses_checked
requirement start_signing_transaction = some (record {
  check_current_state = some waiting_signing;
  check_subcommand_context = true;
  allowed_during_waiting_for_signing = true;
})
requirement unknown = none

-- The five early returns: instructions that belong to one kind of flow only.
unfoldable pub refused_for_flow : Instruction → Subcommand → Bool
refused_for_flow check_asset_in_and_display subcommand = is_swap subcommand
refused_for_flow check_asset_in_no_display subcommand = is_swap subcommand
refused_for_flow check_payout_address subcommand = not (is_swap subcommand)
refused_for_flow get_challenge subcommand = not (is_swap subcommand)
refused_for_flow send_trusted_name_descriptor subcommand = not (is_swap subcommand)
refused_for_flow check_refund_address_and_display subcommand = not (is_swap subcommand)
refused_for_flow check_refund_address_no_display subcommand = not (is_swap subcommand)
refused_for_flow _ subcommand = false

wrong_state : Option State → State → Bool
wrong_state none s = false
wrong_state (some required) s = not (state_eq s required)

-- The four guards behind the `switch`.
unfoldable pub check_requirement : Context → Requirement → Subcommand → Option SwapError
unfolding wrong_state
check_requirement ctx r subcommand =
    if state_eq ctx.state waiting_user_validation
    then some unexpected_instruction
    else if not r.allowed_during_waiting_for_signing && state_eq ctx.state waiting_signing
    then some unexpected_instruction
    else if r.check_subcommand_context && not (subcommand_eq subcommand ctx.subcommand)
    then some unexpected_instruction
    else if wrong_state r.check_current_state ctx.state
    then some unexpected_instruction
    else none

-- `none` is the result 0.
unfoldable pub check_instruction : Context → Instruction → Subcommand → Option SwapError
check_instruction ctx instruction subcommand =
    if refused_for_flow instruction subcommand
    then some invalid_instruction
    else elim (requirement instruction) [
      | none ↦ some invalid_instruction
      | some r ↦ check_requirement ctx r subcommand
    ]
