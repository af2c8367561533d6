-- ===== src/Flow.antt =====
-- The exchange as a state machine: which states of src/states.h follow each other, and on what.
pub mod Handlers
pub mod Refines
pub mod Seen
pub mod Warned
pub mod History
pub mod Approval
pub mod Faithful
use app_exchange.Common.{◌≢◌, Bool, true, false}
use app_exchange.Protocol.States.{
  State, initial_state, waiting_transaction, provider_set, provider_checked, transaction_received,
  signature_checked, payout_address_checked, all_addresses_checked, waiting_user_validation,
  waiting_signing, sign_finished,
}
use app_exchange.Protocol.Commands.{
  Instruction, start_new_transaction_command, set_partner_key_command, check_partner_command,
  process_transaction_response_command, check_transaction_signature_command, check_payout_address,
  check_asset_in_and_display, check_asset_in_no_display, check_refund_address_and_display,
  check_refund_address_no_display, prompt_ui_display, start_signing_transaction,
}

-- What the device reacts to: a command that it runs, an APDU that it refuses before that, a choice of
-- the user, or a failure below the application.
pub data Trigger : Type 0 where
  command : Instruction → Trigger
  refused_apdu failure : Trigger
  answer : Bool → Trigger

-- The flow chart of the exchange. Whatever happens may leave the state, and a command may be the end
-- of the exchange.
pub data Moves : Trigger → State → State → Type 0 where
  stay : {t : Trigger} {s : State} → Moves t s s
  end : {i : Instruction} {s : State} → Moves (command i) s initial_state
  lose : {s : State} → Moves failure s initial_state
  start :
      {s : State}
      → s ≢ waiting_user_validation
      → Moves (command start_new_transaction_command) s waiting_transaction
  set_key : Moves (command set_partner_key_command) waiting_transaction provider_set
  check_key : Moves (command check_partner_command) provider_set provider_checked
  receive :
      Moves (command process_transaction_response_command) provider_checked transaction_received
  verify :
      Moves (command check_transaction_signature_command) transaction_received signature_checked
  check_payout : Moves (command check_payout_address) signature_checked payout_address_checked
  check_asset : Moves (command check_asset_in_no_display) signature_checked all_addresses_checked
  check_refund :
      Moves (command check_refund_address_no_display) payout_address_checked all_addresses_checked
  show_asset : Moves (command check_asset_in_and_display) signature_checked waiting_user_validation
  show_refund :
      Moves
        (command check_refund_address_and_display)
        payout_address_checked
        waiting_user_validation
  show : Moves (command prompt_ui_display) all_addresses_checked waiting_user_validation
  approve : Moves (answer true) waiting_user_validation waiting_signing
  reject : Moves (answer false) waiting_user_validation initial_state
  finish : Moves (command start_signing_transaction) waiting_signing sign_finished
