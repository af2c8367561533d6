-- ===== src/Scenarios.antt =====
-- Runs of the model at concrete inputs: a legacy swap on a concrete device, up to the signature.
mod Device
mod Parsing
mod Exchange
mod Flow
mod Amounts
mod Verdicts
mod Ownership
use app_exchange.Display.Bounds.{prepare_pairs_list_bounds}
use app_exchange.Display.{prepare_pairs_list}
use app_exchange.Trust.Run.{boot-IsSound}
use app_exchange.Trust.Approval.{run-SignsTrusted}
use app_exchange.Trust.Run.{step-IsSound}
use app_exchange.Trust.Calls.{calls_of}
use app_exchange.Application.Cycle.{boot}
use app_exchange.Trust.Display.{check_addresses_and_amounts-IsTrusted}
use app_exchange.Trust.Names.{trusted_name_descriptor_handler-IsTrusted}
use app_exchange.Application.Cycle.{step}
use app_exchange.Application.Cycle.{run}
use app_exchange.Addresses.{check_addresses_and_amounts}
use app_exchange.TrustedNames.{trusted_name_descriptor_handler}
use app_exchange.Trust.Run.{IsSound}
use app_exchange.Trust.Approval.{SignsTrusted}
use app_exchange.Application.{apdu, choice}
use app_exchange.Signature.{verify_signature}
use app_exchange.Signature.{der_of_der}
use app_exchange.Signature.{received_signature}
use app_exchange.Signature.{signature_form}
use app_exchange.Signature.{check_tx_signature_steps}
use app_exchange.Context.Memory.{as_swap}
use app_exchange.Session.{new_transaction_id}
use app_exchange.Session.{random_letters}
use app_exchange.Common.{bytes_eq}
use app_exchange.Handler.{conclude}
use app_exchange.Process.Checks.{has_extra_data}
use app_exchange.Process.Checks.{ids_match}
use app_exchange.Process.Checks.{check_transaction_id}
use app_exchange.Process.Checks.{check_extra_id_extra_data}
use app_exchange.Process.Payload.{deserialize_protobuf_payload}
use app_exchange.Process.Payload.{pb_decode}
use app_exchange.Process.Payload.{to_deserialize}
use app_exchange.Process.Payload.{calculate_sha256_digest}
use app_exchange.Process.Payload.{read_encoding}
use app_exchange.Process.Payload.{parse_transaction}
use app_exchange.Process.Checks.{save_fees}
use app_exchange.Process.{store_transaction}
use app_exchange.Process.{check_and_store}
use app_exchange.Process.{decode_and_store}
use app_exchange.Process.{hash_and_store}
use app_exchange.Process.{process_transaction_steps}
use app_exchange.Common.{
  ℕ, ◌∷◌, ◌≤◌, ◌<◌, ◌≡◌, ◌+◌, refl, sym, Bool, true, false, List, [], ◌++◌, Option, none, some,
  arith, length, take, drop, replicate, codes, inl, inr, ◌↔◌,
}
use Device.{device, device_layout, calm, u2be}
use app_exchange.Protocol.States.{
  state_value, provider_checked, provider_set, waiting_transaction, transaction_received,
  signature_checked,
}
use app_exchange.Protocol.Commands.{
  Command, Instruction, set_partner_key_command, check_partner_command,
  start_new_transaction_command, process_transaction_response_command,
  check_transaction_signature_command, check_payout_address, send_trusted_name_descriptor,
  Subcommand, swap, swap_ng, fixed,
}
use app_exchange.Context.{Context, zeroed}
use app_exchange.Trust.{IsTrusted}
use app_exchange.Trust.Partner.{
  start_new_transaction-IsTrusted, set_partner_key-IsTrusted, check_partner-IsTrusted,
}
use app_exchange.Trust.Process.{process_transaction-IsTrusted, check_tx_signature-IsTrusted}
use app_exchange.Session.{start_new_transaction}
use app_exchange.Partner.{set_partner_key, check_partner, parse_set_partner_key_command, read_curve}
use app_exchange.Buf.{parse_to_sized_buffer, read_size}
use app_exchange.Process.{process_transaction}
use app_exchange.Signature.{check_tx_signature}

abbrev command_of : Instruction → List ℕ → Command
command_of ins payload = record { ins = ins; rate = fixed; subcommand = swap; payload = payload }

abbrev start : Command
start = command_of start_new_transaction_command []

abbrev credentials : Command
credentials = command_of set_partner_key_command (4 ∷ (codes "ACME" ++ replicate 65 4))

abbrev signature_of : Instruction → Command
signature_of ins = command_of ins (0x30 ∷ (68 ∷ replicate 68 1))

abbrev proposal : Command
proposal = command_of process_transaction_response_command (3 ∷ (1 ∷ (2 ∷ (3 ∷ (1 ∷ (9 ∷ []))))))

abbrev bitcoin_config : List ℕ
bitcoin_config = 3 ∷ (codes "BTC" ++ (7 ∷ (codes "Bitcoin" ++ (0 ∷ []))))

-- The message of an address check: the configuration, Ledger's signature on it, the parameters.
abbrev payout_check : List ℕ
payout_check =
    length bitcoin_config
    ∷ (bitcoin_config ++ (0x30 ∷ (68 ∷ (replicate 68 1 ++ (2 ∷ (0 ∷ (1 ∷ [])))))))

abbrev start_apdu : List ℕ
start_apdu = 0xE0 ∷ (0x03 ∷ (0 ∷ (0 ∷ (0 ∷ []))))

abbrev context1 : Context
context1 = (start_new_transaction device calm start (zeroed 65 50)).context

abbrev context2 : Context
context2 = (set_partner_key device calm credentials context1).context

abbrev context3 : Context
context3 = (check_partner device calm (signature_of check_partner_command) context2).context

abbrev context4 : Context
context4 = (process_transaction device calm proposal context3).context

abbrev context5 : Context
context5 =
    (check_tx_signature device calm (signature_of check_transaction_signature_command)
      context4).context

trusted1 : IsTrusted device context1
trusted1 = start_new_transaction-IsTrusted device calm start (zeroed 65 50)

state1 : (context1.state ≡ waiting_transaction) × (context1.subcommand ≡ swap)
unfolding start_new_transaction
state1 = (refl, refl)

trusted2 : IsTrusted device context2
trusted2 = set_partner_key-IsTrusted device calm credentials context1 state1.0 state1.1 trusted1

state2 : (context2.state ≡ provider_set) × (context2.subcommand ≡ swap)
unfolding start_new_transaction set_partner_key parse_set_partner_key_command parse_to_sized_buffer
    read_size read_curve
state2 = (refl, refl)

trusted3 : IsTrusted device context3
trusted3 =
    check_partner-IsTrusted device calm (signature_of check_partner_command) context2 state2.0
      trusted2

check_partner-IsTrusted_example : IsTrusted device context3
check_partner-IsTrusted_example =
    check_partner-IsTrusted device calm (signature_of check_partner_command) context2 state2.0
      trusted2

state3 : (context3.state ≡ provider_checked) × (context3.subcommand ≡ swap)
unfolding start_new_transaction set_partner_key parse_set_partner_key_command parse_to_sized_buffer
    read_size read_curve check_partner
state3 = (refl, refl)

trusted4 : IsTrusted device context4
trusted4 = process_transaction-IsTrusted device calm proposal context3 state3.0 state3.1 trusted3

process_transaction-IsTrusted_example : IsTrusted device context4
process_transaction-IsTrusted_example =
    process_transaction-IsTrusted device calm proposal context3 state3.0 state3.1 trusted3

state4 : context4.state ≡ transaction_received
unfolding start_new_transaction set_partner_key parse_set_partner_key_command parse_to_sized_buffer
    read_size read_curve check_partner process_transaction process_transaction_steps hash_and_store
    decode_and_store check_and_store store_transaction save_fees parse_transaction read_encoding
    calculate_sha256_digest to_deserialize pb_decode deserialize_protobuf_payload
    check_extra_id_extra_data check_transaction_id ids_match has_extra_data conclude bytes_eq
    random_letters new_transaction_id as_swap zeroed
state4 = refl

check_tx_signature-IsTrusted_example : IsTrusted device context5
check_tx_signature-IsTrusted_example =
    check_tx_signature-IsTrusted device calm (signature_of check_transaction_signature_command)
      context4 state4 trusted4

trusted5 : IsTrusted device context5
trusted5 =
    check_tx_signature-IsTrusted device calm (signature_of check_transaction_signature_command)
      context4 state4 trusted4

state5 : 5 ≤ state_value context5.state
unfolding start_new_transaction set_partner_key parse_set_partner_key_command parse_to_sized_buffer
    read_size read_curve check_partner process_transaction process_transaction_steps hash_and_store
    decode_and_store check_and_store store_transaction save_fees parse_transaction read_encoding
    calculate_sha256_digest to_deserialize pb_decode deserialize_protobuf_payload
    check_extra_id_extra_data check_transaction_id ids_match has_extra_data conclude bytes_eq
    random_letters new_transaction_id as_swap zeroed check_tx_signature check_tx_signature_steps
    signature_form received_signature der_of_der verify_signature
state5 = omega arith

trusted_name_descriptor_handler-IsTrusted_example :
    IsTrusted device
      (trusted_name_descriptor_handler device calm 7
        (command_of send_trusted_name_descriptor [])
        context5).context
trusted_name_descriptor_handler-IsTrusted_example =
    trusted_name_descriptor_handler-IsTrusted device calm 7
      (command_of send_trusted_name_descriptor []) context5 state5 trusted5

step-IsSound_example : IsSound device (step device (boot device calm) (apdu calm start_apdu)).0
step-IsSound_example =
    step-IsSound device (boot device calm) (apdu calm start_apdu) (boot-IsSound device calm)

prepare_pairs_list_bounds_example :
    (4 ≤ length (prepare_pairs_list device context5))
    × (length (prepare_pairs_list device context5) ≤ 8)
prepare_pairs_list_bounds_example = prepare_pairs_list_bounds device context5
