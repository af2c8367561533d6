-- ===== src/Scenarios/Ownership.antt =====
-- The payout check of the concrete swap.
use app_exchange.CheckAddressMessage.{parse_der_signature}
use app_exchange.CoinConfig.{check_der_signature_length, check_ticker_length, check_app_name_length}
use app_exchange.Handler.{start_ui_display}
use app_exchange.Handler.{conclude_display}
use app_exchange.Process.Checks.{leading_zeros}
use app_exchange.Process.Checks.{trim_pb_bytes_array}
use app_exchange.Process.Checks.{trim_swap}
use app_exchange.Process.Checks.{trim_amounts}
use app_exchange.Process.Checks.{after_colon}
use app_exchange.Process.Checks.{strip_header}
use app_exchange.Common.{c_string}
use app_exchange.Common.{strlcpy}
use app_exchange.Common.{strncmp_eq}
use app_exchange.Ticker.{apply_alias}
use app_exchange.Ticker.{uppercase_chars}
use app_exchange.Ticker.{to_uppercase}
use app_exchange.Ticker.{set_ledger_currency_name}
use app_exchange.Process.Checks.{normalize_swap}
use app_exchange.Process.Checks.{normalize_currencies}
use app_exchange.Ticker.{normalize_currency}
use app_exchange.Ticker.{normalized_ticker}
use app_exchange.Ticker.{check_matching_ticker}
use app_exchange.CoinConfig.{parse_coin_config}
use app_exchange.CheckAddressMessage.{parse_check_address_message}
use app_exchange.Addresses.{save_paying_coin}
use app_exchange.Addresses.{format_others}
use app_exchange.LibCalls.{accept_printable}
use app_exchange.LibCalls.{get_printable_amount}
use app_exchange.Addresses.Amounts.{relevant_amount}
use app_exchange.Addresses.Amounts.{format_relevant_amount}
use app_exchange.Addresses.{format_amounts}
use app_exchange.Addresses.{check_coin_configuration_signature}
use app_exchange.Addresses.{expected_currency}
use app_exchange.Addresses.{check_received_ticker_matches_context}
use app_exchange.Addresses.{address_to_check}
use app_exchange.Addresses.{after_address_check}
use app_exchange.LibCalls.{accept_address}
use app_exchange.LibCalls.{check_address}
use app_exchange.Addresses.{check_payout_or_refund_address}
use app_exchange.Addresses.{check_own_address}
use app_exchange.Addresses.{check_configured}
use app_exchange.Addresses.{check_message}
use app_exchange.Addresses.{check_addresses_steps}
use app_exchange.Signature.{verify_signature}
use app_exchange.Signature.{der_of_der}
use app_exchange.Signature.{received_signature}
use app_exchange.Signature.{signature_form}
use app_exchange.Signature.{check_tx_signature_steps}
use app_exchange.Signature.{check_tx_signature}
use app_exchange.Context.{zeroed}
use app_exchange.Context.Memory.{as_swap}
use app_exchange.Session.{new_transaction_id}
use app_exchange.Session.{random_letters}
use app_exchange.Common.{bytes_eq}
use app_exchange.Handler.{conclude}
use app_exchange.Process.Checks.{has_extra_data}
use app_exchange.Process.Checks.{ids_match}
use app_exchange.Process.Checks.{check_transaction_id}
use app_exchange.Process.Checks.{check_extra_id_extra_data}
use app_exchange.Process.Payload.{deserialize_protobuf_payload}
use app_exchange.Process.Payload.{pb_decode}
use app_exchange.Process.Payload.{to_deserialize}
use app_exchange.Process.Payload.{calculate_sha256_digest}
use app_exchange.Process.Payload.{read_encoding}
use app_exchange.Process.Payload.{parse_transaction}
use app_exchange.Process.Checks.{save_fees}
use app_exchange.Process.{store_transaction}
use app_exchange.Process.{check_and_store}
use app_exchange.Process.{decode_and_store}
use app_exchange.Process.{hash_and_store}
use app_exchange.Process.{process_transaction_steps}
use app_exchange.Process.{process_transaction}
use app_exchange.Partner.{check_partner}
use app_exchange.Partner.{read_curve}
use app_exchange.Buf.{read_size}
use app_exchange.Buf.{parse_to_sized_buffer}
use app_exchange.Partner.{parse_set_partner_key_command}
use app_exchange.Partner.{set_partner_key}
use app_exchange.Session.{start_new_transaction}
use app_exchange.Common.{arith, ◌≡◌, ◌≢◌, refl, sym, ◌∙◌}
use app_exchange.Protocol.States.{signature_checked, payout_address_checked}
use app_exchange.Protocol.Commands.{Command, check_payout_address}
use app_exchange.Addresses.{check_addresses_and_amounts}
use app_exchange.Addresses.Ownership.{IsChecked, check_addresses_and_amounts-IsChecked}
use app_exchange.Scenarios.Device.{device, calm}
use app_exchange.Scenarios.{context5, command_of, payout_check}

abbrev payout : Command
payout = command_of check_payout_address payout_check

before : context5.state ≡ signature_checked
unfolding start_new_transaction set_partner_key parse_set_partner_key_command parse_to_sized_buffer
    read_size read_curve check_partner process_transaction process_transaction_steps hash_and_store
    decode_and_store check_and_store store_transaction save_fees parse_transaction read_encoding
    calculate_sha256_digest to_deserialize pb_decode deserialize_protobuf_payload
    check_extra_id_extra_data check_transaction_id ids_match has_extra_data conclude bytes_eq
    random_letters new_transaction_id as_swap zeroed check_tx_signature check_tx_signature_steps
    signature_form received_signature der_of_der verify_signature
before = refl

after_check :
    (check_addresses_and_amounts device calm payout context5).context.state ≡ payout_address_checked
unfolding start_new_transaction set_partner_key parse_set_partner_key_command parse_to_sized_buffer
    read_size read_curve check_partner process_transaction process_transaction_steps hash_and_store
    decode_and_store check_and_store store_transaction save_fees parse_transaction read_encoding
    calculate_sha256_digest to_deserialize pb_decode deserialize_protobuf_payload
    check_extra_id_extra_data check_transaction_id ids_match has_extra_data conclude bytes_eq
    random_letters new_transaction_id as_swap zeroed check_tx_signature check_tx_signature_steps
    signature_form received_signature der_of_der verify_signature check_addresses_and_amounts
    check_addresses_steps check_message check_configured check_own_address
    check_payout_or_refund_address check_address accept_address after_address_check address_to_check
    check_received_ticker_matches_context expected_currency check_coin_configuration_signature
    format_amounts format_relevant_amount relevant_amount get_printable_amount accept_printable
    format_others save_paying_coin parse_check_address_message parse_coin_config
    check_matching_ticker normalized_ticker normalize_currency normalize_currencies normalize_swap
    set_ledger_currency_name to_uppercase uppercase_chars apply_alias strncmp_eq strlcpy c_string
    strip_header after_colon trim_amounts trim_swap trim_pb_bytes_array leading_zeros
    conclude_display start_ui_display parse_der_signature check_der_signature_length
    check_ticker_length check_app_name_length
after_check = refl

moved : (check_addresses_and_amounts device calm payout context5).context.state ≢ context5.state
moved e =
    let same : payout_address_checked ≡ signature_checked = sym after_check ∙ (e ∙ before) in
    absurd (ground arith)

check_addresses_and_amounts-IsChecked_example :
    IsChecked device calm payout context5
      (check_addresses_and_amounts device calm payout context5).context
check_addresses_and_amounts-IsChecked_example =
    check_addresses_and_amounts-IsChecked device calm payout context5 moved
