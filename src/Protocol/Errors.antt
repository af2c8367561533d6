-- ===== src/Protocol/Errors.antt =====
-- The status words of a reply (src/swap_errors.h).
use app_exchange.Common.{ℕ}

pub data SwapError : Type 0 where
  incorrect_command_data deserialization_failed wrong_transaction_id invalid_address : SwapError
  user_refused_transaction internal_error wrong_p1 wrong_p2_subcommand : SwapError
  wrong_p2_extension invalid_p2_extension memory_corruption amount_formatting_failed : SwapError
  application_not_installed wrong_extra_id_or_extra_data wrong_tlv_challenge : SwapError
  wrong_tlv_content missing_tlv_content wrong_trusted_name_tlv user_refused_cross_seed : SwapError
  class_not_supported malformed_apdu invalid_data_length invalid_instruction : SwapError
  unexpected_instruction descriptor_not_used sign_verification_fail success : SwapError

unfoldable pub error_value : SwapError → ℕ
error_value incorrect_command_data = 0x6A80
error_value deserialization_failed = 0x6A81
error_value wrong_transaction_id = 0x6A82
error_value invalid_address = 0x6A83
error_value user_refused_transaction = 0x6A84
error_value internal_error = 0x6A85
error_value wrong_p1 = 0x6A86
error_value wrong_p2_subcommand = 0x6A87
error_value wrong_p2_extension = 0x6A88
error_value invalid_p2_extension = 0x6A89
error_value memory_corruption = 0x6A8A
error_value amount_formatting_failed = 0x6A8B
error_value application_not_installed = 0x6A8C
error_value wrong_extra_id_or_extra_data = 0x6A8D
error_value wrong_tlv_challenge = 0x6A8E
error_value wrong_tlv_content = 0x6A8F
error_value missing_tlv_content = 0x6A90
error_value wrong_trusted_name_tlv = 0x6A91
error_value user_refused_cross_seed = 0x6A92
error_value class_not_supported = 0x6E00
error_value malformed_apdu = 0x6E01
error_value invalid_data_length = 0x6E02
error_value invalid_instruction = 0x6D00
error_value unexpected_instruction = 0x6D01
error_value descriptor_not_used = 0x6D02
error_value sign_verification_fail = 0x9D1A
error_value success = 0x9000
