-- ===== src/Protocol/Commands.antt =====
-- The fields of a command APDU (src/commands.h). An enumerator is the byte that stands for it.
use app_exchange.Common.{
  ℕ, ◌≡◌, Bool, true, ◌==◌, ◌||◌, if◌then◌else◌, Option, none, some, List, arith,
}

-- `check_payout_address` is also CHECK_ASSET_IN_LEGACY_AND_DISPLAY, which has the same value.
-- `unknown` is any byte that is no enumerator; no instruction gets past `check_instruction` with it.
pub data Instruction : Type 0 where
  get_version_command start_new_transaction_command set_partner_key_command : Instruction
  check_partner_command process_transaction_response_command : Instruction
  check_transaction_signature_command get_challenge send_trusted_name_descriptor : Instruction
  check_payout_address check_asset_in_and_display check_asset_in_no_display : Instruction
  check_refund_address_and_display check_refund_address_no_display : Instruction
  prompt_ui_display start_signing_transaction : Instruction
  unknown : Instruction

unfoldable pub instruction_of_byte : ℕ → Instruction
instruction_of_byte b =
    if b == 0x02
    then get_version_command
    else if b == 0x03
    then start_new_transaction_command
    else if b == 0x04
    then set_partner_key_command
    else if b == 0x05
    then check_partner_command
    else if b == 0x06
    then process_transaction_response_command
    else if b == 0x07
    then check_transaction_signature_command
    else if b == 0x10
    then get_challenge
    else if b == 0x11
    then send_trusted_name_descriptor
    else if b == 0x08
    then check_payout_address
    else if b == 0x0B
    then check_asset_in_and_display
    else if b == 0x0D
    then check_asset_in_no_display
    else if b == 0x09
    then check_refund_address_and_display
    else if b == 0x0C
    then check_refund_address_no_display
    else if b == 0x0F
    then prompt_ui_display
    else if b == 0x0A
    then start_signing_transaction
    else unknown

abbrev pub instruction_byte : Instruction → ℕ
instruction_byte get_version_command = 0x02
instruction_byte start_new_transaction_command = 0x03
instruction_byte set_partner_key_command = 0x04
instruction_byte check_partner_command = 0x05
instruction_byte process_transaction_response_command = 0x06
instruction_byte check_transaction_signature_command = 0x07
instruction_byte get_challenge = 0x10
instruction_byte send_trusted_name_descriptor = 0x11
instruction_byte check_payout_address = 0x08
instruction_byte check_asset_in_and_display = 0x0B
instruction_byte check_asset_in_no_display = 0x0D
instruction_byte check_refund_address_and_display = 0x09
instruction_byte check_refund_address_no_display = 0x0C
instruction_byte prompt_ui_display = 0x0F
instruction_byte start_signing_transaction = 0x0A
instruction_byte unknown = 0

abbrev pub instruction_eq : Instruction → Instruction → Bool
instruction_eq i j = instruction_byte i == instruction_byte j

pub data Rate : Type 0 where
  fixed floating : Rate

unfoldable pub rate_of_byte : ℕ → Option Rate
rate_of_byte b = if b == 0x00 then some fixed else if b == 0x01 then some floating else none

abbrev pub rate_byte : Rate → ℕ
rate_byte fixed = 0x00
rate_byte floating = 0x01

abbrev pub rate_eq : Rate → Rate → Bool
rate_eq r s = rate_byte r == rate_byte s

pub data Subcommand : Type 0 where
  swap sell fund swap_ng sell_ng fund_ng : Subcommand

unfoldable pub subcommand_of_byte : ℕ → Option Subcommand
subcommand_of_byte b =
    if b == 0x00
    then some swap
    else if b == 0x01
    then some sell
    else if b == 0x02
    then some fund
    else if b == 0x03
    then some swap_ng
    else if b == 0x04
    then some sell_ng
    else if b == 0x05
    then some fund_ng
    else none

abbrev pub subcommand_byte : Subcommand → ℕ
subcommand_byte swap = 0x00
subcommand_byte sell = 0x01
subcommand_byte fund = 0x02
subcommand_byte swap_ng = 0x03
subcommand_byte sell_ng = 0x04
subcommand_byte fund_ng = 0x05

abbrev pub subcommand_eq : Subcommand → Subcommand → Bool
subcommand_eq s t = subcommand_byte s == subcommand_byte t

-- The tests `s == SWAP || s == SWAP_NG` and the like, which the handlers repeat.
abbrev pub is_swap : Subcommand → Bool
is_swap s = subcommand_eq s swap || subcommand_eq s swap_ng

abbrev pub is_sell : Subcommand → Bool
is_sell s = subcommand_eq s sell || subcommand_eq s sell_ng

abbrev pub is_fund : Subcommand → Bool
is_fund s = subcommand_eq s fund || subcommand_eq s fund_ng

-- `command_t`; the bytes of `buf_t data` are the list, its size their number.
pub record Command : Type 0 where
  pub ins : Instruction
  pub rate : Rate
  pub subcommand : Subcommand
  pub payload : List ℕ

pub instruction_eq→eq : (i j : Instruction) → instruction_eq i j ≡ true → i ≡ j
instruction_eq→eq i j h = ground arith

pub subcommand_eq→eq : (s t : Subcommand) → subcommand_eq s t ≡ true → s ≡ t
subcommand_eq→eq s t h = ground arith
