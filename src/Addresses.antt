-- ===== src/Addresses.antt =====
-- src/check_addresses_and_amounts.c: the coin configuration of a step, the address check and the
-- formatting of the amounts, with the help of the coin application.
pub mod Amounts
pub mod Ownership
pub mod Keeping
use app_exchange.Common.{
  ℕ, ◌+◌, ◌-◌, Bool, true, false, not, ◌&&◌, ◌||◌, ◌==◌, if◌then◌else◌, List, [], ◌∷◌, ◌++◌, Option,
  none, some, length, take, get_or, replicate, write_at, c_string,
}
use app_exchange.Protocol.States.{payout_address_checked, all_addresses_checked}
use app_exchange.Protocol.Errors.{
  SwapError, incorrect_command_data, sign_verification_fail, invalid_address, internal_error,
  success,
}
use app_exchange.Protocol.Commands.{
  Instruction, check_payout_address, check_asset_in_and_display, check_refund_address_and_display,
  instruction_eq, Subcommand, is_swap, is_sell, is_fund, Command,
}
use app_exchange.CoinConfig.{CoinConfig, parse_coin_config}
use app_exchange.CheckAddressMessage.{CheckAddressMessage, parse_check_address_message}
use app_exchange.Ticker.{check_matching_ticker}
use app_exchange.Context.{Context}
use app_exchange.Context.Memory.{as_swap, as_sell, as_fund}
use app_exchange.Platform.{Platform, Env}
use app_exchange.Handler.{
  M, value, after, ◌>>=◌, ◌>>◌, fail, require, from_option, read, modify, done, Outcome, conclude,
  conclude_display, status_only, enter,
}
use app_exchange.LibCalls.{LibResult, failed, output, check_address}
use Amounts.{format_relevant_amount, format_fees, format_fiat_amount, format_account_name}

-- The status of the hash is not looked at; the signature is checked on what the buffer holds.
unfoldable pub check_coin_configuration_signature : Platform → List ℕ → List ℕ → Context → Bool
check_coin_configuration_signature p config der ctx =
    p.ecdsa_verify ctx.ledger_public_key (p.sha256 config).1 der

-- The ticker that the step's configuration has to be for.
unfoldable pub expected_currency : Platform → Command → Context → List ℕ
expected_currency p cmd ctx =
    if is_swap cmd.subcommand
    then (if instruction_eq cmd.ins check_payout_address
        then (as_swap p.layout ctx.transaction).currency_to
        else (as_swap p.layout ctx.transaction).currency_from)
    else if is_sell cmd.subcommand
    then (as_sell p.layout ctx.transaction).in_currency
    else (as_fund p.layout ctx.transaction).in_currency

unfoldable pub check_received_ticker_matches_context : Platform → List ℕ → Command → Context → Bool
check_received_ticker_matches_context p ticker cmd ctx =
    check_matching_ticker ticker (expected_currency p cmd ctx)

-- The address to check and its extra identifier.
unfoldable pub address_to_check : Platform → Instruction → Context → List ℕ × List ℕ
address_to_check p ins ctx =
    let t = as_swap p.layout ctx.transaction in
    if instruction_eq ins check_payout_address
    then (t.payout_address, t.payout_extra_id)
    else (t.refund_address, t.refund_extra_id)

-- The last byte of the array, at index 150, has to be the terminator.
unfoldable pub check_payout_or_refund_address :
    Platform → Env → Instruction → List ℕ → List ℕ → List ℕ → M (LibResult (Unit {0}))
check_payout_or_refund_address p env ins config parameters application_name ctx =
    let (address, extra_id) = address_to_check p ins ctx in
    if not (get_or address 150 0 == 0)
    then (value (failed incorrect_command_data), ctx)
    else check_address env
        (record {
          application_name = c_string application_name;
          coin_configuration = config;
          address_parameters = parameters;
          address_to_check = c_string address;
          extra_id_to_check = c_string extra_id;
        })
        ctx

-- A payout address that is not this device's leads to a warning; any other failure ends the step.
unfoldable pub after_address_check : Instruction → LibResult (Unit {0}) → M (Unit {0})
after_address_check ins (output _) ctx = (value tt, ctx)
after_address_check ins (failed invalid_address) ctx =
    if instruction_eq ins check_payout_address
    then (value tt, record ctx { other_seed_payout = true })
    else fail invalid_address ctx
after_address_check ins (failed e) ctx = fail e ctx

-- `application_name`: the name in a zeroed buffer of 33 bytes.
abbrev pub name_buffer : List ℕ → List ℕ
name_buffer name = write_at (replicate 33 0) 0 name

-- What is kept for the signature, unless the step is about the payout.
unfoldable pub save_paying_coin : Command → CoinConfig → Context → Context
save_paying_coin cmd config ctx =
    if instruction_eq cmd.ins check_payout_address then ctx else record ctx {
      payin_binary_name = name_buffer config.application_name;
      paying_sub_coin_config_size = length config.sub_configuration;
      paying_sub_coin_config = write_at (replicate 64 0) 0 config.sub_configuration;
      rate = cmd.rate;
    }

-- The rest of the handler: from the amounts that only a sale or a funding has, from the amounts of
-- the coin application, from the address check, and from the check of the configuration on.
unfoldable pub format_others : Platform → Command → CoinConfig → M (Unit {0})
format_others p cmd config = do
  selling ← read (λ ctx. is_sell ctx.subcommand)
  if selling then format_fiat_amount p else done
  funding ← read (λ ctx. is_fund ctx.subcommand)
  if funding then format_account_name p else done
  modify (save_paying_coin cmd config)

unfoldable pub format_amounts : Platform → Env → Command → CoinConfig → M (Unit {0})
format_amounts p env cmd config = do
  let name = name_buffer config.application_name
  format_relevant_amount p env cmd.ins config.sub_configuration name
  if instruction_eq cmd.ins check_payout_address
      then done
      else format_fees p env config.sub_configuration name
  format_others p cmd config

-- The address, which only a swap has.
unfoldable pub check_own_address : Platform → Env → Command → CoinConfig → List ℕ → M (Unit {0})
check_own_address p env cmd config parameters ctx =
    if is_swap ctx.subcommand
    then after
        (check_payout_or_refund_address p env cmd.ins config.sub_configuration parameters
          (name_buffer config.application_name) ctx)
        (after_address_check cmd.ins)
    else (value tt, ctx)

unfoldable pub check_configured : Platform → Env → Command → CoinConfig → List ℕ → M (Unit {0})
check_configured p env cmd config parameters = do
  matches ← read (check_received_ticker_matches_context p config.ticker cmd)
  require matches incorrect_command_data
  check_own_address p env cmd config parameters
  format_amounts p env cmd config

unfoldable pub check_message : Platform → Env → Command → CheckAddressMessage → M (Unit {0})
check_message p env cmd message = do
  verified ← read (check_coin_configuration_signature p message.config message.der)
  require verified sign_verification_fail
  config ← from_option (parse_coin_config p.u2be message.config) incorrect_command_data
  check_configured p env cmd config message.address_parameters

unfoldable pub check_addresses_steps : Platform → Env → Command → M (Unit {0})
check_addresses_steps p env cmd = do
  message ← from_option (parse_check_address_message p.u2be cmd.payload) incorrect_command_data
  check_message p env cmd message

abbrev pub displays : Instruction → Bool
displays ins =
    instruction_eq ins check_asset_in_and_display
    || instruction_eq ins check_refund_address_and_display

-- Only the commands that display leave the reply to the user's choice.
unfoldable pub check_addresses_and_amounts : Platform → Env → Command → Context → Outcome
unfolding check_addresses_steps conclude conclude_display
check_addresses_and_amounts p env cmd ctx =
    if displays cmd.ins
    then conclude_display env (check_addresses_steps p env cmd ctx)
    else conclude env (status_only success)
        (enter (
          if instruction_eq cmd.ins check_payout_address
          then payout_address_checked
          else all_addresses_checked))
        (check_addresses_steps p env cmd ctx)
