-- ===== src/Context.antt =====
-- src/globals.h and the message structs of src/proto/protocol.pb.h: the application's context.
-- A character array or a byte array is the list of its bytes, of the array's length.
pub mod Memory
use app_exchange.Common.{ℕ, Bool, false, List, [], ◌∷◌, replicate}
use app_exchange.Protocol.States.{State, initial_state}
use app_exchange.Protocol.Commands.{Subcommand, swap, Rate, fixed}

-- PB_BYTES_ARRAY_T(n): the bytes in use and the whole array.
pub record PbBytes : Type 0 where
  pub size : ℕ
  pub bytes : List ℕ

pub record SwapTransaction : Type 0 where
  pub payin_address : List ℕ
  pub payin_extra_id : List ℕ
  pub refund_address : List ℕ
  pub refund_extra_id : List ℕ
  pub payout_address : List ℕ
  pub payout_extra_id : List ℕ
  pub currency_from : List ℕ
  pub currency_to : List ℕ
  pub amount_to_provider : PbBytes
  pub amount_to_wallet : PbBytes
  pub device_transaction_id : List ℕ
  pub device_transaction_id_ng : PbBytes
  pub payin_extra_data : PbBytes

pub record UDecimal : Type 0 where
  pub coefficient : PbBytes
  pub exponent : ℕ

pub record SellTransaction : Type 0 where
  pub trader_email : List ℕ
  pub in_currency : List ℕ
  pub in_amount : PbBytes
  pub in_address : List ℕ
  pub out_currency : List ℕ
  pub out_amount : UDecimal
  pub device_transaction_id : PbBytes
  pub in_extra_id : List ℕ

pub record FundTransaction : Type 0 where
  pub user_id : List ℕ
  pub account_name : List ℕ
  pub in_currency : List ℕ
  pub in_amount : PbBytes
  pub in_address : List ℕ
  pub device_transaction_id : PbBytes
  pub in_extra_id : List ℕ

-- The union of the raw APDU and the decoded messages: the member that was written last.
pub data Transaction : Type 0 where
  raw_transaction : List ℕ → Transaction
  swap_transaction : SwapTransaction → Transaction
  sell_transaction : SellTransaction → Transaction
  fund_transaction : FundTransaction → Transaction

pub record Context : Type 0 where
  -- The union of `unified` and `swap`, its first ten bytes.
  pub device_transaction_id : List ℕ
  pub transaction_fee : List ℕ
  pub transaction_fee_length : ℕ
  -- The union of `prefixed_name` and `unprefixed_name`, its first 16 bytes.
  pub partner_name : List ℕ
  -- A key is the memory of its cx_ecfp_256_public_key_t.
  pub partner_public_key : List ℕ
  pub state : State
  pub subcommand : Subcommand
  pub rate : Rate
  pub transaction : Transaction
  pub sha256_digest_prefixed : List ℕ
  pub sha256_digest_no_prefix : List ℕ
  pub ledger_public_key : List ℕ
  pub paying_sub_coin_config_size : ℕ
  pub paying_sub_coin_config : List ℕ
  pub payin_binary_name : List ℕ
  -- The union of `printable_get_amount` and `account_name`.
  pub printable_get_amount : List ℕ
  pub printable_send_amount : List ℕ
  pub printable_fees_amount : List ℕ
  pub other_seed_payout : Bool

abbrev pub raw_transaction_size : ℕ
raw_transaction_size = 512

abbrev pub partner_name_size : ℕ
partner_name_size = 19

-- `memset(&G_swap_ctx, 0, sizeof(G_swap_ctx))`, for the sizes of the SDK's types.
unfoldable pub zeroed : ℕ → ℕ → Context
zeroed key_size printable_size = record {
  device_transaction_id = replicate 32 0;
  transaction_fee = replicate 16 0;
  transaction_fee_length = 0;
  partner_name = replicate partner_name_size 0;
  partner_public_key = replicate key_size 0;
  state = initial_state;
  subcommand = swap;
  rate = fixed;
  transaction = raw_transaction (replicate raw_transaction_size 0);
  sha256_digest_prefixed = replicate 32 0;
  sha256_digest_no_prefix = replicate 32 0;
  ledger_public_key = replicate key_size 0;
  paying_sub_coin_config_size = 0;
  paying_sub_coin_config = replicate 64 0;
  payin_binary_name = replicate 33 0;
  printable_get_amount = replicate printable_size 0;
  printable_send_amount = replicate printable_size 0;
  printable_fees_amount = replicate printable_size 0;
  other_seed_payout = false;
}
