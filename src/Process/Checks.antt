-- ===== src/Process/Checks.antt =====
-- The checks on the decoded transaction and its normalization.
use app_exchange.Common.{
  ℕ, zero, suc, ◌-◌, Bool, true, false, not, ◌&&◌, ◌==◌, if◌then◌else◌, List, [], ◌∷◌, length, take,
  drop, get_or, replicate, write_at, bytes_eq,
}
use app_exchange.Protocol.Commands.{Subcommand, swap, subcommand_eq, is_swap, is_sell, is_fund}
use app_exchange.Context.{
  Context, PbBytes, SwapTransaction, SellTransaction, FundTransaction, Transaction,
  swap_transaction, sell_transaction, fund_transaction,
}
use app_exchange.Context.Memory.{Layout, as_swap, as_sell, as_fund}
use app_exchange.Platform.{Platform}
use app_exchange.Ticker.{normalize_currency}

-- The number of leading zeros among the first `size` bytes.
unfoldable pub leading_zeros : List ℕ → ℕ → ℕ
leading_zeros bytes zero = 0
leading_zeros [] (suc size) = 0
leading_zeros (b ∷ bytes) (suc size) = if b == 0 then suc (leading_zeros bytes size) else 0

-- `memmove` of what is left to the front; the end of the array keeps its bytes.
unfoldable pub trim_pb_bytes_array : PbBytes → PbBytes
trim_pb_bytes_array t =
    let i = leading_zeros t.bytes t.size in
    if i == 0
    then t
    else let size = t.size - i in
      record { size = size; bytes = write_at t.bytes 0 (take size (drop i t.bytes)) }

unfoldable pub has_extra_data : PbBytes → Bool
has_extra_data extra = not (extra.size == 0) && not (extra.size == 1 && get_or extra.bytes 0 0 == 0)

unfoldable pub check_extra_id_extra_data : Platform → Subcommand → Context → Bool
check_extra_id_extra_data p subcommand ctx =
    if not (is_swap subcommand)
    then true
    else let t = as_swap p.layout ctx.transaction in
      let has_extra_id = not (get_or t.payin_extra_id 0 0 == 0) in
      if has_extra_id && has_extra_data t.payin_extra_data
      then false
      else if not (has_extra_data t.payin_extra_data)
      then true
      else if p.target_nanos
      then false
      else t.payin_extra_data.size == 33

-- The transaction identifier of the message, for the flows that have one of 32 bytes.
unfoldable pub received_id : Platform → Subcommand → Transaction → PbBytes
received_id p subcommand t =
    if is_sell subcommand
    then (as_sell p.layout t).device_transaction_id
    else if is_fund subcommand
    then (as_fund p.layout t).device_transaction_id
    else (as_swap p.layout t).device_transaction_id_ng

-- The identifier that the device has drawn against the one of the message.
unfoldable pub ids_match : Platform → Subcommand → List ℕ → Transaction → Bool
ids_match p subcommand drawn transaction =
    if subcommand_eq subcommand swap
    then (let received = (as_swap p.layout transaction).device_transaction_id in
        if not (get_or received 10 0 == 0)
        then false
        else bytes_eq (take 10 drawn) (take 10 received))
    else (let received = received_id p subcommand transaction in
        if not (received.size == 32)
        then false
        else bytes_eq (take 32 drawn) (take 32 received.bytes))

unfoldable pub check_transaction_id : Platform → Subcommand → Context → Bool
check_transaction_id p subcommand ctx =
    ids_match p subcommand ctx.device_transaction_id ctx.transaction

-- The loop that strips the header of a CashAddr-like address: the bytes behind the first ':' move to
-- the front, and the end of the array keeps its bytes.
unfoldable pub after_colon : List ℕ → List ℕ
after_colon [] = []
after_colon (c ∷ s) = if c == b':' then s else after_colon s

unfoldable pub strip_header : List ℕ → List ℕ
strip_header address = write_at address 0 (after_colon address)

unfoldable pub normalize_swap : SwapTransaction → SwapTransaction
normalize_swap t = record t {
  currency_from = normalize_currency t.currency_from;
  currency_to = normalize_currency t.currency_to;
  payin_address = strip_header t.payin_address;
}

unfoldable pub normalize_sell : SellTransaction → SellTransaction
normalize_sell t = record t { in_currency = normalize_currency t.in_currency }

unfoldable pub normalize_fund : FundTransaction → FundTransaction
normalize_fund t = record t { in_currency = normalize_currency t.in_currency }

unfoldable pub trim_swap : SwapTransaction → SwapTransaction
trim_swap t = record t {
  amount_to_provider = trim_pb_bytes_array t.amount_to_provider;
  amount_to_wallet = trim_pb_bytes_array t.amount_to_wallet;
}

unfoldable pub trim_sell : SellTransaction → SellTransaction
trim_sell t = record t { in_amount = trim_pb_bytes_array t.in_amount }

unfoldable pub trim_fund : FundTransaction → FundTransaction
trim_fund t = record t { in_amount = trim_pb_bytes_array t.in_amount }

-- `normalize_currencies` and `trim_amounts`: a change of the member that the flow uses.
abbrev pub update_transaction :
    (SwapTransaction → SwapTransaction)
    → (SellTransaction → SellTransaction)
    → (FundTransaction → FundTransaction)
    → Layout
    → Subcommand
    → Transaction
    → Transaction
update_transaction on_swap on_sell on_fund l subcommand t =
    if is_swap subcommand
    then swap_transaction (on_swap (as_swap l t))
    else if is_sell subcommand
    then sell_transaction (on_sell (as_sell l t))
    else fund_transaction (on_fund (as_fund l t))

unfoldable pub normalize_currencies : Layout → Subcommand → Transaction → Transaction
normalize_currencies = update_transaction normalize_swap normalize_sell normalize_fund

unfoldable pub trim_amounts : Layout → Subcommand → Transaction → Transaction
trim_amounts = update_transaction trim_swap trim_sell trim_fund

unfoldable pub save_fees : List ℕ → Context → Context
save_fees fees ctx = record ctx {
  transaction_fee_length = length fees;
  transaction_fee = write_at (replicate 16 0) 0 fees;
}
