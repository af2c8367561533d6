-- ===== src/Addresses/Amounts.antt =====
-- The amounts and the account name that are shown to the user.
use app_exchange.Common.{
  ℕ, ◌+◌, ◌-◌, Bool, true, false, leb, if◌then◌else◌, List, [], ◌∷◌, none, some, length, take, drop,
  write_at, c_string, strlcpy,
}
use app_exchange.Protocol.Errors.{internal_error}
use app_exchange.Protocol.Commands.{
  Instruction, check_payout_address, instruction_eq, is_swap, is_sell,
}
use app_exchange.Context.{Context, PbBytes}
use app_exchange.Context.Memory.{as_swap, as_sell, as_fund}
use app_exchange.Platform.{Platform, Env}
use app_exchange.Handler.{M, value, ◌>>=◌, ◌>>◌, fail, require, read, modify}
use app_exchange.LibCalls.{LibResult, failed, output, get_printable_amount}
use app_exchange.Amount.{get_fiat_printable_amount}

-- Whether the amount is the one received, and the amount itself.
unfoldable pub relevant_amount : Platform → Instruction → Context → Bool × PbBytes
relevant_amount p ins ctx =
    if is_swap ctx.subcommand
    then (if instruction_eq ins check_payout_address
        then (true, (as_swap p.layout ctx.transaction).amount_to_wallet)
        else (false, (as_swap p.layout ctx.transaction).amount_to_provider))
    else if is_sell ctx.subcommand
    then (false, (as_sell p.layout ctx.transaction).in_amount)
    else (false, (as_fund p.layout ctx.transaction).in_amount)

-- An error code ends the step; an output goes to where the call was asked to write it.
abbrev pub store : (List ℕ → Context → Context) → LibResult (List ℕ) → M (Unit {0})
store f (failed e) ctx = fail e ctx
store f (output text) ctx = (value tt, f text ctx)

unfoldable pub format_relevant_amount :
    Platform → Env → Instruction → List ℕ → List ℕ → M (Unit {0})
format_relevant_amount p env ins config application_name ctx =
    let (received, amount) = relevant_amount p ins ctx in
    (get_printable_amount p env
          (record {
            application_name = c_string application_name;
            coin_configuration = config;
            amount = take amount.size amount.bytes;
            is_fee = false;
          })
          (if received then ctx.printable_get_amount else ctx.printable_send_amount)
        >>= store (λ text c.
          if received
          then record c { printable_get_amount = text }
          else record c { printable_send_amount = text }))
      ctx

unfoldable pub format_fees : Platform → Env → List ℕ → List ℕ → M (Unit {0})
format_fees p env config application_name ctx =
    (get_printable_amount p env
          (record {
            application_name = c_string application_name;
            coin_configuration = config;
            amount = take ctx.transaction_fee_length ctx.transaction_fee;
            is_fee = true;
          })
          ctx.printable_fees_amount
        >>= store (λ text c. record c { printable_fees_amount = text }))
      ctx

-- The currency, a blank and the amount, in the memory of the received amount, and whether that has
-- been written to its end.
unfoldable pub fiat_text : Platform → Context → List ℕ × Bool
fiat_text p ctx =
    let t = as_sell p.layout ctx.transaction in
    let size = p.max_printable_amount_size in
    let len = length (c_string t.out_currency) in
    if leb size (len + 1)
    then (ctx.printable_get_amount, false)
    else let copied = strlcpy ctx.printable_get_amount (c_string t.out_currency) size in
      let start = write_at copied len (32 ∷ (0 ∷ [])) in
      elim (get_fiat_printable_amount
        (take t.out_amount.coefficient.size t.out_amount.coefficient.bytes) t.out_amount.exponent
        (drop (len + 1) start) (size - (len + 1))) [
          | none ↦ (start, false)
          | some text ↦ (write_at start (len + 1) text, true)
        ]

unfoldable pub format_fiat_amount : Platform → M (Unit {0})
format_fiat_amount p = do
  written ← read (λ ctx. (fiat_text p ctx).1)
  modify (λ ctx. record ctx { printable_get_amount = (fiat_text p ctx).0 })
  require written internal_error

-- `account_name` shares its memory with the received amount.
unfoldable pub format_account_name : Platform → M (Unit {0})
format_account_name p ctx =
    let size = p.max_printable_amount_size in
    let name = c_string (as_fund p.layout ctx.transaction).account_name in
    (
      value tt,
      record ctx {
        printable_get_amount =
            write_at (strlcpy ctx.printable_get_amount name size) (size - 1) (0 ∷ []);
      },
    )
