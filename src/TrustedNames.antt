-- ===== src/TrustedNames.antt =====
-- src/trusted_name_descriptor_handler.c: replacing an address by the one that a signed descriptor
-- resolves it to. The TLV parser, which checks the descriptor's signature, is the SDK's.
use app_exchange.Common.{
  ℕ, Bool, ◌&&◌, ◌||◌, ◌==◌, ltb, if◌then◌else◌, List, length, replicate, write_at, c_string,
  bytes_eq,
}
use app_exchange.Protocol.Errors.{
  internal_error, wrong_trusted_name_tlv, missing_tlv_content, wrong_tlv_challenge,
  wrong_tlv_content, descriptor_not_used, success,
}
use app_exchange.Protocol.Commands.{is_swap, Command}
use app_exchange.Context.{Context, SwapTransaction, swap_transaction}
use app_exchange.Context.Memory.{as_swap}
use app_exchange.Platform.{Platform, Env, TrustedName}
use app_exchange.Handler.{
  M, value, refuse, ◌>>=◌, ◌>>◌, require, read, modify, Outcome, conclude, status_only,
}

-- Whether the descriptor's name is the address at hand, and its owner fits in the array.
unfoldable pub name_applies : List ℕ → List ℕ → List ℕ → Bool
name_applies current trusted_name owner =
    let address = c_string current in
    length trusted_name == length address
    && (bytes_eq trusted_name address && ltb (length owner) (length current))

unfoldable pub apply_trusted_name : List ℕ → List ℕ → List ℕ → List ℕ
apply_trusted_name current trusted_name owner =
    if name_applies current trusted_name owner
    then write_at (replicate (length current) 0) 0 owner
    else current

unfoldable pub apply_to_addresses : TrustedName → SwapTransaction → SwapTransaction
apply_to_addresses d t = record t {
  payout_address = apply_trusted_name t.payout_address d.trusted_name d.address;
  refund_address = apply_trusted_name t.refund_address d.trusted_name d.address;
}

unfoldable pub is_applied : TrustedName → SwapTransaction → Bool
is_applied d t =
    name_applies t.payout_address d.trusted_name d.address
    || name_applies t.refund_address d.trusted_name d.address

require_success : TrustedName → M (Unit {0})
require_success d ctx =
    if d.is_success
    then (value tt, ctx)
    else (refuse (record { body = d.status_bytes; status = wrong_trusted_name_tlv }), ctx)

unfoldable pub trusted_name_steps : Platform → ℕ → Command → M (Unit {0})
unfolding require_success
trusted_name_steps p challenge cmd = do
  swapping ← read (λ ctx. is_swap ctx.subcommand)
  require swapping internal_error
  let d = p.trusted_name cmd.payload
  require_success d
  require d.challenge_received missing_tlv_content
  require (d.challenge == challenge) wrong_tlv_challenge
  require d.is_context_address wrong_tlv_content
  require d.is_dynamic_resolver wrong_tlv_content
  applied ← read (λ ctx. is_applied d (as_swap p.layout ctx.transaction))
  modify (λ ctx. record ctx {
    transaction =
        if is_applied d (as_swap p.layout ctx.transaction)
        then swap_transaction (apply_to_addresses d (as_swap p.layout ctx.transaction))
        else ctx.transaction;
  })
  require applied descriptor_not_used

-- The wrapper that draws a new challenge after every descriptor stands in the main loop's model.
unfoldable pub trusted_name_descriptor_handler : Platform → Env → ℕ → Command → Context → Outcome
unfolding trusted_name_steps conclude
trusted_name_descriptor_handler p env challenge cmd ctx =
    conclude env (status_only success) (λ c. c) (trusted_name_steps p challenge cmd ctx)
