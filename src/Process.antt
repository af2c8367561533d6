-- ===== src/Process.antt =====
-- src/process_transaction.c: the transaction that the partner proposes, from its bytes to the
-- decoded and normalized message in the context. The local copy that C makes of a command received
-- in chunks is the list `cmd.payload` itself, which no write to the union changes.
pub mod Payload
pub mod Framing
pub mod Acceptance
pub mod Unframing
pub mod Checks
pub mod Amounts
use app_exchange.Common.{ℕ, Bool, List}
use app_exchange.Protocol.States.{transaction_received}
use app_exchange.Protocol.Errors.{
  incorrect_command_data, internal_error, deserialization_failed, wrong_extra_id_or_extra_data,
  wrong_transaction_id, success,
}
use app_exchange.Protocol.Commands.{Command}
use app_exchange.Context.{Context}
use app_exchange.Platform.{Platform, Env}
use app_exchange.Handler.{
  M, value, refuse, ◌>>=◌, ◌>>◌, require, from_option, read, modify, Outcome, conclude, status_only,
  enter,
}
use Payload.{
  TransactionParts, parse_transaction, calculate_sha256_digest, deserialize_protobuf_payload,
}
use Checks.{
  check_extra_id_extra_data, check_transaction_id, normalize_currencies, trim_amounts, save_fees,
}

-- A step of the C code that changes the context and returns false on a failure.
abbrev pub step : (Context → Context × Bool) → M Bool
step f ctx = (value (f ctx).1, (f ctx).0)

-- What happens to a transaction that has passed the checks.
unfoldable pub store_transaction : Platform → Command → List ℕ → Context → Context
store_transaction p cmd fees ctx =
    let normalized = normalize_currencies p.layout cmd.subcommand ctx.transaction in
    save_fees fees (record ctx { transaction = trim_amounts p.layout cmd.subcommand normalized })

-- The rest of the handler, from `check_extra_id_extra_data`, from `deserialize_protobuf_payload` and
-- from `calculate_sha256_digest` on.
unfoldable pub check_and_store : Platform → Command → TransactionParts → M (Unit {0})
check_and_store p cmd parts = do
  extra_ok ← read (check_extra_id_extra_data p cmd.subcommand)
  require extra_ok wrong_extra_id_or_extra_data
  id_ok ← read (check_transaction_id p cmd.subcommand)
  require id_ok wrong_transaction_id
  modify (store_transaction p cmd parts.fees)

unfoldable pub decode_and_store : Platform → Command → TransactionParts → M (Unit {0})
decode_and_store p cmd parts = do
  decoded ←
      step (deserialize_protobuf_payload p cmd.subcommand parts.payload parts.needs_base64_decoding)
  require decoded deserialization_failed
  check_and_store p cmd parts

unfoldable pub hash_and_store : Platform → Command → TransactionParts → M (Unit {0})
hash_and_store p cmd parts = do
  hashed ← step (calculate_sha256_digest p parts.payload)
  require hashed internal_error
  decode_and_store p cmd parts

unfoldable pub process_transaction_steps : Platform → Command → M (Unit {0})
process_transaction_steps p cmd = do
  parts ← from_option (parse_transaction p.u2be cmd.subcommand cmd.payload) incorrect_command_data
  hash_and_store p cmd parts

unfoldable pub process_transaction : Platform → Env → Command → Context → Outcome
process_transaction p env cmd ctx =
    conclude env (status_only success) (enter transaction_received)
      (process_transaction_steps p cmd ctx)
