-- ===== src/Process/Payload.antt =====
-- Cutting the command into payload and fees, the digests, and the decoding of the payload.
use app_exchange.Common.{
  ℕ, Bool, true, false, not, ◌||◌, ◌==◌, ltb, if◌then◌else◌, List, [], ◌∷◌, Option, none, some,
  length,
}
use app_exchange.Common.Maybe.{◌>>=◌, ◌>>◌, guard}
use app_exchange.Protocol.Commands.{Subcommand, swap, sell, fund, subcommand_eq, is_swap, is_sell}
use app_exchange.Buf.{parse_to_sized_buffer, pop_uint8_from_buffer}
use app_exchange.Context.{
  Context, Transaction, swap_transaction, sell_transaction, fund_transaction,
}
use app_exchange.Platform.{Platform}

pub record TransactionParts : Type 0 where
  pub payload : List ℕ
  pub fees : List ℕ
  pub needs_base64_decoding : Bool

-- Whether the payload is base64, and the offset behind the selector of the NG flows.
unfoldable pub read_encoding : Subcommand → List ℕ → Option (Bool × ℕ)
read_encoding subcommand input =
    if subcommand_eq subcommand swap
    then some (false, 0)
    else if subcommand_eq subcommand sell || subcommand_eq subcommand fund
    then some (true, 0)
    else elim (pop_uint8_from_buffer input 0) [
      | none ↦ none
      | some (encoding_selector, offset) ↦
          if encoding_selector == 0x00
          then some (false, offset)
          else if encoding_selector == 0x01
          then some (true, offset)
          else none
    ]

abbrev pub payload_length_field_size : Subcommand → ℕ
payload_length_field_size subcommand =
    if subcommand_eq subcommand swap
      || (subcommand_eq subcommand sell || subcommand_eq subcommand fund)
    then 1
    else 2

unfoldable pub parse_transaction : (ℕ → ℕ → ℕ) → Subcommand → List ℕ → Option TransactionParts
parse_transaction u2be subcommand input = do
  (needs_base64_decoding, offset) ← read_encoding subcommand input
  (payload, after_payload) ←
      parse_to_sized_buffer u2be input (payload_length_field_size subcommand) offset
  (fees, read) ← parse_to_sized_buffer u2be input 1 after_payload
  guard (read == length input)
  guard (not (ltb 16 (length fees)))
  some (record { payload = payload; fees = fees; needs_base64_decoding = needs_base64_decoding })

-- The two digests, and whether each call of the hash has succeeded, in the order of the calls.
unfoldable pub calculate_sha256_digest : Platform → List ℕ → Context → Context × Bool
calculate_sha256_digest p payload ctx =
    if not (p.hash_update (b'.' ∷ []))
    then (ctx, false)
    else let prefixed = p.sha256 (b'.' ∷ payload) in
      let with_prefixed = record ctx { sha256_digest_prefixed = prefixed.1 } in
      if not prefixed.0
      then (with_prefixed, false)
      else let no_prefix = p.sha256 payload in
        (record with_prefixed { sha256_digest_no_prefix = no_prefix.1 }, no_prefix.0)

-- The bytes of the protobuf message. The C buffer for the decoded payload has 512 bytes.
unfoldable pub to_deserialize : Platform → List ℕ → Bool → Option (List ℕ)
to_deserialize p payload needs_base64_decoding =
    if not needs_base64_decoding then some payload else elim (p.base64_decode 512 payload) [
      | none ↦ none
      | some bytes ↦ if length bytes == 0 then none else some bytes
    ]

-- `pb_decode` into the member of the union that the flow uses. What a failed decoding leaves in the
-- struct stays in the union.
unfoldable pub pb_decode : Platform → Subcommand → List ℕ → Bool × Transaction
pb_decode p subcommand bytes =
    if is_swap subcommand
    then ((p.decode_swap bytes).0, swap_transaction (p.decode_swap bytes).1)
    else if is_sell subcommand
    then ((p.decode_sell bytes).0, sell_transaction (p.decode_sell bytes).1)
    else ((p.decode_fund bytes).0, fund_transaction (p.decode_fund bytes).1)

unfoldable pub deserialize_protobuf_payload :
    Platform → Subcommand → List ℕ → Bool → Context → Context × Bool
deserialize_protobuf_payload p subcommand payload needs_base64_decoding ctx =
    elim (to_deserialize p payload needs_base64_decoding) [
      | none ↦ (ctx, false)
      | some bytes ↦ (
        record ctx { transaction = (pb_decode p subcommand bytes).1 },
        (pb_decode p subcommand bytes).0,
      )
    ]
