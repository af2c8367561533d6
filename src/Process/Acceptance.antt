-- ===== src/Process/Acceptance.antt =====
-- A proposal that passes every check is accepted.
use app_exchange.Handler.{value}
use app_exchange.Process.Framing.{parse_transaction-framed}
use app_exchange.Handler.{conclude}
use app_exchange.Common.{
  ℕ, ◌≤◌, ◌<◌, ◌≡◌, refl, ◌∙◌, true, List, [], ◌∷◌, some, length, replicate, write_at,
}
use app_exchange.Protocol.States.{transaction_received}
use app_exchange.Protocol.Errors.{success}
use app_exchange.Protocol.Commands.{Subcommand, Command}
use app_exchange.Context.{Context}
use app_exchange.Platform.{Platform, Env}
use app_exchange.Handler.{status_only}
use app_exchange.Process.Payload.{
  TransactionParts, to_deserialize, pb_decode, deserialize_protobuf_payload,
  calculate_sha256_digest,
}
use app_exchange.Process.Framing.{FramedAs}
use app_exchange.Process.Checks.{
  ids_match, check_extra_id_extra_data, check_transaction_id, save_fees,
}
use app_exchange.Process.{
  process_transaction, process_transaction_steps, hash_and_store, decode_and_store, check_and_store,
  store_transaction,
}
use app_exchange.Trust.{normal_form}

-- What the checks ask of the parts of a proposal, and of the message in it.
pub record IsAcceptable (p : Platform) (c : Subcommand) (ctx : Context) (parts : TransactionParts)
    : Type 0 where
  pub bytes : List ℕ
  pub hashes : p.hash_update (b'.' ∷ []) ≡ true
  pub hashes_prefixed : (p.sha256 (b'.' ∷ parts.payload)).0 ≡ true
  pub hashes_plain : (p.sha256 parts.payload).0 ≡ true
  pub decodes : to_deserialize p parts.payload parts.needs_base64_decoding ≡ some bytes
  pub is_message : (pb_decode p c bytes).0 ≡ true
  pub extra_data :
      check_extra_id_extra_data p c (record ctx { transaction = (pb_decode p c bytes).1 }) ≡ true
  pub has_id : ids_match p c ctx.device_transaction_id (pb_decode p c bytes).1 ≡ true

same_extra :
    (p : Platform) (c : Subcommand) (ctx ctx' : Context)
    → ctx.transaction ≡ ctx'.transaction
    → check_extra_id_extra_data p c ctx ≡ check_extra_id_extra_data p c ctx'
unfolding check_extra_id_extra_data
same_extra p c ctx ctx' e = rw e refl

-- The context behind the digests, and behind the decoding.
abbrev hashed : Platform → TransactionParts → Context → Context
hashed p parts ctx = record ctx {
  sha256_digest_prefixed = (p.sha256 (b'.' ∷ parts.payload)).1;
  sha256_digest_no_prefix = (p.sha256 parts.payload).1;
}

abbrev decoded : Platform → TransactionParts → Subcommand → List ℕ → Context → Context
decoded p parts c bytes ctx = record (hashed p parts ctx) { transaction = (pb_decode p c bytes).1 }

module _ (p : Platform) (cmd : Command) (ctx : Context) (parts : TransactionParts) where
  hash-passes :
      p.hash_update (b'.' ∷ []) ≡ true
      → (p.sha256 (b'.' ∷ parts.payload)).0 ≡ true
      → (p.sha256 parts.payload).0 ≡ true
      → hash_and_store p cmd parts ctx ≡ decode_and_store p cmd parts (hashed p parts ctx)
  unfolding hash_and_store calculate_sha256_digest
  hash-passes update prefixed plain = rw (update, prefixed, plain) refl

  deserialize-passes :
      (bytes : List ℕ)
      → to_deserialize p parts.payload parts.needs_base64_decoding ≡ some bytes
      → (pb_decode p cmd.subcommand bytes).0 ≡ true
      → deserialize_protobuf_payload p cmd.subcommand parts.payload parts.needs_base64_decoding ctx
        ≡ (record ctx { transaction = (pb_decode p cmd.subcommand bytes).1 }, true)
  unfolding deserialize_protobuf_payload
  deserialize-passes bytes decodes message =
      rw (decodes, deserialize_protobuf_payload) (rw message refl)

  decode-passes :
      (bytes : List ℕ)
      → to_deserialize p parts.payload parts.needs_base64_decoding ≡ some bytes
      → (pb_decode p cmd.subcommand bytes).0 ≡ true
      → decode_and_store p cmd parts ctx
        ≡ check_and_store p cmd parts
            (record ctx { transaction = (pb_decode p cmd.subcommand bytes).1 })
  unfolding decode_and_store
  decode-passes bytes decodes message = rw (deserialize-passes bytes decodes message) refl

  check-passes :
      check_extra_id_extra_data p cmd.subcommand ctx ≡ true
      → check_transaction_id p cmd.subcommand ctx ≡ true
      → check_and_store p cmd parts ctx ≡ (value tt, store_transaction p cmd parts.fees ctx)
  unfolding check_and_store
  check-passes extra id = rw (extra, id) refl

acceptable-passes :
    (p : Platform) (cmd : Command) (ctx : Context) (parts : TransactionParts)
    → (a : IsAcceptable p cmd.subcommand ctx parts)
    → hash_and_store p cmd parts ctx
      ≡ (value tt, store_transaction p cmd parts.fees (decoded p parts cmd.subcommand a.bytes ctx))
acceptable-passes p cmd ctx parts a =
    let after_hash = hashed p parts ctx in
    let after_decoding = decoded p parts cmd.subcommand a.bytes ctx in
    let plain : Context = record ctx { transaction = (pb_decode p cmd.subcommand a.bytes).1 } in
    hash-passes p cmd ctx parts a.hashes a.hashes_prefixed a.hashes_plain
    ∙ (decode-passes p cmd after_hash parts a.bytes a.decodes a.is_message
        ∙ check-passes p cmd after_decoding parts
            (same_extra p cmd.subcommand after_decoding plain refl ∙ a.extra_data)
            (unfold check_transaction_id in a.has_id))

-- If the reply can be sent, a command of less than 65536 bytes that is the frame of acceptable parts,
-- with at most 16 bytes of fees, is answered by SUCCESS; the state is TRANSACTION_RECEIVED, and the
-- context holds the normal form of the decoded message and the fees.
pub process_transaction-accepts :
    (p : Platform) (env : Env) (cmd : Command) (ctx : Context) (parts : TransactionParts)
    → length cmd.payload < 65536
    → FramedAs p.u2be cmd.subcommand cmd.payload parts
    → length parts.fees ≤ 16
    → (a : IsAcceptable p cmd.subcommand ctx parts) → env.sends (status_only success) ≡ true
    → let o = process_transaction p env cmd ctx in
      (o.attempted ≡ status_only success ∷ [])
      × (o.context.state ≡ transaction_received)
      × (o.context.transaction
          ≡ normal_form p cmd.subcommand (pb_decode p cmd.subcommand a.bytes).1)
      × (o.context.transaction_fee ≡ write_at (replicate 16 0) 0 parts.fees)
      × (o.context.transaction_fee_length ≡ length parts.fees)
unfolding process_transaction process_transaction_steps store_transaction save_fees conclude
process_transaction-accepts p env cmd ctx parts fits framed few a sends =
    let parsed = parse_transaction-framed p.u2be cmd.subcommand cmd.payload parts framed few fits in
    rw (parsed, acceptable-passes p cmd ctx parts a, sends) (refl, refl, refl, refl, refl)
