-- ===== src/Trust/Transaction.antt =====
-- The handlers of the transaction and of its signature keep the context trusted.
use app_exchange.Common.{
  ℕ, ◌∷◌, ◌≡◌, refl, ap, ◌∙◌, Bool, true, List, some, Option-cases, inl, inr, arith,
}
use app_exchange.Protocol.Commands.{Command}
use app_exchange.Context.{Context}
use app_exchange.Platform.{Platform}
use app_exchange.Handler.{value}
use app_exchange.Handler.Rules.{
  after-keeps, from_option-keeps, require-keeps, from_option-value, require-value,
}
use app_exchange.Process.{
  process_transaction_steps, hash_and_store, decode_and_store, check_and_store, store_transaction,
}
use app_exchange.Process.Payload.{
  TransactionParts, parse_transaction, calculate_sha256_digest, to_deserialize, pb_decode,
  deserialize_protobuf_payload,
}
use app_exchange.Process.Checks.{save_fees, ids_match, check_transaction_id}
use app_exchange.Trust.{normal_form}

-- What the handlers of the transaction leave alone.
abbrev pub Unchanged : Context → Context → Type 0
Unchanged ctx c =
    (c.ledger_public_key ≡ ctx.ledger_public_key)
    × (c.partner_public_key ≡ ctx.partner_public_key)
    × (c.subcommand ≡ ctx.subcommand)
    × (c.state ≡ ctx.state)
    × (c.device_transaction_id ≡ ctx.device_transaction_id)

digest-Unchanged :
    (p : Platform) (payload : List ℕ) (ctx c : Context)
    → Unchanged ctx c
    → Unchanged ctx (calculate_sha256_digest p payload c).0
unfolding calculate_sha256_digest
digest-Unchanged p payload ctx c h = ground arith

decode-Unchanged :
    (p : Platform) (cmd : Command) (parts : TransactionParts) (ctx c : Context)
    → Unchanged ctx c
    → Unchanged ctx
        (deserialize_protobuf_payload p cmd.subcommand parts.payload parts.needs_base64_decoding
          c).0
unfolding deserialize_protobuf_payload
decode-Unchanged p cmd parts ctx c h = ground arith

stored-Unchanged :
    (p : Platform) (cmd : Command) (parts : TransactionParts) (ctx c : Context)
    → Unchanged ctx c
    → Unchanged ctx (check_and_store p cmd parts c).1
unfolding check_and_store store_transaction save_fees
stored-Unchanged p cmd parts ctx c h = ground arith

decoded-Unchanged :
    (p : Platform) (cmd : Command) (parts : TransactionParts) (ctx c : Context)
    → Unchanged ctx c
    → Unchanged ctx (decode_and_store p cmd parts c).1
unfolding decode_and_store
decoded-Unchanged p cmd parts ctx c h =
    let next = decode-Unchanged p cmd parts ctx c h in
    after-keeps (Unchanged ctx) _ _ (require-keeps (Unchanged ctx) _ _ _ next)
      (λ _ c2 h2. stored-Unchanged p cmd parts ctx c2 h2)

hashed-Unchanged :
    (p : Platform) (cmd : Command) (parts : TransactionParts) (ctx c : Context)
    → Unchanged ctx c
    → Unchanged ctx (hash_and_store p cmd parts c).1
unfolding hash_and_store
hashed-Unchanged p cmd parts ctx c h =
    let next = digest-Unchanged p parts.payload ctx c h in
    after-keeps (Unchanged ctx) _ _ (require-keeps (Unchanged ctx) _ _ _ next)
      (λ _ c2 h2. decoded-Unchanged p cmd parts ctx c2 h2)

pub process-Unchanged :
    (p : Platform) (cmd : Command) (ctx : Context)
    → Unchanged ctx (process_transaction_steps p cmd ctx).1
unfolding process_transaction_steps
process-Unchanged p cmd ctx =
    after-keeps (Unchanged ctx) _ _
      (from_option-keeps (Unchanged ctx) _ _ ctx (refl, refl, refl, refl, refl))
      (λ parts c h. hashed-Unchanged p cmd parts ctx c h)

-- A payload whose transaction has been received: the facts of `IsReceived`, for the subcommand of
-- the command.
abbrev pub Received : Platform → Command → Context → Context → Type 0
Received p cmd ctx c =
    (payload : List ℕ) × (is_base64 : Bool) × (bytes : List ℕ) × (to_deserialize p payload is_base64
      ≡ some bytes)
    × ((pb_decode p cmd.subcommand bytes).0 ≡ true)
    × (ids_match p cmd.subcommand ctx.device_transaction_id (pb_decode p cmd.subcommand bytes).1
        ≡ true)
    × (c.transaction ≡ normal_form p cmd.subcommand (pb_decode p cmd.subcommand bytes).1)
    × (c.sha256_digest_prefixed ≡ (p.sha256 (b'.' ∷ payload)).1)
    × (c.sha256_digest_no_prefix ≡ (p.sha256 payload).1)

digests_ok :
    (p : Platform) (payload : List ℕ) (ctx : Context)
    → (calculate_sha256_digest p payload ctx).1 ≡ true
    → (calculate_sha256_digest p payload ctx).0 ≡ record ctx {
      sha256_digest_prefixed = (p.sha256 (b'.' ∷ payload)).1;
      sha256_digest_no_prefix = (p.sha256 payload).1;
    }
unfolding calculate_sha256_digest
digests_ok p payload ctx h = ground arith

decoding_ok :
    (p : Platform) (cmd : Command) (payload : List ℕ) (is_base64 : Bool) (ctx : Context)
    → (deserialize_protobuf_payload p cmd.subcommand payload is_base64 ctx).1 ≡ true
    → (bytes : List ℕ) × (to_deserialize p payload is_base64 ≡ some bytes)
      × ((pb_decode p cmd.subcommand bytes).0 ≡ true)
      × ((deserialize_protobuf_payload p cmd.subcommand payload is_base64 ctx).0
          ≡ record ctx { transaction = (pb_decode p cmd.subcommand bytes).1 })
unfolding deserialize_protobuf_payload
decoding_ok p cmd payload is_base64 ctx h =
    elim (Option-cases (to_deserialize p payload is_base64)) [
      | inl e ↦ absurd (ground arith)
      | inr (bytes, e) ↦ (bytes, e, ground arith, ground arith)
    ]

stored :
    (p : Platform) (cmd : Command) (parts : TransactionParts) (c c' : Context)
    → check_and_store p cmd parts c ≡ (value tt, c')
    → (ids_match p cmd.subcommand c.device_transaction_id c.transaction ≡ true)
      × (c' ≡ store_transaction p cmd parts.fees c)
unfolding check_and_store check_transaction_id
stored p cmd parts c c' h = ground arith

decoded_and_stored :
    (p : Platform) (cmd : Command) (parts : TransactionParts) (c c' : Context)
    → decode_and_store p cmd parts c ≡ (value tt, c')
    → let d =
        deserialize_protobuf_payload p cmd.subcommand parts.payload parts.needs_base64_decoding c in
      (d.1 ≡ true) × (check_and_store p cmd parts d.0 ≡ (value tt, c'))
unfolding decode_and_store
decoded_and_stored p cmd parts c c' h = require-value _ _ _ (λ _. check_and_store p cmd parts) h

hashed_and_stored :
    (p : Platform) (cmd : Command) (parts : TransactionParts) (c c' : Context)
    → hash_and_store p cmd parts c ≡ (value tt, c')
    → let d = calculate_sha256_digest p parts.payload c in
      (d.1 ≡ true) × (decode_and_store p cmd parts d.0 ≡ (value tt, c'))
unfolding hash_and_store
hashed_and_stored p cmd parts c c' h = require-value _ _ _ (λ _. decode_and_store p cmd parts) h

pub process-Received :
    (p : Platform) (cmd : Command) (ctx c' : Context)
    → process_transaction_steps p cmd ctx ≡ (value tt, c')
    → Received p cmd ctx c'
unfolding process_transaction_steps
process-Received p cmd ctx c' h =
    let (parts, parsed, h1) =
      from_option-value (parse_transaction p.u2be cmd.subcommand cmd.payload) _ ctx
        (hash_and_store p cmd) h in
    let (hashed, h2) = hashed_and_stored p cmd parts ctx c' h1 in
    let digests = digests_ok p parts.payload ctx hashed in
    let (decoded, h3) = decoded_and_stored p cmd parts _ c' (rw digests at h2) in
    let (bytes, base64, decodes, holds) =
      decoding_ok p cmd parts.payload parts.needs_base64_decoding _ decoded in
    let (id_ok, final) = stored p cmd parts _ c' (rw holds at h3) in
    (
      parts.payload,
      parts.needs_base64_decoding,
      bytes,
      base64,
      decodes,
      id_ok,
      ap (λ (c : Context). c.transaction) final ∙ unfold store_transaction save_fees in refl,
      ap (λ (c : Context). c.sha256_digest_prefixed) final
          ∙ unfold store_transaction save_fees in refl,
      ap (λ (c : Context). c.sha256_digest_no_prefix) final
          ∙ unfold store_transaction save_fees in refl,
    )
