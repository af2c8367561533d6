-- ===== src/Trust/Frame.antt =====
-- What keeps a context trusted once its transaction is signed: a change of anything but the keys,
-- the flow, the identifier, the digests and the transaction (up to a swap's own addresses).
use app_exchange.Common.{◌≤◌, ◌≡◌, refl, ◌∙◌, arith}
use app_exchange.Protocol.States.{state_value}
use app_exchange.Context.{Context}
use app_exchange.Platform.{Platform}
use app_exchange.Trust.{IsTrusted, IsReceived, IsCertified, IsSigned, without_own_addresses}

abbrev pub Kept : Context → Context → Type 0
Kept ctx c =
    (c.ledger_public_key ≡ ctx.ledger_public_key)
    × (c.partner_public_key ≡ ctx.partner_public_key)
    × (c.subcommand ≡ ctx.subcommand)
    × (c.device_transaction_id ≡ ctx.device_transaction_id)
    × (c.sha256_digest_prefixed ≡ ctx.sha256_digest_prefixed)
    × (c.sha256_digest_no_prefix ≡ ctx.sha256_digest_no_prefix)
    × (without_own_addresses c.transaction ≡ without_own_addresses ctx.transaction)

pub Kept-refl : (ctx : Context) → Kept ctx ctx
Kept-refl ctx = (refl, refl, refl, refl, refl, refl, refl)

Kept-IsCertified :
    (p : Platform) (ctx c : Context) → Kept ctx c → IsCertified p ctx → IsCertified p c
Kept-IsCertified p ctx c (_, key, sub, _, _, _, _)
      (credentials, signature, (cs, parsed, valid, has), verified) =
    (credentials, signature, (cs, rw sub parsed, valid, rw key has), verified)

Kept-IsReceived : (p : Platform) (ctx c : Context) → Kept ctx c → IsReceived p ctx → IsReceived p c
Kept-IsReceived p ctx c (_, _, sub, id, pre, no_pre, same)
      (payload, is_base64, bytes, to, decodes, same_id, tx, prefixed, no_prefix) =
    (
      payload,
      is_base64,
      bytes,
      to,
      rw sub decodes,
      rw (sub, id) same_id,
      rw (sub, same) tx,
      rw pre prefixed,
      rw no_pre no_prefix,
    )

Kept-IsSigned : (p : Platform) (ctx c : Context) → Kept ctx c → IsSigned p ctx → IsSigned p c
Kept-IsSigned p ctx c (_, key, _, _, pre, no_pre, _) (signature, dot_prefixed, verified) =
    (signature, dot_prefixed, rw (key, pre, no_pre) verified)

pub Kept-IsTrusted :
    (p : Platform) (ctx c : Context)
    → 5 ≤ state_value ctx.state
    → 5 ≤ state_value c.state
    → Kept ctx c
    → IsTrusted p ctx
    → IsTrusted p c
Kept-IsTrusted p ctx c before now kept t = record {
  ledger = λ _. kept.0 ∙ t.ledger (omega arith);
  loaded = λ h. absurd (omega arith);
  certified = λ _. Kept-IsCertified p ctx c kept (t.certified (omega arith));
  received = λ _. Kept-IsReceived p ctx c kept (t.received (omega arith));
  signed = λ _. Kept-IsSigned p ctx c kept (t.signed before);
}
