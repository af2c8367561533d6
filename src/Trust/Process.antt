-- ===== src/Trust/Process.antt =====
-- `process_transaction` and `check_tx_signature` keep the context trusted.
use app_exchange.Common.{ℕ, ◌≡◌, refl, sym, ap, ◌∙◌, true, List, inl, inr, arith}
use app_exchange.Protocol.States.{provider_checked, transaction_received, signature_checked}
use app_exchange.Protocol.Errors.{success}
use app_exchange.Protocol.Commands.{Command}
use app_exchange.Context.{Context}
use app_exchange.Platform.{Platform, Env}
use app_exchange.Handler.{status_only, enter, value, after}
use app_exchange.Handler.Rules.{
  conclude-cases, after-keeps, from_option-keeps, require-keeps, from_option-value, after-value,
}
use app_exchange.Process.{process_transaction, process_transaction_steps}
use app_exchange.Signature.{
  check_tx_signature, check_tx_signature_steps, SignatureForm, signature_form, received_signature,
  verify_signature, der_of_der, der_of_r_s,
}
use app_exchange.Trust.{
  IsTrusted, IsReceived, IsCertified, IsSigned, without_own_addresses, normal_form,
}
use app_exchange.Process.Payload.{pb_decode}
use app_exchange.Process.Checks.{ids_match}
use mathlib.Core.Path.{subst}
use app_exchange.Trust.Transaction.{Unchanged, Received, process-Unchanged, process-Received}

IsCertified-frame :
    (p : Platform) (ctx c : Context) → Unchanged ctx c → IsCertified p ctx → IsCertified p c
IsCertified-frame p ctx c (_, key, sub, _, _)
      (credentials, signature, (cs, parsed, valid, has), verified) =
    (credentials, signature, (cs, rw sub parsed, valid, rw key has), verified)

Received-frame :
    (p : Platform) (cmd : Command) (ctx c : Context)
    → ctx.subcommand ≡ cmd.subcommand
    → Unchanged ctx c
    → Received p cmd ctx c
    → IsReceived p (record c { state = transaction_received })
Received-frame p cmd ctx c sub (_, _, sub', _, id)
      (payload, is_base64, bytes, to, decodes, same_id, tx, prefixed, no_prefix) =
    let q = sym (sub' ∙ sub) in
    (
      payload,
      is_base64,
      bytes,
      to,
      subst (λ s. (pb_decode p s bytes).0 ≡ true) q decodes,
      subst (λ s. ids_match p s c.device_transaction_id (pb_decode p s bytes).1 ≡ true) q
          (rw id same_id),
      subst
          (λ s.
            without_own_addresses c.transaction
            ≡ without_own_addresses (normal_form p s (pb_decode p s bytes).1))
          q (ap without_own_addresses tx),
      prefixed,
      no_prefix,
    )

module _ (p : Platform) (env : Env) (cmd : Command) (ctx : Context) where
  -- In state PROVIDER_CHECKED, under the subcommand of the flow, the handler of a proposed transaction
  -- keeps a trusted context trusted. Where it ends in TRANSACTION_RECEIVED this says that the stored
  -- transaction is the normal form of what the payload decodes to, that its identifier matches the one
  -- that the device has drawn, and that the two digests are those of the payload.
  pub process_transaction-IsTrusted :
      ctx.state ≡ provider_checked
      → ctx.subcommand ≡ cmd.subcommand
      → IsTrusted p ctx
      → IsTrusted p (process_transaction p env cmd ctx).context
  unfolding process_transaction
  process_transaction-IsTrusted st sub t =
      let x = process_transaction_steps p cmd ctx in
      let same = process-Unchanged p cmd ctx in
      let certified = IsCertified-frame p ctx x.1 same (t.certified (ground arith)) in
      elim (conclude-cases env (status_only success) (enter transaction_received) x) [
        | inl e ↦ rw e (record {
          ledger = λ _. same.0 ∙ t.ledger (ground arith);
          loaded = ground arith;
          certified = λ _. certified;
          received = ground arith;
          signed = ground arith;
        })
        | inr (ok, e) ↦ rw e (record {
          ledger = λ _. same.0 ∙ t.ledger (ground arith);
          loaded = ground arith;
          certified = λ _. certified;
          received = λ _. Received-frame p cmd ctx x.1 sub same (process-Received p cmd ctx x.1 ok);
          signed = ground arith;
        })
      ]

  received_signature_same :
      (form : SignatureForm) → (received_signature form cmd.payload ctx).1 ≡ ctx
  unfolding received_signature der_of_r_s der_of_der
  received_signature_same form = ground arith

  -- The signature's check writes nothing.
  pub signature_same : (check_tx_signature_steps p cmd ctx).1 ≡ ctx
  unfolding check_tx_signature_steps verify_signature
  signature_same =
      let same = λ (c : Context). c ≡ ctx in
      after-keeps same _ _ (from_option-keeps same _ _ ctx refl) (λ form c e.
        after-keeps same (received_signature form cmd.payload c) (verify_signature p form)
          (subst (λ d. (received_signature form cmd.payload d).1 ≡ ctx) (sym e)
            (received_signature_same form))
          (λ signature c2 e2. require-keeps same _ _ c2 e2))

  verify_ok :
      (form : SignatureForm) (signature : List ℕ) (c c' : Context)
      → verify_signature p form signature c ≡ (value tt, c')
      → IsSigned p c'
  unfolding verify_signature
  verify_ok form signature c c' h = (signature, form.on_dot_prefixed_tx, ground arith)

  signature-IsSigned :
      (c' : Context) → check_tx_signature_steps p cmd ctx ≡ (value tt, c') → IsSigned p c'
  unfolding check_tx_signature_steps
  signature-IsSigned c' h =
      let (form, formed, h1) =
        from_option-value (signature_form cmd.subcommand cmd.payload) _ ctx
          (λ f c. after (received_signature f cmd.payload c) (verify_signature p f)) h in
      let (signature, c2, received, h2) =
        after-value (received_signature form cmd.payload ctx) (verify_signature p form) h1 in
      verify_ok form signature c2 c' h2

  -- In state TRANSACTION_RECEIVED the handler of the signature keeps a trusted context trusted. Where it
  -- ends in SIGNATURE_CHECKED this says that the partner's key has verified a signature on one of the
  -- two digests of the received payload.
  pub check_tx_signature-IsTrusted :
      ctx.state ≡ transaction_received
      → IsTrusted p ctx
      → IsTrusted p (check_tx_signature p env cmd ctx).context
  unfolding check_tx_signature
  check_tx_signature-IsTrusted st t =
      let x = check_tx_signature_steps p cmd ctx in
      elim (conclude-cases env (status_only success) (enter signature_checked) x) [
        | inl e ↦ rw (e, signature_same) t
        | inr (ok, e) ↦ rw e (record {
          ledger = λ _. rw signature_same (t.ledger (ground arith));
          loaded = ground arith;
          certified = λ _. rw signature_same (t.certified (ground arith));
          received = λ _. rw signature_same (t.received (ground arith));
          signed = λ _. signature-IsSigned x.1 ok;
        })
      ]
