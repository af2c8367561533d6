-- ===== src/Trust/Names.antt =====
-- Descriptors replace a swap's own addresses and nothing else that the partner has signed.
use app_exchange.Common.{
  ℕ, ◌≤◌, ◌≡◌, refl, sym, ap, ◌∙◌, true, inl, inr, arith, Bool-cases, if◌then◌else◌, ◌⊎◌,
}
use app_exchange.Protocol.States.{state_value}
use app_exchange.Protocol.Commands.{Command, is_swap}
use app_exchange.Context.{
  Context, SwapTransaction, Transaction, raw_transaction, swap_transaction, sell_transaction,
  fund_transaction,
}
use app_exchange.Context.Memory.{Layout, as_swap}
use app_exchange.Platform.{Platform, Env, TrustedName}
use app_exchange.Handler.{status_only}
use app_exchange.Protocol.Errors.{success}
use mathlib.Core.Path.{subst}
use app_exchange.Handler.Rules.{conclude-cases}
use app_exchange.Process.Payload.{pb_decode}
use app_exchange.Process.Checks.{trim_swap, trim_amounts, normalize_currencies}
use app_exchange.TrustedNames.{
  trusted_name_descriptor_handler, trusted_name_steps, apply_to_addresses, is_applied,
}
use app_exchange.Trust.{IsTrusted, IsReceived, without_own_addresses, normal_form}
use app_exchange.Trust.Frame.{Kept, Kept-refl, Kept-IsTrusted}

-- Whatever the memory holds, the part without the addresses survives a descriptor.
apply-without :
    (d : TrustedName) (t : SwapTransaction)
    → without_own_addresses (swap_transaction (apply_to_addresses d t))
      ≡ without_own_addresses (swap_transaction t)
unfolding apply_to_addresses
apply-without d t = refl

is_a_swap :
    (l : Layout) (t : Transaction) (s : SwapTransaction)
    → without_own_addresses t ≡ without_own_addresses (swap_transaction s)
    → swap_transaction (as_swap l t) ≡ t
unfolding as_swap
is_a_swap l (swap_transaction t) s e = refl
is_a_swap l (raw_transaction b) s e = absurd (ground arith)
is_a_swap l (sell_transaction t) s e = absurd (ground arith)
is_a_swap l (fund_transaction t) s e = absurd (ground arith)

normal_form_swap :
    (p : Platform) (ctx : Context) (t : Transaction)
    → is_swap ctx.subcommand ≡ true
    → normal_form p ctx.subcommand t
      ≡ swap_transaction
          (trim_swap (as_swap p.layout (normalize_currencies p.layout ctx.subcommand t)))
unfolding trim_amounts
normal_form_swap p ctx t swaps = rw swaps refl

received_swap :
    (p : Platform) (ctx : Context)
    → is_swap ctx.subcommand ≡ true
    → IsReceived p ctx
    → swap_transaction (as_swap p.layout ctx.transaction) ≡ ctx.transaction
received_swap p ctx swaps (_, _, bytes, _, _, _, same, _, _) =
    let t = (pb_decode p ctx.subcommand bytes).1 in
    is_a_swap p.layout ctx.transaction
      (trim_swap (as_swap p.layout (normalize_currencies p.layout ctx.subcommand t)))
      (same ∙ ap without_own_addresses (normal_form_swap p ctx t swaps))

-- What a descriptor leaves of the context.
unfoldable pub described : Platform → TrustedName → Context → Context
described p d ctx = record ctx {
  transaction =
      if is_applied d (as_swap p.layout ctx.transaction)
      then swap_transaction (apply_to_addresses d (as_swap p.layout ctx.transaction))
      else ctx.transaction;
}

described-Kept :
    (p : Platform) (d : TrustedName) (ctx : Context)
    → swap_transaction (as_swap p.layout ctx.transaction) ≡ ctx.transaction
    → Kept ctx (described p d ctx)
unfolding described
described-Kept p d ctx same = elim (Bool-cases (is_applied d (as_swap p.layout ctx.transaction))) [
  | inl e ↦ (
    refl,
    refl,
    refl,
    refl,
    refl,
    refl,
    rw e (apply-without d (as_swap p.layout ctx.transaction) ∙ ap without_own_addresses same),
  )
  | inr e ↦ (refl, refl, refl, refl, refl, refl, rw e refl)
]

-- A refusal before the replacement leaves the context as it was.
pub steps_describe :
    (p : Platform) (challenge : ℕ) (cmd : Command) (ctx : Context)
    → ((trusted_name_steps p challenge cmd ctx).1 ≡ ctx)
      ⊎ ((is_swap ctx.subcommand ≡ true)
          × ((trusted_name_steps p challenge cmd ctx).1
              ≡ described p (p.trusted_name cmd.payload) ctx))
unfolding trusted_name_steps described
steps_describe p challenge cmd ctx = ground arith

descriptor_stays :
    (p : Platform) (challenge : ℕ) (cmd : Command) (ctx : Context)
    → IsReceived p ctx
    → let c = (trusted_name_steps p challenge cmd ctx).1 in (c.state ≡ ctx.state) × Kept ctx c
descriptor_stays p challenge cmd ctx received =
    let d = p.trusted_name cmd.payload in
    elim (steps_describe p challenge cmd ctx) [
      | inl e ↦ subst (λ c. (c.state ≡ ctx.state) × Kept ctx c) (sym e) (refl, Kept-refl ctx)
      | inr (swaps, e) ↦
          subst (λ c. (c.state ≡ ctx.state) × Kept ctx c) (sym e)
            (unfold described in refl, described-Kept p d ctx (received_swap p ctx swaps received))
    ]

-- A descriptor of the trusted names keeps the chain from Ledger's key to the partner's signed
-- transaction, from state SIGNATURE_CHECKED on, whether it is applied or refused: of what the partner
-- has signed, only a swap's payout and refund addresses may change.
pub trusted_name_descriptor_handler-IsTrusted :
    (p : Platform) (env : Env) (challenge : ℕ) (cmd : Command) (ctx : Context)
    → 5 ≤ state_value ctx.state
    → IsTrusted p ctx
    → IsTrusted p (trusted_name_descriptor_handler p env challenge cmd ctx).context
unfolding trusted_name_descriptor_handler
trusted_name_descriptor_handler-IsTrusted p env challenge cmd ctx st t =
    let (same, kept) = descriptor_stays p challenge cmd ctx (t.received (omega arith)) in
    let final =
      Kept-IsTrusted p ctx (trusted_name_steps p challenge cmd ctx).1 st (rw same st) kept t in
    elim (conclude-cases env (status_only success) (λ c. c)
      (trusted_name_steps p challenge cmd ctx)) [
        | inl e ↦ subst (IsTrusted p) (sym e) final
        | inr (_, e) ↦ subst (IsTrusted p) (sym e) final
      ]
