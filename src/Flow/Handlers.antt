-- ===== src/Flow/Handlers.antt =====
-- Each handler moves along the flow chart.
use app_exchange.Common.{ℕ, ◌≡◌, refl, ap, ◌∙◌, inl, inr, ◌⊎◌, arith, Bool-cases, if◌then◌else◌}
use app_exchange.Protocol.States.{
  State, initial_state, waiting_transaction, provider_set, provider_checked, transaction_received,
  signature_checked, payout_address_checked, all_addresses_checked, waiting_user_validation,
  sign_finished,
}
use app_exchange.Protocol.Errors.{success}
use app_exchange.Protocol.Commands.{Command, instruction_eq, check_payout_address}
use app_exchange.Context.{Context}
use app_exchange.Platform.{Platform, Env, Response}
use app_exchange.Handler.{
  Exit, value, refuse, thrown, conclude, conclude_display, status_only, enter, start_ui_display,
}
use app_exchange.Handler.Rules.{conclude-cases}
use app_exchange.Session.{start_new_transaction}
use app_exchange.Partner.{set_partner_key, check_partner}
use app_exchange.Process.{process_transaction, process_transaction_steps}
use app_exchange.Signature.{check_tx_signature, check_tx_signature_steps}
use app_exchange.TrustedNames.{trusted_name_descriptor_handler, trusted_name_steps}
use app_exchange.Addresses.{check_addresses_and_amounts, check_addresses_steps, displays}
use app_exchange.Signing.{PreviousCycle, start_signing_transaction}
use app_exchange.Trust.Names.{steps_describe, described}
use app_exchange.Trust.Display.{Stays, steps_stay}
use app_exchange.Trust.Transaction.{process-Unchanged}
use app_exchange.Trust.Process.{signature_same}

-- The two ends of a handler.
abbrev pub StaysOrEnters : Context → State → Context → Type 0
StaysOrEnters ctx s c = (c.state ≡ ctx.state) ⊎ (c.state ≡ s)

pub conclude-StaysOrEnters :
    (env : Env) (r : Response) (s : State) (x : Exit (Unit {0}) × Context) (ctx : Context)
    → x.1.state ≡ ctx.state
    → StaysOrEnters ctx s (conclude env r (enter s) x).context
conclude-StaysOrEnters env r s x ctx same = elim (conclude-cases env r (enter s) x) [
  | inl e ↦ inl (ap (λ (c : Context). c.state) e ∙ same)
  | inr (_, e) ↦ inr (ap (λ (c : Context). c.state) e)
]

conclude_display-StaysOrEnters :
    (env : Env) (x : Exit (Unit {0}) × Context) (ctx : Context)
    → x.1.state ≡ ctx.state
    → StaysOrEnters ctx waiting_user_validation (conclude_display env x).context
unfolding conclude_display start_ui_display
conclude_display-StaysOrEnters env (value tt, c) ctx same = inr refl
conclude_display-StaysOrEnters env (refuse e, c) ctx same = inl same
conclude_display-StaysOrEnters env (thrown, c) ctx same = inl same

module _ (p : Platform) (env : Env) (cmd : Command) (ctx : Context) where
  pub set_partner_key-StaysOrEnters :
      StaysOrEnters ctx provider_set (set_partner_key p env cmd ctx).context
  unfolding set_partner_key
  set_partner_key-StaysOrEnters = ground arith

  pub check_partner-StaysOrEnters :
      StaysOrEnters ctx provider_checked (check_partner p env cmd ctx).context
  unfolding check_partner
  check_partner-StaysOrEnters = ground arith

  pub process_transaction-StaysOrEnters :
      StaysOrEnters ctx transaction_received (process_transaction p env cmd ctx).context
  unfolding process_transaction
  process_transaction-StaysOrEnters =
      let (_, _, _, same, _) = process-Unchanged p cmd ctx in
      conclude-StaysOrEnters env (status_only success) transaction_received
        (process_transaction_steps p cmd ctx) ctx same

  pub check_tx_signature-StaysOrEnters :
      StaysOrEnters ctx signature_checked (check_tx_signature p env cmd ctx).context
  unfolding check_tx_signature
  check_tx_signature-StaysOrEnters =
      conclude-StaysOrEnters env (status_only success) signature_checked
        (check_tx_signature_steps p cmd ctx) ctx
        (ap (λ (c : Context). c.state) (signature_same p env cmd ctx))

  pub start_new_transaction-states :
      let c = (start_new_transaction p env cmd ctx).context in
      (c.state ≡ initial_state) ⊎ (c.state ≡ waiting_transaction)
  unfolding start_new_transaction
  start_new_transaction-states = ground arith

  pub descriptor_state :
      (challenge : ℕ)
      → (trusted_name_descriptor_handler p env challenge cmd ctx).context.state ≡ ctx.state
  unfolding trusted_name_descriptor_handler
  descriptor_state challenge =
      let x = trusted_name_steps p challenge cmd ctx in
      let state = λ (c : Context). c.state in
      let steps : x.1.state ≡ ctx.state = elim (steps_describe p challenge cmd ctx) [
        | inl e ↦ ap state e
        | inr (_, e) ↦ ap state e ∙ unfold described in refl
      ] in
      elim (conclude-cases env (status_only success) (λ c. c) x) [
        | inl e ↦ ap state e ∙ steps
        | inr (_, e) ↦ ap state e ∙ steps
      ]

  -- Only a command that displays waits for the user; the payout check comes before the refund's.
  pub check_addresses-StaysOrEnters :
      StaysOrEnters ctx
        (if displays cmd.ins
          then waiting_user_validation
          else if instruction_eq cmd.ins check_payout_address
          then payout_address_checked
          else all_addresses_checked)
        (check_addresses_and_amounts p env cmd ctx).context
  unfolding check_addresses_and_amounts Stays
  check_addresses-StaysOrEnters =
      let x = check_addresses_steps p env cmd ctx in
      let (same, _) = steps_stay p env ctx cmd in
      elim (Bool-cases (displays cmd.ins)) [
        | inl e ↦ rw e (conclude_display-StaysOrEnters env x ctx same)
        | inr e ↦ rw e (
            conclude-StaysOrEnters env (status_only success)
              (if instruction_eq cmd.ins check_payout_address
                then payout_address_checked
                else all_addresses_checked)
              x ctx same)
      ]

  pub signing-StaysOrEnters :
      (cycle : PreviousCycle)
      → StaysOrEnters ctx sign_finished (start_signing_transaction p env cmd ctx cycle).context
  unfolding start_signing_transaction
  signing-StaysOrEnters cycle = ground arith
