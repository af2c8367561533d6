-- ===== src/Refusals/Handlers.antt =====
-- Every handler that refuses its command leaves the state, or ends the exchange.
use app_exchange.Protocol.States.{all_addresses_checked}
use app_exchange.Protocol.States.{payout_address_checked}
use app_exchange.Protocol.Commands.{check_payout_address}
use app_exchange.Protocol.Commands.{instruction_eq}
use app_exchange.Trust.Process.{signature_same}
use app_exchange.Addresses.{displays}
use app_exchange.Process.{process_transaction_steps}
use app_exchange.Signature.{check_tx_signature_steps}
use app_exchange.Trust.Display.{steps_stay}
use app_exchange.Protocol.States.{transaction_received}
use app_exchange.Protocol.States.{signature_checked}
use app_exchange.Flow.Handlers.{descriptor_state}
use app_exchange.Addresses.{check_addresses_steps}
use app_exchange.Trust.Transaction.{process-Unchanged}
use app_exchange.Handler.{enter}
use app_exchange.TrustedNames.{trusted_name_descriptor_handler}
use app_exchange.Trust.Display.{Stays}
use app_exchange.Partner.{set_partner_key}
use app_exchange.Partner.{check_partner}
use app_exchange.Process.{process_transaction}
use app_exchange.Signature.{check_tx_signature}
use app_exchange.Session.{start_new_transaction}
use app_exchange.Common.{ℕ}
use app_exchange.Addresses.{check_addresses_and_amounts}
use app_exchange.Session.{get_version_handler}
use app_exchange.Session.{get_challenge_handler}
use app_exchange.Common.{◌≡◌, refl, ap, false, inl, inr, arith, Bool-cases, if◌then◌else◌}
use app_exchange.Protocol.Errors.{success, error_value}
use app_exchange.Protocol.Commands.{Command}
use app_exchange.Context.{Context}
use app_exchange.Platform.{Platform, Env, Response}
use app_exchange.Handler.{
  Exit, value, refuse, thrown, conclude, conclude_display, start_ui_display, status_only,
}
use app_exchange.Refusals.{has_error, is_error, RefusesInPlace}

success_passes : is_error (status_only success) ≡ false
unfolding error_value
success_passes = refl

conclude-RefusesInPlace :
    (env : Env) (r : Response) (next : Context → Context) (x : Exit (Unit {0}) × Context)
    (ctx : Context)
    → is_error r ≡ false
    → x.1.state ≡ ctx.state
    → RefusesInPlace ctx (conclude env r next x)
unfolding conclude has_error
conclude-RefusesInPlace env r next (value tt, c) ctx good same = ground arith
conclude-RefusesInPlace env r next (refuse e, c) ctx good same = λ _. inl same
conclude-RefusesInPlace env r next (thrown, c) ctx good same = λ _. inl same

conclude_display-RefusesInPlace :
    (env : Env) (x : Exit (Unit {0}) × Context) (ctx : Context)
    → x.1.state ≡ ctx.state
    → RefusesInPlace ctx (conclude_display env x)
unfolding conclude_display start_ui_display has_error
conclude_display-RefusesInPlace env (value tt, c) ctx same = ground arith
conclude_display-RefusesInPlace env (refuse e, c) ctx same = λ _. inl same
conclude_display-RefusesInPlace env (thrown, c) ctx same = λ _. inl same

module _ (p : Platform) (env : Env) (cmd : Command) (ctx : Context) where
  pub set_partner_key-RefusesInPlace : RefusesInPlace ctx (set_partner_key p env cmd ctx)
  unfolding set_partner_key has_error error_value
  set_partner_key-RefusesInPlace = ground arith

  pub check_partner-RefusesInPlace : RefusesInPlace ctx (check_partner p env cmd ctx)
  unfolding check_partner has_error error_value
  check_partner-RefusesInPlace = ground arith

  pub process_transaction-RefusesInPlace : RefusesInPlace ctx (process_transaction p env cmd ctx)
  unfolding process_transaction
  process_transaction-RefusesInPlace =
      let (_, _, _, same, _) = process-Unchanged p cmd ctx in
      conclude-RefusesInPlace env (status_only success) (enter transaction_received)
        (process_transaction_steps p cmd ctx) ctx success_passes same

  pub check_tx_signature-RefusesInPlace : RefusesInPlace ctx (check_tx_signature p env cmd ctx)
  unfolding check_tx_signature
  check_tx_signature-RefusesInPlace =
      conclude-RefusesInPlace env (status_only success) (enter signature_checked)
        (check_tx_signature_steps p cmd ctx) ctx success_passes
        (ap (λ (c : Context). c.state) (signature_same p env cmd ctx))

  pub start_new_transaction-RefusesInPlace :
      RefusesInPlace ctx (start_new_transaction p env cmd ctx)
  unfolding start_new_transaction has_error error_value
  start_new_transaction-RefusesInPlace = ground arith

  pub trusted_name-RefusesInPlace :
      (challenge : ℕ) → RefusesInPlace ctx (trusted_name_descriptor_handler p env challenge cmd ctx)
  trusted_name-RefusesInPlace challenge refused = inl (descriptor_state p env cmd ctx challenge)

  pub check_addresses-RefusesInPlace :
      RefusesInPlace ctx (check_addresses_and_amounts p env cmd ctx)
  unfolding check_addresses_and_amounts Stays
  check_addresses-RefusesInPlace =
      let x = check_addresses_steps p env cmd ctx in
      let (same, _) = steps_stay p env ctx cmd in
      elim (Bool-cases (displays cmd.ins)) [
        | inl e ↦ rw e (conclude_display-RefusesInPlace env x ctx same)
        | inr e ↦ rw e (
            conclude-RefusesInPlace env (status_only success)
              (enter (
                if instruction_eq cmd.ins check_payout_address
                then payout_address_checked
                else all_addresses_checked))
              x ctx success_passes same)
      ]

  pub get_version-RefusesInPlace : RefusesInPlace ctx (get_version_handler p env ctx)
  unfolding get_version_handler
  get_version-RefusesInPlace refused = inl refl

  pub get_challenge-RefusesInPlace :
      (challenge : ℕ) → RefusesInPlace ctx (get_challenge_handler p env challenge ctx)
  unfolding get_challenge_handler
  get_challenge-RefusesInPlace challenge refused = inl refl

  pub start_ui_display-RefusesInPlace : RefusesInPlace ctx (start_ui_display ctx)
  unfolding start_ui_display has_error
  start_ui_display-RefusesInPlace = ground arith
