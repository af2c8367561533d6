-- ===== src/Replies/Handlers.antt =====
-- Every handler but the one that asks for the signature leaves exactly one reply.
use app_exchange.Protocol.Commands.{instruction_eq}
use app_exchange.Process.{process_transaction_steps}
use app_exchange.Signature.{check_tx_signature_steps}
use app_exchange.TrustedNames.{trusted_name_steps}
use app_exchange.Addresses.{check_addresses_steps}
use app_exchange.Addresses.{displays}
use app_exchange.Partner.{set_partner_key}
use app_exchange.Partner.{check_partner}
use app_exchange.Process.{process_transaction}
use app_exchange.Signature.{check_tx_signature}
use app_exchange.Session.{start_new_transaction}
use app_exchange.TrustedNames.{trusted_name_descriptor_handler}
use app_exchange.Addresses.{check_addresses_and_amounts}
use app_exchange.Session.{get_version_handler}
use app_exchange.Session.{get_challenge_handler}
use app_exchange.Common.{ℕ, inl, inr, arith, Bool-cases, if◌then◌else◌}
use app_exchange.Protocol.Commands.{Command}
use app_exchange.Context.{Context}
use app_exchange.Platform.{Platform, Env, Response}
use app_exchange.Handler.{Exit, value, refuse, thrown, conclude, conclude_display, start_ui_display}
use app_exchange.Replies.{IsAnswered}
use app_exchange.Protocol.States.{
  transaction_received, signature_checked, payout_address_checked, all_addresses_checked,
}
use app_exchange.Handler.{enter, status_only}
use app_exchange.Protocol.Errors.{success}
use app_exchange.Protocol.Commands.{check_payout_address}

conclude-IsAnswered :
    (env : Env) (r : Response) (next : Context → Context) (x : Exit (Unit {0}) × Context)
    → IsAnswered (conclude env r next x)
unfolding conclude
conclude-IsAnswered env r next (value tt, c) = ground arith
conclude-IsAnswered env r next (refuse e, c) = ground arith
conclude-IsAnswered env r next (thrown, c) = ground arith

pub start_ui_display-IsAnswered : (ctx : Context) → IsAnswered (start_ui_display ctx)
unfolding start_ui_display
start_ui_display-IsAnswered ctx = ground arith

conclude_display-IsAnswered :
    (env : Env) (x : Exit (Unit {0}) × Context) → IsAnswered (conclude_display env x)
unfolding conclude_display
conclude_display-IsAnswered env (value tt, c) = start_ui_display-IsAnswered c
conclude_display-IsAnswered env (refuse e, c) = ground arith
conclude_display-IsAnswered env (thrown, c) = ground arith

module _ (p : Platform) (env : Env) (cmd : Command) (ctx : Context) where
  pub set_partner_key-IsAnswered : IsAnswered (set_partner_key p env cmd ctx)
  unfolding set_partner_key
  set_partner_key-IsAnswered = ground arith

  pub check_partner-IsAnswered : IsAnswered (check_partner p env cmd ctx)
  unfolding check_partner
  check_partner-IsAnswered = ground arith

  pub process_transaction-IsAnswered : IsAnswered (process_transaction p env cmd ctx)
  unfolding process_transaction
  process_transaction-IsAnswered =
      conclude-IsAnswered env (status_only success) (enter transaction_received)
        (process_transaction_steps p cmd ctx)

  pub check_tx_signature-IsAnswered : IsAnswered (check_tx_signature p env cmd ctx)
  unfolding check_tx_signature
  check_tx_signature-IsAnswered =
      conclude-IsAnswered env (status_only success) (enter signature_checked)
        (check_tx_signature_steps p cmd ctx)

  pub start_new_transaction-IsAnswered : IsAnswered (start_new_transaction p env cmd ctx)
  unfolding start_new_transaction
  start_new_transaction-IsAnswered = ground arith

  pub trusted_name-IsAnswered :
      (challenge : ℕ) → IsAnswered (trusted_name_descriptor_handler p env challenge cmd ctx)
  unfolding trusted_name_descriptor_handler
  trusted_name-IsAnswered challenge =
      conclude-IsAnswered env (status_only success) (λ c. c)
        (trusted_name_steps p challenge cmd ctx)

  pub check_addresses-IsAnswered : IsAnswered (check_addresses_and_amounts p env cmd ctx)
  unfolding check_addresses_and_amounts
  check_addresses-IsAnswered = elim (Bool-cases (displays cmd.ins)) [
    | inl e ↦ rw e (conclude_display-IsAnswered env (check_addresses_steps p env cmd ctx))
    | inr e ↦ rw e (
        conclude-IsAnswered env (status_only success)
          (enter (
            if instruction_eq cmd.ins check_payout_address
            then payout_address_checked
            else all_addresses_checked))
          (check_addresses_steps p env cmd ctx))
  ]

  pub get_version-IsAnswered : IsAnswered (get_version_handler p env ctx)
  unfolding get_version_handler
  get_version-IsAnswered = ground arith

  pub get_challenge-IsAnswered :
      (challenge : ℕ) → IsAnswered (get_challenge_handler p env challenge ctx)
  unfolding get_challenge_handler
  get_challenge-IsAnswered challenge = ground arith
