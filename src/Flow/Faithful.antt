-- ===== src/Flow/Faithful.antt =====
-- A review on the screen is the one of the context at hand.
use app_exchange.Addresses.{check_addresses_and_amounts}
use app_exchange.Handler.{start_ui_display}
use app_exchange.Session.{get_challenge_handler}
use app_exchange.Signature.{check_tx_signature}
use app_exchange.Process.{process_transaction}
use app_exchange.Partner.{check_partner}
use app_exchange.Partner.{set_partner_key}
use app_exchange.Session.{get_version_handler}
use app_exchange.TrustedNames.{trusted_name_descriptor_handler}
use app_exchange.Session.{start_new_transaction}
use app_exchange.Common.{◌≡◌, refl, true, false, inl, inr, arith, Bool-cases, if◌then◌else◌}
use app_exchange.Protocol.States.{waiting_signing, state_eq}
use app_exchange.Protocol.Commands.{
  Instruction, get_version_command, start_new_transaction_command, set_partner_key_command,
  check_partner_command, process_transaction_response_command, check_transaction_signature_command,
  get_challenge, send_trusted_name_descriptor, check_payout_address, check_asset_in_and_display,
  check_asset_in_no_display, check_refund_address_and_display, check_refund_address_no_display,
  prompt_ui_display, start_signing_transaction as start_signing_command, unknown, Command,
}
use app_exchange.Context.{Context}
use app_exchange.Platform.{Platform, Env}
use app_exchange.Handler.{Outcome}
use app_exchange.Display.{
  Screen, menu, warning, review, signing_spinner, rejected, signed, failed, review_of,
  ui_validate_amounts,
}
use app_exchange.Application.{
  App, dispatch_by, dispatch_start, dispatch_trusted_name, dispatch_signing, after_handler,
}
use app_exchange.Signing.{start_signing_transaction}
use app_exchange.Trust.Screens.{asks}

-- What holds of the context and of a screen that asks nothing, and where a review is opened.
pub record Screening (p : Platform) (S : Context → Screen → Type 0) : Type 0 where
  pub quiet : (ctx : Context) (s : Screen) → asks s ≡ false → S ctx s
  pub opened : (ctx : Context) → S ctx (ui_validate_amounts p ctx)

abbrev pub OnScreen : (Context → Screen → Type 0) → App → Type 0
OnScreen S app = S app.context app.screen

module _ (p : Platform) (S : Context → Screen → Type 0) (law : Screening p S) where
  after_handler-shows :
      (app : App) (o : Outcome) → asks app.screen ≡ false → OnScreen S (after_handler p app o).app
  unfolding after_handler
  after_handler-shows app o quiet = elim (Bool-cases o.prompts) [
    | inl e ↦ rw e (law.opened o.context)
    | inr e ↦ rw e (law.quiet o.context app.screen quiet)
  ]

  pub by_instruction-shows :
      (env : Env) (cmd : Command) (app : App) (i : Instruction)
      → asks app.screen ≡ false
      → OnScreen S (dispatch_by p env cmd app i).app
  unfolding dispatch_by dispatch_start dispatch_trusted_name dispatch_signing
  by_instruction-shows env cmd app start_new_transaction_command q =
      let shown = record app {
        screen = if state_eq app.context.state waiting_signing then menu else app.screen;
      } in
      after_handler-shows shown (start_new_transaction p env cmd app.context) (ground arith)
  by_instruction-shows env cmd app send_trusted_name_descriptor q =
      after_handler-shows (record app { challenge = env.rng_u32 })
        (trusted_name_descriptor_handler p env app.challenge cmd app.context) q
  by_instruction-shows env cmd app start_signing_command q =
      law.quiet (start_signing_transaction p env cmd app.context app.cycle).context app.screen q
  by_instruction-shows env cmd app unknown q = law.quiet app.context app.screen q
  by_instruction-shows env cmd app get_version_command q =
      after_handler-shows app (get_version_handler p env app.context) q
  by_instruction-shows env cmd app set_partner_key_command q =
      after_handler-shows app (set_partner_key p env cmd app.context) q
  by_instruction-shows env cmd app check_partner_command q =
      after_handler-shows app (check_partner p env cmd app.context) q
  by_instruction-shows env cmd app process_transaction_response_command q =
      after_handler-shows app (process_transaction p env cmd app.context) q
  by_instruction-shows env cmd app check_transaction_signature_command q =
      after_handler-shows app (check_tx_signature p env cmd app.context) q
  by_instruction-shows env cmd app get_challenge q =
      after_handler-shows app (get_challenge_handler p env app.challenge app.context) q
  by_instruction-shows env cmd app prompt_ui_display q =
      after_handler-shows app (start_ui_display app.context) q
  by_instruction-shows env cmd app check_payout_address q =
      after_handler-shows app (check_addresses_and_amounts p env cmd app.context) q
  by_instruction-shows env cmd app check_asset_in_and_display q =
      after_handler-shows app (check_addresses_and_amounts p env cmd app.context) q
  by_instruction-shows env cmd app check_asset_in_no_display q =
      after_handler-shows app (check_addresses_and_amounts p env cmd app.context) q
  by_instruction-shows env cmd app check_refund_address_and_display q =
      after_handler-shows app (check_addresses_and_amounts p env cmd app.context) q
  by_instruction-shows env cmd app check_refund_address_no_display q =
      after_handler-shows app (check_addresses_and_amounts p env cmd app.context) q

-- The review that the screen shows, or warns of, is the one of this context.
abbrev pub Shows : Platform → Context → Screen → Type 0
Shows p ctx (warning r) = (r ≡ review_of p ctx) × (ctx.other_seed_payout ≡ true)
Shows p ctx (review r) = r ≡ review_of p ctx
Shows p ctx menu = Unit {0}
Shows p ctx signing_spinner = Unit {0}
Shows p ctx rejected = Unit {0}
Shows p ctx signed = Unit {0}
Shows p ctx (failed text) = Unit {0}

pub quiet-Shows : (p : Platform) (ctx : Context) (s : Screen) → asks s ≡ false → Shows p ctx s
quiet-Shows p ctx (warning r) h = absurd (ground arith)
quiet-Shows p ctx (review r) h = absurd (ground arith)
quiet-Shows p ctx menu h = tt
quiet-Shows p ctx signing_spinner h = tt
quiet-Shows p ctx rejected h = tt
quiet-Shows p ctx signed h = tt
quiet-Shows p ctx (failed text) h = tt

opened-Shows : (p : Platform) (ctx : Context) → Shows p ctx (ui_validate_amounts p ctx)
unfolding ui_validate_amounts
opened-Shows p ctx = elim (Bool-cases ctx.other_seed_payout) [
  | inr e ↦ rw e refl
  | inl e ↦ elim (Bool-cases p.screen_size_wallet) [
    | inl w ↦ rw (e, w) (refl, refl)
    | inr w ↦ rw (e, w) refl
  ]
]

abbrev pub ShowsOwn : Platform → App → Type 0
ShowsOwn p app = Shows p app.context app.screen

pub Shows-Screening : (p : Platform) → Screening p (Shows p)
Shows-Screening p = record { quiet = quiet-Shows p; opened = opened-Shows p }
