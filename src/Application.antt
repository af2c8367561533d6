-- ===== src/Application.antt =====
-- src/command_dispatcher.c, src/main.c and the callbacks of the review: the application between two
-- events. An event is an APDU, a choice of the user, a failure of the reception or a reset of the
-- I/O; what the device answers and the calls for a signature are the outputs.
pub mod Cycle
use app_exchange.Common.{ℕ, Bool, true, false, not, ◌&&◌, if◌then◌else◌, List, [], ◌∷◌, ◌++◌, map}
use app_exchange.Protocol.States.{State, initial_state, waiting_signing, sign_finished, state_eq}
use app_exchange.Protocol.Errors.{
  success, application_not_installed, user_refused_transaction, user_refused_cross_seed, SwapError,
}
use app_exchange.Protocol.Commands.{
  Instruction, get_version_command, start_new_transaction_command, set_partner_key_command,
  check_partner_command, process_transaction_response_command, check_transaction_signature_command,
  get_challenge, send_trusted_name_descriptor, check_payout_address, check_asset_in_and_display,
  check_asset_in_no_display, check_refund_address_and_display, check_refund_address_no_display,
  prompt_ui_display, start_signing_transaction as start_signing_command, unknown, Command,
}
use app_exchange.Context.{Context, zeroed}
use app_exchange.Platform.{Platform, Env, Response, SignCall}
use app_exchange.ApduParser.Reception.{
  ReceivedApdu, no_apdu, Verdict, reply, proceed, Reception, check_apdu_validity,
}
use app_exchange.Handler.{Outcome, End, returned, exception, trap, start_ui_display, status_only}
use app_exchange.Session.{start_new_transaction, get_version_handler, get_challenge_handler}
use app_exchange.Partner.{set_partner_key, check_partner}
use app_exchange.Process.{process_transaction}
use app_exchange.Signature.{check_tx_signature}
use app_exchange.TrustedNames.{trusted_name_descriptor_handler}
use app_exchange.Addresses.{check_addresses_and_amounts}
use app_exchange.Signing.{PreviousCycle, start_signing_transaction, refusal_text}
use app_exchange.Display.{
  Screen, Review, menu, warning, review, signing_spinner, rejected, signed, failed,
  ui_validate_amounts,
}

pub record App : Type 0 where
  pub context : Context
  pub received : ReceivedApdu
  pub challenge : ℕ
  pub screen : Screen
  pub cycle : PreviousCycle

-- A reply handed to the transport, whether or not that could send it, or a call for a signature.
pub data Action : Type 0 where
  attempted : Response → Action
  asked_to_sign : SignCall → Action

pub data Event : Type 0 where
  apdu : Env → List ℕ → Event
  choice : Env → Bool → Event
  reception_failed : Env → Event
  io_reset : Env → Event

-- A handler's outcome, with the parts of the application that some handlers change.
pub record Dispatched : Type 0 where
  pub app : App
  pub actions : List Action
  pub end : End

unfoldable pub after_handler : Platform → App → Outcome → Dispatched
after_handler p app o = record {
  app = record app {
    context = o.context;
    screen = if o.prompts then ui_validate_amounts p o.context else app.screen;
  };
  actions = map attempted o.attempted;
  end = o.end;
}

-- In state WAITING_SIGNING the menu replaces the modal.
unfoldable pub dispatch_start : Platform → Env → Command → App → Dispatched
unfolding after_handler
dispatch_start p env cmd app =
    let shown = record app {
      screen = if state_eq app.context.state waiting_signing then menu else app.screen;
    } in
    after_handler p shown (start_new_transaction p env cmd app.context)

-- A new challenge is drawn after every descriptor.
unfoldable pub dispatch_trusted_name : Platform → Env → Command → App → Dispatched
unfolding after_handler
dispatch_trusted_name p env cmd app =
    let o = trusted_name_descriptor_handler p env app.challenge cmd app.context in
    after_handler p (record app { challenge = env.rng_u32 }) o

unfoldable pub dispatch_signing : Platform → Env → Command → App → Dispatched
dispatch_signing p env cmd app =
    let o = start_signing_transaction p env cmd app.context app.cycle in
    record {
      app = record app { context = o.context; cycle = o.cycle };
      actions = map attempted o.attempted ++ map asked_to_sign o.calls;
      end = o.end;
    }

unfoldable pub dispatch_by : Platform → Env → Command → App → Instruction → Dispatched
unfolding after_handler dispatch_start dispatch_trusted_name dispatch_signing
dispatch_by p env cmd app get_version_command =
    after_handler p app (get_version_handler p env app.context)
dispatch_by p env cmd app start_new_transaction_command = dispatch_start p env cmd app
dispatch_by p env cmd app set_partner_key_command =
    after_handler p app (set_partner_key p env cmd app.context)
dispatch_by p env cmd app check_partner_command =
    after_handler p app (check_partner p env cmd app.context)
dispatch_by p env cmd app process_transaction_response_command =
    after_handler p app (process_transaction p env cmd app.context)
dispatch_by p env cmd app check_transaction_signature_command =
    after_handler p app (check_tx_signature p env cmd app.context)
dispatch_by p env cmd app get_challenge =
    after_handler p app (get_challenge_handler p env app.challenge app.context)
dispatch_by p env cmd app send_trusted_name_descriptor = dispatch_trusted_name p env cmd app
dispatch_by p env cmd app check_payout_address =
    after_handler p app (check_addresses_and_amounts p env cmd app.context)
dispatch_by p env cmd app check_asset_in_and_display =
    after_handler p app (check_addresses_and_amounts p env cmd app.context)
dispatch_by p env cmd app check_asset_in_no_display =
    after_handler p app (check_addresses_and_amounts p env cmd app.context)
dispatch_by p env cmd app check_refund_address_and_display =
    after_handler p app (check_addresses_and_amounts p env cmd app.context)
dispatch_by p env cmd app check_refund_address_no_display =
    after_handler p app (check_addresses_and_amounts p env cmd app.context)
dispatch_by p env cmd app prompt_ui_display = after_handler p app (start_ui_display app.context)
dispatch_by p env cmd app start_signing_command = dispatch_signing p env cmd app
dispatch_by p env cmd app unknown = record { app = app; actions = []; end = trap }

unfoldable pub dispatch_command : Platform → Env → Command → App → Dispatched
unfolding dispatch_by
dispatch_command p env cmd app = dispatch_by p env cmd app cmd.ins
