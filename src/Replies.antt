-- ===== src/Replies.antt =====
-- Replies: how many an event hands to the transport, and which are still owed. The host waits for one
-- reply to each APDU; a command that opens a review is answered by the user's choice. A reply counts
-- when it is attempted, whether or not the transport could send it.
pub mod Handlers
pub mod Events
pub mod Balance
use app_exchange.Platform.{not_installed}
use app_exchange.Signing.{sign_call}
use app_exchange.Protocol.Errors.{success}
use app_exchange.Handler.{status_only}
use app_exchange.Common.{◌&&◌}
use app_exchange.Protocol.Commands.{start_signing_transaction}
use app_exchange.Protocol.Commands.{instruction_eq}
use app_exchange.Protocol.Commands.{Instruction}
use app_exchange.Context.{Context}
use app_exchange.Protocol.Commands.{Command}
use app_exchange.Platform.{Env}
use app_exchange.Platform.{LibCall, back}
use app_exchange.Platform.{Platform}
use app_exchange.Common.{ℕ, ◌+◌, ◌≡◌, ◌≢◌, Bool, true, false, List, [], ◌∷◌, length, if◌then◌else◌}
use app_exchange.Protocol.States.{waiting_user_validation}
use app_exchange.Handler.{Outcome, End, returned, exception, trap}
use app_exchange.Display.{Screen}
use app_exchange.Application.{App, Action, attempted, asked_to_sign}
use app_exchange.Trust.Screens.{asks}

unfoldable pub reply_count : List Action → ℕ
reply_count [] = 0
reply_count (attempted r ∷ actions) = 1 + reply_count actions
reply_count (asked_to_sign call ∷ actions) = reply_count actions

-- The reply that a review on the screen owes.
abbrev pub owed : Screen → ℕ
owed s = if asks s then 1 else 0

abbrev pub one_if : Bool → ℕ
one_if b = if b then 1 else 0

-- The exception is answered by the main loop.
abbrev pub answered_above : End → ℕ
answered_above exception = 1
answered_above (returned b) = 0
answered_above trap = 0

-- A handler that leaves exactly one reply: attempted by itself, by the main loop, or by the user's choice.
pub record IsAnswered (o : Outcome) : Type 0 where
  pub one : length o.attempted + one_if o.prompts + answered_above o.end ≡ 1
  pub no_trap : o.end ≢ trap
  pub waits :
      o.prompts ≡ true → (o.end ≡ returned true) × (o.context.state ≡ waiting_user_validation)

abbrev pub is_missing : LibCall ℕ → Bool
is_missing not_installed = true
is_missing (back bss_before bss_after canary result) = false

-- The reply of the main loop behind the one of the handler: START_SIGNING_TRANSACTION has been answered
-- when the coin application turns out to be missing.
abbrev pub second_reply : Platform → Env → Command → Context → Instruction → ℕ
second_reply p env cmd ctx ins = one_if (
    instruction_eq ins start_signing_transaction
    && (env.sends (status_only success)
        && is_missing (env.sign_app (sign_call p cmd.subcommand ctx))))
