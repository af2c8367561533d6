-- ===== src/Refusals.antt =====
-- Refusals: which replies are errors (src/swap_errors.h), and what they leave of the exchange.
pub mod Handlers
pub mod Steps
use app_exchange.Common.{ℕ, ◌≡◌, Bool, true, false, not, ◌||◌, ◌==◌, List, [], ◌∷◌, ◌⊎◌}
use app_exchange.Protocol.Errors.{success, error_value}
use app_exchange.Protocol.States.{initial_state}
use app_exchange.Context.{Context}
use app_exchange.Platform.{Response}
use app_exchange.Handler.{Outcome, exception}
use app_exchange.Application.{Action, attempted, asked_to_sign}

abbrev pub is_error : Response → Bool
is_error r = not (error_value r.status == error_value success)

unfoldable pub has_error : List Response → Bool
has_error [] = false
has_error (r ∷ rs) = is_error r || has_error rs

unfoldable pub reports_error : List Action → Bool
reports_error [] = false
reports_error (attempted r ∷ actions) = is_error r || reports_error actions
reports_error (asked_to_sign call ∷ actions) = reports_error actions

-- The exchange stands where it stood, or is over.
abbrev pub StaysOrEnds : Context → Context → Type 0
StaysOrEnds ctx c = (c.state ≡ ctx.state) ⊎ (c.state ≡ initial_state)

-- A handler that replies with an error, or is left by the exception, has not gone on.
abbrev pub RefusesInPlace : Context → Outcome → Type 0
RefusesInPlace ctx o =
    (has_error o.attempted ≡ true) ⊎ (o.end ≡ exception) → StaysOrEnds ctx o.context
