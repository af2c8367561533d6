-- ===== src/Handler.antt =====
-- The shape of a command handler: it works on `G_swap_ctx`, may stop with a status word to reply,
-- may be left by the exception of `os_lib_call`, and else has a value.
pub mod Rules
use app_exchange.Common.{Bool, true, false, List, [], ◌∷◌, Option, none, some, if◌then◌else◌}
use app_exchange.Protocol.Errors.{SwapError, success}
use app_exchange.Protocol.States.{State, waiting_user_validation}
use app_exchange.Context.{Context}
use app_exchange.Platform.{Env, Response}

pub data Exit {ℓ} (A : Type ℓ) : Type ℓ where
  value : A → Exit A
  refuse : Response → Exit A
  thrown : Exit A

abbrev pub M {ℓ} : Type ℓ → Type ℓ
M A = Context → Exit A × Context

abbrev pub after {ℓ κ} : {A : Type ℓ} {B : Type κ} → Exit A × Context → (A → M B) → Exit B × Context
after (value a, ctx) f = f a ctx
after (refuse r, ctx) f = (refuse r, ctx)
after (thrown, ctx) f = (thrown, ctx)

infixl 5 ◌>>=◌ ◌>>◌
abbrev pub ◌>>=◌ {ℓ κ} : {A : Type ℓ} {B : Type κ} → M A → (A → M B) → M B
◌>>=◌ m f ctx = after (m ctx) f

abbrev pub ◌>>◌ {ℓ} : {B : Type ℓ} → M (Unit {0}) → M B → M B
◌>>◌ m k = m >>= λ _. k

-- `return reply_error(e)`
abbrev pub fail {ℓ} : {A : Type ℓ} → SwapError → M A
fail e ctx = (refuse (record { body = []; status = e }), ctx)

abbrev pub require : Bool → SwapError → M (Unit {0})
require true e ctx = (value tt, ctx)
require false e ctx = fail e ctx

abbrev pub from_option {ℓ} : {A : Type ℓ} → Option A → SwapError → M A
from_option none e ctx = fail e ctx
from_option (some a) e ctx = (value a, ctx)

abbrev pub read {ℓ} : {A : Type ℓ} → (Context → A) → M A
read f ctx = (value (f ctx), ctx)

abbrev pub modify : (Context → Context) → M (Unit {0})
modify f ctx = (value tt, f ctx)

abbrev pub done : M (Unit {0})
done ctx = (value tt, ctx)

-- How a handler ends: with its result, true for one that is not negative, by the
-- exception, or (for a command that has no handler) by the compiler's trap.
pub data End : Type 0 where
  returned : Bool → End
  exception : End
  trap : End

pub record Outcome : Type 0 where
  pub context : Context
  -- The replies handed to the transport; `env.sends` tells whether it could send one.
  pub attempted : List Response
  -- Whether `ui_validate_amounts` was called.
  pub prompts : Bool
  pub end : End

abbrev pub status_only : SwapError → Response
status_only e = record { body = []; status = e }

-- The end of a handler that replies `r` and then moves to the next state.
unfoldable pub conclude : Env → Response → (Context → Context) → Exit (Unit {0}) × Context → Outcome
conclude env r next (value _, ctx) =
    if env.sends r
    then record { context = next ctx; attempted = r ∷ []; prompts = false; end = returned true }
    else record { context = ctx; attempted = r ∷ []; prompts = false; end = returned false }
conclude env r next (refuse e, ctx) = record {
  context = ctx;
  attempted = e ∷ [];
  prompts = false;
  end = returned (env.sends e);
}
conclude env r next (thrown, ctx) = record {
  context = ctx;
  attempted = [];
  prompts = false;
  end = exception;
}

-- `start_ui_display`, the end of a handler that replies later, when the user has chosen.
unfoldable pub start_ui_display : Context → Outcome
start_ui_display ctx = record {
  context = record ctx { state = waiting_user_validation };
  attempted = [];
  prompts = true;
  end = returned true;
}

unfoldable pub conclude_display : Env → Exit (Unit {0}) × Context → Outcome
unfolding start_ui_display
conclude_display env (value _, ctx) = start_ui_display ctx
conclude_display env (refuse e, ctx) = record {
  context = ctx;
  attempted = e ∷ [];
  prompts = false;
  end = returned (env.sends e);
}
conclude_display env (thrown, ctx) = record {
  context = ctx;
  attempted = [];
  prompts = false;
  end = exception;
}

abbrev pub enter : State → Context → Context
enter s ctx = record ctx { state = s }
