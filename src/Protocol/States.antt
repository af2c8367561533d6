-- ===== src/Protocol/States.antt =====
-- The states of the exchange flow (src/states.h).
use app_exchange.Common.{ℕ, ◌≡◌, Bool, true, ◌==◌, arith}

pub data State : Type 0 where
  initial_state waiting_transaction provider_set provider_checked transaction_received : State
  signature_checked payout_address_checked all_addresses_checked waiting_user_validation : State
  waiting_signing sign_finished : State

-- The value that C gives to each enumerator.
abbrev pub state_value : State → ℕ
state_value initial_state = 0
state_value waiting_transaction = 1
state_value provider_set = 2
state_value provider_checked = 3
state_value transaction_received = 4
state_value signature_checked = 5
state_value payout_address_checked = 6
state_value all_addresses_checked = 7
state_value waiting_user_validation = 8
state_value waiting_signing = 9
state_value sign_finished = 10

abbrev pub state_eq : State → State → Bool
state_eq s t = state_value s == state_value t

pub state_eq→eq : (s t : State) → state_eq s t ≡ true → s ≡ t
state_eq→eq s t h = ground arith
