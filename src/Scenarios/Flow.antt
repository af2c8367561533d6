-- ===== src/Scenarios/Flow.antt =====
-- Runs of the application on the concrete device: the flow of states, the approval, the replies.
use app_exchange.Flow.Warned.{run-WarnsFirst}
use app_exchange.Flow.Warned.{WarnsFirst}
use app_exchange.Common.{◌≡◌, ◌+◌}
use app_exchange.Application.{Event, apdu}
use app_exchange.Application.Cycle.{boot, step, run}
use app_exchange.Flow.{Moves}
use app_exchange.Flow.Refines.{step-Moves, trigger_of}
use app_exchange.Flow.Seen.{run-SignsSeen, SignsSeen}
use app_exchange.Replies.{reply_count, owed}
use app_exchange.Replies.Balance.{
  step-balance, run-balance, requests, dropped, doubled, attempts, sum_over,
}
use app_exchange.Trust.Calls.{calls_of}
use app_exchange.Trust.Approval.{run-SignsTrusted, SignsTrusted}
use app_exchange.Trust.Run.{boot-IsSound}
use app_exchange.Scenarios.Device.{device, calm}
use app_exchange.Scenarios.{start_apdu}
use app_exchange.Scenarios.Exchange.{up_to_review, approved, sign_event, signed_without_coin}

abbrev start_event : Event
start_event = apdu calm start_apdu

step-Moves_example :
    Moves
      (trigger_of device (boot device calm) start_event)
      (boot device calm).context.state
      (step device (boot device calm) start_event).0.context.state
step-Moves_example = step-Moves device (boot device calm) start_event (boot-IsSound device calm)

run-SignsTrusted_example :
    SignsTrusted device
      (run device (boot device calm) approved).context
      (calls_of (step device (run device (boot device calm) approved) sign_event).1)
run-SignsTrusted_example = run-SignsTrusted device calm approved sign_event

run-SignsSeen_example :
    SignsSeen device
      (boot device calm)
      approved
      (calls_of (step device (run device (boot device calm) approved) sign_event).1)
run-SignsSeen_example = run-SignsSeen device calm approved sign_event

step-balance_example :
    reply_count (step device (boot device calm) start_event).1
      + owed (step device (boot device calm) start_event).0.screen
      + dropped (boot device calm) start_event
    ≡ requests start_event
      + owed (boot device calm).screen
      + doubled device (boot device calm) start_event
step-balance_example = step-balance device (boot device calm) start_event (boot-IsSound device calm)

run-balance_example :
    sum_over attempts device (boot device calm) signed_without_coin
      + owed (run device (boot device calm) signed_without_coin).screen
      + sum_over (λ _. dropped) device (boot device calm) signed_without_coin
    ≡ sum_over (λ _ _. requests) device (boot device calm) signed_without_coin
      + sum_over doubled device (boot device calm) signed_without_coin
run-balance_example = run-balance device calm signed_without_coin

run-WarnsFirst_example : WarnsFirst device (boot device calm) up_to_review
run-WarnsFirst_example = run-WarnsFirst device calm up_to_review
