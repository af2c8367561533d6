-- ===== src/Scenarios/Amounts.antt =====
-- Amounts printed at concrete inputs.
use app_exchange.Display.Titles.{review_texts_bounds}
use app_exchange.Display.{confirm_text}
use app_exchange.Display.{review_confirm}
use app_exchange.Display.{delimiters}
use app_exchange.Scenarios.Device.{swap_message}
use app_exchange.Common.{codes}
use app_exchange.Context.{swap_transaction}
use app_exchange.Display.Titles.{HasCurrencies}
use app_exchange.Display.{review_text}
use app_exchange.Context.{zeroed}
use app_exchange.Context.Memory.{as_swap}
use app_exchange.Scenarios.Device.{device}
use app_exchange.Context.{Context}
use app_exchange.Display.{operation}
use app_exchange.Display.{review_title}
use app_exchange.Common.{ℕ, ◌∷◌, ◌≡◌, List, [], some, replicate, arith, c_string}
use app_exchange.Amount.{get_fiat_printable_amount}
use app_exchange.Amount.Text.{IsAmountText}
use app_exchange.Amount.Printing.{get_fiat_printable_amount-IsAmountText}
use app_exchange.Der.Values.{be_value}

-- 0x04D2 hundredths: "12.34".
get_fiat_printable_amount-IsAmountText_example :
    (out : List ℕ) × (get_fiat_printable_amount (4 ∷ (210 ∷ [])) 2 (replicate 40 0) 40 ≡ some out)
    × IsAmountText (be_value 0 (4 ∷ (210 ∷ []))) 2 (c_string out)
get_fiat_printable_amount-IsAmountText_example =
    get_fiat_printable_amount-IsAmountText (4 ∷ (210 ∷ [])) 2 40 (omega arith) (omega arith)
      (omega arith)

abbrev shown : Context
shown = record (zeroed 65 50) { transaction = swap_transaction swap_message }

shown-HasCurrencies : HasCurrencies (operation device shown)
unfolding operation as_swap c_string zeroed
shown-HasCurrencies = (omega arith, omega arith)

review_texts_bounds_example :
    (review_title device shown
      ≡ review_text (codes "Review transaction") (delimiters device shown) (operation device shown))
    × (review_confirm device shown ≡ confirm_text device shown)
review_texts_bounds_example = review_texts_bounds device shown shown-HasCurrencies
