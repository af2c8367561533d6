-- ===== src/Context/Memory.antt =====
-- Reading the union of src/globals.h. Where a member is read that was not written last, C reads the
-- bytes of the other member: what that gives depends on the compiler's layout, and is a parameter.
use app_exchange.Common.{List, ℕ}
use app_exchange.Context.{
  Transaction, raw_transaction, swap_transaction, sell_transaction, fund_transaction,
  SwapTransaction, SellTransaction, FundTransaction,
}

pub record Layout : Type 0 where
  pub raw_of : Transaction → List ℕ
  pub swap_of : Transaction → SwapTransaction
  pub sell_of : Transaction → SellTransaction
  pub fund_of : Transaction → FundTransaction

unfoldable pub as_raw : Layout → Transaction → List ℕ
as_raw l (raw_transaction b) = b
as_raw l t = l.raw_of t

unfoldable pub as_swap : Layout → Transaction → SwapTransaction
as_swap l (swap_transaction t) = t
as_swap l t = l.swap_of t

unfoldable pub as_sell : Layout → Transaction → SellTransaction
as_sell l (sell_transaction t) = t
as_sell l t = l.sell_of t

unfoldable pub as_fund : Layout → Transaction → FundTransaction
as_fund l (fund_transaction t) = t
as_fund l t = l.fund_of t
