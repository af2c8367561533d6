-- ===== src/Ticker.antt =====
-- src/ticker_normalization.c: the spelling of tickers. A `char[]` is the list of its bytes.
pub mod Naming
pub mod Matching
pub mod Assets
use app_exchange.Common.{
  ℕ, ◌+◌, ◌-◌, Bool, ◌&&◌, leb, ◌==◌, if◌then◌else◌, List, [], ◌∷◌, ◌++◌, length, take, drop,
  replicate, codes, c_string, strncmp_eq, strlcpy,
}
use app_exchange.CoinConfig.{ticker_max_size_b}

abbrev pub currencies_aliases : List (List ℕ × List ℕ)
currencies_aliases = (codes "USDT20", codes "USDT") ∷ (codes "REP", codes "REPv2") ∷ []

abbrev pub uppercase : ℕ → ℕ
uppercase c = if leb b'a' c && leb c b'z' then c - 32 else c

-- The loop up to `size` characters or the first NUL; `str` is the list of those `size` characters.
unfoldable pub uppercase_chars : List ℕ → List ℕ
uppercase_chars [] = []
uppercase_chars (c ∷ str) = if c == 0 then c ∷ str else uppercase c ∷ uppercase_chars str

unfoldable pub to_uppercase : List ℕ → ℕ → List ℕ
to_uppercase str size = uppercase_chars (take size str) ++ drop size str

-- The loop over the aliases: a currency that begins with a foreign name is replaced.
unfoldable pub apply_alias : List (List ℕ × List ℕ) → List ℕ → ℕ → List ℕ
apply_alias [] currency currency_size = currency
apply_alias ((foreign_name, ledger_name) ∷ aliases) currency currency_size =
    if strncmp_eq (c_string currency) foreign_name (length foreign_name)
    then strlcpy currency ledger_name currency_size
    else apply_alias aliases currency currency_size

unfoldable pub set_ledger_currency_name : List ℕ → ℕ → List ℕ
set_ledger_currency_name currency currency_size =
    apply_alias currencies_aliases currency currency_size

-- A currency field of a decoded message, as `normalize_currencies` leaves it.
unfoldable pub normalize_currency : List ℕ → List ℕ
normalize_currency currency =
    set_ledger_currency_name (to_uppercase currency (length currency)) (length currency)

-- The buffer `normalized_ticker_name`: the ticker's bytes and a NUL. What stands behind that in the
-- C array is not initialised, and nothing reads it.
unfoldable pub normalized_ticker : List ℕ → List ℕ
normalized_ticker ticker = c_string (
    set_ledger_currency_name
      (to_uppercase (ticker ++ (0 ∷ replicate (ticker_max_size_b - length ticker) 0))
        (length ticker))
      (ticker_max_size_b + 1))

unfoldable pub check_matching_ticker : List ℕ → List ℕ → Bool
check_matching_ticker ticker reference_ticker =
    length (c_string reference_ticker) == length (normalized_ticker ticker)
    && strncmp_eq (c_string reference_ticker) (normalized_ticker ticker)
        (length (normalized_ticker ticker))
