-- ===== src/CoinConfig.antt =====
-- src/parse_coin_config.c and the length checks of src/checks.h: the configuration of a coin, that
-- is its ticker, the name of its application and a sub-configuration, each behind its length.
pub mod Parsing
use app_exchange.Common.{
  ℕ, ◌≤◌, Bool, true, false, not, ◌&&◌, ◌||◌, ◌==◌, ltb, if◌then◌else◌, List, [], ◌∷◌, Option, none,
  some, length, codes, bytes_eq,
}
use app_exchange.Common.Maybe.{◌>>=◌, ◌>>◌, guard}
use app_exchange.Buf.{parse_to_sized_buffer}

abbrev pub min_der_signature_length : ℕ
min_der_signature_length = 67

abbrev pub max_der_signature_length : ℕ
max_der_signature_length = 73

abbrev pub ticker_max_size_b : ℕ
ticker_max_size_b = 9

-- BOLOS_APPNAME_MAX_SIZE_B, whose value src/checks.h states.
abbrev pub appname_max_size_b : ℕ
appname_max_size_b = 32

abbrev pub max_coin_sub_config_size : ℕ
max_coin_sub_config_size = 64

unfoldable pub check_der_signature_length : List ℕ → Bool
check_der_signature_length der =
    not (ltb (length der) min_der_signature_length || ltb max_der_signature_length (length der))

unfoldable pub check_ticker_length : List ℕ → Bool
check_ticker_length ticker = not (ltb (length ticker) 1 || ltb ticker_max_size_b (length ticker))

unfoldable pub check_app_name_length : List ℕ → Bool
check_app_name_length app_name =
    not (ltb (length app_name) 3 || ltb appname_max_size_b (length app_name))

abbrev pub appnames_aliases : List (List ℕ × List ℕ)
appnames_aliases =
    (codes "Tezos", codes "Tezos Wallet")
    ∷ (codes "bsc", codes "Binance Smart Chain")
    ∷ (codes "Bsc", codes "Binance Smart Chain")
    ∷ []

-- The loop over the aliases: the first one whose foreign name is the received name replaces it.
unfoldable pub alias_name : List (List ℕ × List ℕ) → List ℕ → List ℕ
alias_name [] application_name = application_name
alias_name ((foreign_name, app_name) ∷ aliases) application_name =
    if length foreign_name == length application_name && bytes_eq application_name foreign_name
    then app_name
    else alias_name aliases application_name

pub record CoinConfig : Type 0 where
  pub ticker : List ℕ
  pub application_name : List ℕ
  pub sub_configuration : List ℕ

unfoldable pub parse_coin_config : (ℕ → ℕ → ℕ) → List ℕ → Option CoinConfig
parse_coin_config u2be input = do
  (ticker, after_ticker) ← parse_to_sized_buffer u2be input 1 0
  guard (check_ticker_length ticker)
  (application_name, after_name) ← parse_to_sized_buffer u2be input 1 after_ticker
  guard (check_app_name_length application_name)
  (sub_configuration, total_read) ← parse_to_sized_buffer u2be input 1 after_name
  guard (not (ltb max_coin_sub_config_size (length sub_configuration)))
  guard (length input == total_read)
  some (record {
    ticker = ticker;
    application_name = alias_name appnames_aliases application_name;
    sub_configuration = sub_configuration;
  })
