-- ===== src/Ticker/Matching.antt =====
-- The comparison of a coin's ticker with a currency of the message, both of them normalized.
use app_exchange.Common.{bytes_eq_refl}
use app_exchange.Common.{==_refl}
use app_exchange.Common.{bytes_eq→eq}
use app_exchange.Common.{&&-true_right}
use app_exchange.Common.{&&-true_left}
use app_exchange.Common.{==_iff}
use app_exchange.Common.{drop-all}
use app_exchange.Common.{take-all}
use app_exchange.Common.{
  ℕ, ◌+◌, ◌-◌, ◌≤◌, ◌<◌, ◌≡◌, sym, ◌∙◌, ◌==◌, true, List, ◌∷◌, ◌++◌, map, ◌&&◌, ◌↔◌, length, arith,
  All, take, drop, replicate, c_string, strncmp_eq, append-nil, take-append_left, drop-append_left,
  c_string-terminated,
}
use app_exchange.Ticker.{
  uppercase, uppercase_chars, to_uppercase, normalize_currency, normalized_ticker,
  check_matching_ticker,
}
use app_exchange.Ticker.Naming.{
  renamed_by_prefix, uppercase_chars-map, map-positive, c_string-uppercase_chars, renamed,
}
use app_exchange.CoinConfig.{ticker_max_size_b}

-- A currency field of a message, with room for the longest alias.
normalize_currency-renamed :
    (currency : List ℕ)
    → 5 < length currency
    → c_string (normalize_currency currency) ≡ renamed_by_prefix (map uppercase (c_string currency))
unfolding normalize_currency to_uppercase renamed_by_prefix
normalize_currency-renamed currency room =
    let upper =
      uppercase_chars (take (length currency) currency) ++ drop (length currency) currency in
    let same : c_string upper ≡ map uppercase (c_string currency) =
      rw (take-all currency, drop-all currency, append-nil (uppercase_chars currency))
        (c_string-uppercase_chars currency) in
    rw (sym same) (renamed upper (length currency) room)

-- A ticker of a configuration.
normalized_ticker-renamed :
    (ticker : List ℕ)
    → All (λ c. 1 ≤ c) ticker
    → length ticker ≤ ticker_max_size_b
    → normalized_ticker ticker ≡ renamed_by_prefix (map uppercase ticker)
unfolding normalized_ticker to_uppercase renamed_by_prefix
normalized_ticker-renamed ticker positive short =
    let rest : List ℕ = replicate (ticker_max_size_b - length ticker) 0 in
    let upper =
      uppercase_chars (take (length ticker) (ticker ++ (0 ∷ rest)))
      ++ drop (length ticker) (ticker ++ (0 ∷ rest)) in
    let same : c_string upper ≡ map uppercase ticker =
      rw
        (
          take-append_left ticker (0 ∷ rest),
          drop-append_left ticker (0 ∷ rest),
          uppercase_chars-map ticker positive,
        )
        (c_string-terminated (map uppercase ticker) rest (map-positive ticker positive)) in
    rw (sym same) (renamed upper (ticker_max_size_b + 1) (omega arith))

strncmp_eq-whole :
    (a b : List ℕ) → ((length a == length b && strncmp_eq a b (length b)) ≡ true) ↔ (a ≡ b)
unfolding strncmp_eq
strncmp_eq-whole a b = (
  (λ h.
      let long : length a ≡ length b = (==_iff (length a) (length b)).0 (&&-true_left _ _ h) in
      let equal = &&-true_right (length a == length b) _ h in
      let whole : take (length b) a ≡ a = rw (sym long) (take-all a) in
      sym whole ∙ (bytes_eq→eq (take (length b) a) (take (length b) b) equal ∙ take-all b)),
  (λ e. rw (e, ==_refl (length b)) (bytes_eq_refl (take (length b) b))),
)

pub check_matching_ticker-renamed :
    (ticker currency : List ℕ)
    → All (λ c. 1 ≤ c) ticker
    → length ticker ≤ ticker_max_size_b
    → 5 < length currency
    → (check_matching_ticker ticker (normalize_currency currency) ≡ true) ↔ (
        renamed_by_prefix (map uppercase (c_string currency))
        ≡ renamed_by_prefix (map uppercase ticker))
unfolding check_matching_ticker
check_matching_ticker-renamed ticker currency positive short room =
    rw
      (
        sym (normalize_currency-renamed currency room),
        sym (normalized_ticker-renamed ticker positive short),
      )
      (strncmp_eq-whole (c_string (normalize_currency currency)) (normalized_ticker ticker))
