-- ===== src/Ticker/Naming.antt =====
-- What the two normalizations of a ticker compute, as one function on the name in capitals.
use app_exchange.Common.{
  ℕ, ◌+◌, ◌-◌, ◌≤◌, ◌<◌, ◌≡◌, refl, ap, ◌∙◌, ◌==◌, Bool, true, false, List, [], ◌∷◌, ◌++◌, map,
  ◌&&◌, take-enough, c_string-terminated, length, arith, All, inl, inr, Bool-cases, if◌then◌else◌,
  drop, codes, c_string, strncmp_eq, strlcpy, bytes_eq, append_assoc,
}
use app_exchange.Ticker.{uppercase, uppercase_chars, apply_alias, set_ledger_currency_name}

unfoldable pub starts_with : List ℕ → List ℕ → Bool
starts_with [] text = true
starts_with (c ∷ prefix) [] = false
starts_with (c ∷ prefix) (d ∷ text) = d == c && starts_with prefix text

-- The table of the aliases on a name in capitals: it looks at how the name begins.
unfoldable pub renamed_by_prefix : List ℕ → List ℕ
renamed_by_prefix name =
    if starts_with (codes "USDT20") name
    then codes "USDT"
    else if starts_with (codes "REP") name
    then codes "REPv2"
    else name

strncmp_eq-starts_with :
    (prefix text : List ℕ) → strncmp_eq text prefix (length prefix) ≡ starts_with prefix text
unfolding strncmp_eq starts_with bytes_eq
strncmp_eq-starts_with [] text = refl
strncmp_eq-starts_with (c ∷ prefix) [] = refl
strncmp_eq-starts_with (c ∷ prefix) (d ∷ text) =
    ap (λ b. d == c && b) (unfold strncmp_eq in (strncmp_eq-starts_with prefix text))

uppercase-positive : (c : ℕ) → 1 ≤ c → 1 ≤ uppercase c
uppercase-positive c h = ground arith

pub map-positive : (s : List ℕ) → All (λ c. 1 ≤ c) s → All (λ c. 1 ≤ c) (map uppercase s)
map-positive [] h = tt
map-positive (c ∷ s) h = (uppercase-positive c h.0, map-positive s h.1)

pub uppercase_chars-map : (s : List ℕ) → All (λ c. 1 ≤ c) s → uppercase_chars s ≡ map uppercase s
unfolding uppercase_chars
uppercase_chars-map [] h = refl
uppercase_chars-map (c ∷ s) h = let rest = uppercase_chars-map s h.1 in ground arith

-- Nothing behind the first NUL plays a part.
pub c_string-uppercase_chars :
    (s : List ℕ) → c_string (uppercase_chars s) ≡ map uppercase (c_string s)
unfolding uppercase_chars c_string
c_string-uppercase_chars [] = refl
c_string-uppercase_chars (c ∷ s) =
    let rest = c_string-uppercase_chars s in
    elim (Bool-cases (c == 0)) [
      | inl e ↦ rw e (unfold c_string in (rw e refl))
      | inr e ↦
          let positive : (uppercase c == 0) ≡ false =
            let more = uppercase-positive c (ground arith) in ground arith in
          rw (e, positive) (ap (λ t. uppercase c ∷ t) rest)
    ]

pub positive-starts : (s : List ℕ) → All (λ c. 1 ≤ c) (c_string s)
unfolding c_string
positive-starts [] = tt
positive-starts (c ∷ s) =
    let rest = positive-starts s in
    elim (Bool-cases (c == 0)) [ inl e ↦ rw e tt | inr e ↦ rw e (ground arith, rest) ]

-- What the copy of an alias leaves in the array.
c_string-strlcpy :
    (dst src : List ℕ) (size : ℕ)
    → All (λ c. 1 ≤ c) src
    → length src < size
    → c_string (strlcpy dst src size) ≡ src
unfolding strlcpy
c_string-strlcpy dst src size positive fits =
    let some_room : (size == 0) ≡ false = ground arith in
    rw (some_room, take-enough src (size - 1) (omega arith))
      (ap c_string (append_assoc src (0 ∷ []) (drop (0 + length (src ++ (0 ∷ []))) dst))
        ∙ c_string-terminated src (drop (0 + length (src ++ (0 ∷ []))) dst) positive)

-- The aliases, of an array with room for each of them.
pub renamed :
    (currency : List ℕ) (size : ℕ)
    → 5 < size
    → c_string (set_ledger_currency_name currency size) ≡ (
        if starts_with (codes "USDT20") (c_string currency)
        then codes "USDT"
        else if starts_with (codes "REP") (c_string currency)
        then codes "REPv2"
        else c_string currency)
unfolding set_ledger_currency_name apply_alias
renamed currency size fits =
    let text = c_string currency in
    rw (strncmp_eq-starts_with (codes "USDT20") text, strncmp_eq-starts_with (codes "REP") text)
      (elim (Bool-cases (starts_with (codes "USDT20") text)) [
        | inl e ↦ rw e (c_string-strlcpy currency (codes "USDT") size (ground arith) (omega arith))
        | inr e ↦ elim (Bool-cases (starts_with (codes "REP") text)) [
          | inl r ↦
              rw (e, r)
                (c_string-strlcpy currency (codes "REPv2") size (ground arith) (omega arith))
          | inr r ↦ rw (e, r) refl
        ]
      ])
