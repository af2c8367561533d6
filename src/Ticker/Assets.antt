-- ===== src/Ticker/Assets.antt =====
-- Which spellings of a ticker name the same asset, apart from the code: letters of either case, and two
-- assets that Ledger and a partner call differently. It is compared with what the code does.
use app_exchange.Common.{
  ℕ, ◌-◌, ◌≤◌, ◌<◌, ◌≡◌, refl, sym, ap, ◌∙◌, true, false, List, [], ◌∷◌, map, ◌⊎◌, inl, inr, ◌↔◌,
  length, arith, All, Bool-cases, if◌then◌else◌, ltb, codes, c_string, bytes_eq, bytes_eq→eq, ◌&&◌,
}
use app_exchange.Ticker.{uppercase, normalize_currency, check_matching_ticker}
use app_exchange.Ticker.Naming.{starts_with, renamed_by_prefix}
use app_exchange.Ticker.Matching.{check_matching_ticker-renamed}
use app_exchange.CoinConfig.{ticker_max_size_b}

abbrev capital : ℕ → ℕ
capital c = if ltb 96 c && ltb c 123 then c - 32 else c

-- A name in capital letters.
abbrev pub capitals : List ℕ → List ℕ
capitals name = map capital name

-- An asset, of a name in capital letters. USDT20 and USDT are one, and so are REP and REPv2.
unfoldable pub asset : List ℕ → List ℕ
asset name =
    if bytes_eq name (codes "USDT20")
    then codes "USDT"
    else if bytes_eq name (codes "REP")
    then codes "REPV2"
    else name

-- A name that does not go on behind one of the foreign names, such as REPX does.
pub record IsPlain (name : List ℕ) : Type 0 where
  pub usdt : starts_with (codes "USDT20") (capitals name) ≡ true → capitals name ≡ codes "USDT20"
  pub rep :
      starts_with (codes "REP") (capitals name) ≡ true
      → (capitals name ≡ codes "REP") ⊎ (capitals name ≡ codes "REPV2")

-- How Ledger writes an asset.
written : List ℕ → List ℕ
written name = if bytes_eq name (codes "REPV2") then codes "REPv2" else name

map-uppercase-capital : (name : List ℕ) → map uppercase name ≡ capitals name
map-uppercase-capital [] = refl
map-uppercase-capital (c ∷ name) =
    let one : uppercase c ≡ capital c = ground arith in rw (one, map-uppercase-capital name) refl

capitals_twice : (name : List ℕ) → capitals (capitals name) ≡ capitals name
capitals_twice [] = refl
capitals_twice (c ∷ name) =
    let once : capital (capital c) ≡ capital c = ground arith in rw (once, capitals_twice name) refl

differs :
    (prefix name other : List ℕ)
    → starts_with prefix name ≡ false
    → starts_with prefix other ≡ true
    → bytes_eq name other ≡ false
differs prefix name other absent present = elim (Bool-cases (bytes_eq name other)) [
  | inr e ↦ e
  | inl e ↦ let same = ap (starts_with prefix) (bytes_eq→eq name other e) in absurd (ground arith)
]

-- The prefixes are whole names where the name is plain.
renamed-written :
    (name : List ℕ)
    → IsPlain name
    → renamed_by_prefix (capitals name) ≡ written (asset (capitals name))
unfolding renamed_by_prefix written asset
renamed-written name plain =
    let n = capitals name in
    elim (Bool-cases (starts_with (codes "USDT20") n)) [
      | inl e ↦ let same = plain.usdt e in rw same (unfold starts_with bytes_eq in refl)
      | inr e ↦ elim (Bool-cases (starts_with (codes "REP") n)) [
        | inl r ↦ elim (plain.rep r) [
          | inl same ↦ rw same (unfold starts_with bytes_eq in refl)
          | inr same ↦ rw same (unfold starts_with bytes_eq in refl)
        ]
        | inr r ↦
            let no_usdt =
              differs (codes "USDT20") n (codes "USDT20") e (unfold starts_with in refl) in
            let no_rep = differs (codes "REP") n (codes "REP") r (unfold starts_with in refl) in
            let no_repv2 = differs (codes "REP") n (codes "REPV2") r (unfold starts_with in refl) in
            rw (e, r, no_usdt, no_rep, no_repv2) refl
      ]
    ]

capitals-written : (name : List ℕ) → capitals name ≡ name → capitals (written name) ≡ name
unfolding written
capitals-written name same = elim (Bool-cases (bytes_eq name (codes "REPV2"))) [
  | inl e ↦ rw e (sym (bytes_eq→eq name (codes "REPV2") e))
  | inr e ↦ rw e same
]

capitals-asset : (name : List ℕ) → capitals (asset (capitals name)) ≡ asset (capitals name)
unfolding asset
capitals-asset name = elim (Bool-cases (bytes_eq (capitals name) (codes "USDT20"))) [
  | inl e ↦ rw e refl
  | inr e ↦ elim (Bool-cases (bytes_eq (capitals name) (codes "REP"))) [
    | inl r ↦ rw (e, r) refl
    | inr r ↦ rw (e, r) (capitals_twice name)
  ]
]

same_asset :
    (a b : List ℕ)
    → IsPlain a
    → IsPlain b
    → (renamed_by_prefix (map uppercase a) ≡ renamed_by_prefix (map uppercase b))
      ↔ (asset (capitals a) ≡ asset (capitals b))
same_asset a b plain_a plain_b =
    let back = λ (name : List ℕ). capitals-written (asset (capitals name)) (capitals-asset name) in
    rw
      (
        map-uppercase-capital a,
        map-uppercase-capital b,
        renamed-written a plain_a,
        renamed-written b plain_b,
      )
      ((λ same. sym (back a) ∙ (ap capitals same ∙ back b)), (λ same. ap written same))

-- The comparison of a coin's ticker with a currency of the message tells whether they name the same
-- asset: up to the case of letters, and USDT20 is USDT, REP is REPv2. This is so for a ticker of at most
-- nine characters without a NUL and a currency field with room for the longest alias, if neither name
-- goes on behind a foreign one of the table of aliases (as REPX does behind REP).
pub check_matching_ticker-asset :
    (ticker currency : List ℕ)
    → All (λ c. 1 ≤ c) ticker
    → length ticker ≤ ticker_max_size_b
    → 5 < length currency
    → IsPlain ticker
    → IsPlain (c_string currency)
    → (check_matching_ticker ticker (normalize_currency currency) ≡ true)
      ↔ (asset (capitals (c_string currency)) ≡ asset (capitals ticker))
check_matching_ticker-asset ticker currency positive short room plain_ticker plain_currency =
    let (to, from) = check_matching_ticker-renamed ticker currency positive short room in
    let (to', from') = same_asset (c_string currency) ticker plain_currency plain_ticker in
    ((λ h. to' (to h)), (λ h. from (from' h)))
