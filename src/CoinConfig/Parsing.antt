-- ===== src/CoinConfig/Parsing.antt =====
-- The parser of coin configurations accepts exactly the serialized ones.
use app_exchange.Common.{
  ℕ, ◌+◌, ◌≤◌, ◌<◌, ◌≡◌, refl, ap, List, [], ◌∷◌, ◌++◌, some, length, arith, length-append,
  append_assoc, append-nil, Option-cases, inl, inr,
}
use app_exchange.Buf.{parse_to_sized_buffer}
use app_exchange.Buf.Reading.{parse_to_sized_buffer_field}
use app_exchange.Buf.Splitting.{parse_to_sized_buffer_split, drop_at_end}
use app_exchange.CoinConfig.{
  CoinConfig, parse_coin_config, alias_name, appnames_aliases, check_ticker_length,
  check_app_name_length,
}

-- The serialized form that src/parse_coin_config.c describes.
abbrev pub serialize : List ℕ → List ℕ → List ℕ → List ℕ
serialize ticker name sub = length ticker ∷ (ticker ++ (length name ∷ (name ++ (length sub ∷ sub))))

-- An application name is replaced by one of the names in the table, or left as it is.
pub alias_name-length :
    (name : List ℕ)
    → 3 ≤ length name
    → length name ≤ 32
    → (3 ≤ length (alias_name appnames_aliases name))
      × (length (alias_name appnames_aliases name) ≤ 32)
unfolding alias_name
alias_name-length name lo hi = ground arith

abbrev pub FieldsFit : List ℕ → List ℕ → List ℕ → Type 0
FieldsFit ticker name sub =
    (1 ≤ length ticker)
    × (length ticker ≤ 9)
    × (3 ≤ length name)
    × (length name ≤ 32)
    × (length sub ≤ 64)

-- A configuration of less than 65536 bytes that is accepted is the serialization of a ticker of 1 to 9
-- bytes, a name of 3 to 32 bytes and a sub-configuration of at most 64 bytes, with nothing behind it;
-- the results are that ticker, that sub-configuration and the name's alias.
pub parse_coin_config_sound :
    (u2be : ℕ → ℕ → ℕ) (input : List ℕ) (config : CoinConfig)
    → length input < 65536
    → parse_coin_config u2be input ≡ some config
    → (name : List ℕ) × FieldsFit config.ticker name config.sub_configuration
      × (config.application_name ≡ alias_name appnames_aliases name)
      × (input ≡ serialize config.ticker name config.sub_configuration)
unfolding parse_coin_config check_ticker_length check_app_name_length
parse_coin_config_sound u2be input config fits h =
    elim (Option-cases (parse_to_sized_buffer u2be input 1 0)) [
      | inl e ↦ absurd (ground arith)
      | inr ((ticker, r1), e1) ↦ elim (Option-cases (parse_to_sized_buffer u2be input 1 r1)) [
        | inl e ↦ absurd (ground arith)
        | inr ((name, r2), e2) ↦ elim (Option-cases (parse_to_sized_buffer u2be input 1 r2)) [
          | inl e ↦ absurd (ground arith)
          | inr ((sub, r3), e3) ↦ (
            name,
            ground arith,
            ground arith,
            ground (
              arith,
              parse_to_sized_buffer_split u2be input 0 r1 ticker fits e1,
              parse_to_sized_buffer_split u2be input r1 r2 name fits e2,
              parse_to_sized_buffer_split u2be input r2 r3 sub fits e3,
              drop_at_end input r3,
              append-nil sub,
            ),
          )
        ]
      ]
    ]

-- The three fields of a serialized configuration, read one after the other.
field_reads :
    (u2be : ℕ → ℕ → ℕ) (before out rest input : List ℕ) (offset : ℕ)
    → length input < 65536
    → input ≡ before ++ (length out ∷ (out ++ rest))
    → offset ≡ length before
    → parse_to_sized_buffer u2be input 1 offset ≡ some (out, offset + 1 + length out)
field_reads u2be before out rest input offset fits e o =
    rw (e, o)
      (parse_to_sized_buffer_field u2be before out rest (
        omega (
          arith,
          ap length e,
          length-append before (length out ∷ (out ++ rest)),
          length-append out rest,
        )))

length-serialize :
    (ticker name sub : List ℕ)
    → length (serialize ticker name sub) ≡ length ticker + length name + length sub + 3
length-serialize ticker name sub = omega (
  arith,
  length-append ticker (length name ∷ (name ++ (length sub ∷ sub))),
  length-append name (length sub ∷ sub),
)

-- The parser accepts the serialization of a ticker of 1 to 9 bytes, a name of 3 to 32 bytes and a
-- sub-configuration of at most 64 bytes, and returns the ticker, the name's alias and the
-- sub-configuration.
pub parse_coin_config-serialize :
    (u2be : ℕ → ℕ → ℕ) (ticker name sub : List ℕ)
    → FieldsFit ticker name sub
    → parse_coin_config u2be (serialize ticker name sub)
      ≡ some (record {
        ticker = ticker;
        application_name = alias_name appnames_aliases name;
        sub_configuration = sub;
      })
unfolding parse_coin_config check_ticker_length check_app_name_length
parse_coin_config-serialize u2be ticker name sub fit =
    let input = serialize ticker name sub in
    let size = length-serialize ticker name sub in
    let r1 = 0 + 1 + length ticker in
    let r2 = r1 + 1 + length name in
    let e1 =
      field_reads u2be [] ticker (length name ∷ (name ++ (length sub ∷ sub))) input 0 (omega arith)
        refl refl in
    let e2 =
      field_reads u2be (length ticker ∷ ticker) name (length sub ∷ sub) input r1 (omega arith) refl
        (omega arith) in
    let e3 =
      field_reads u2be (length ticker ∷ (ticker ++ (length name ∷ name))) sub [] input r2
        (omega arith)
        (cc (append_assoc ticker (length name ∷ name) (length sub ∷ sub), append-nil sub))
        (omega (arith, length-append ticker (length name ∷ name))) in
    ground (arith, e1, e2, e3, size)
