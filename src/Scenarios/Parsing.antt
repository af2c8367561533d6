-- ===== src/Scenarios/Parsing.antt =====
-- Runs of the parsers and encoders at concrete inputs.
use app_exchange.Der.{asn1_insert_integer}
use app_exchange.Der.{Output}
use app_exchange.Process.Amounts.{trim_pb_bytes_array-value}
use app_exchange.Process.Checks.{trim_pb_bytes_array}
use app_exchange.Process.Amounts.{amount_value}
use app_exchange.Der.Values.{asn1_insert_integer-value}
use app_exchange.Common.{get_or}
use app_exchange.Der.Values.{be_value}
use app_exchange.Protocol.Commands.{instruction_of_byte}
use app_exchange.ApduParser.Reception.{replace_legacy}
use app_exchange.Protocol.Commands.{subcommand_of_byte}
use app_exchange.Protocol.Commands.{rate_of_byte}
use app_exchange.ApduParser.{refused_for_flow}
use app_exchange.ApduParser.{requirement}
use app_exchange.ApduParser.{check_requirement}
use app_exchange.ApduParser.Reception.{receive_first}
use app_exchange.ApduParser.Reception.{receive_chunk}
use app_exchange.ApduParser.Reception.{check_extension}
use app_exchange.ApduParser.RoundTrip.{feed-split}
use app_exchange.ApduParser.Reception.{check_header}
use app_exchange.Buf.Reading.{parse_to_sized_buffer_bounds}
use app_exchange.ApduParser.Reassembly.{command}
use app_exchange.ApduParser.Guards.{check_instruction-accepts}
use app_exchange.Der.Encoding.{encode_sig_der-der_signature}
use app_exchange.Common.{drop}
use app_exchange.ApduParser.Reassembly.{continuation}
use app_exchange.ApduParser.Guards.{accepts}
use app_exchange.ApduParser.Frame.{check_apdu_validity-writes}
use app_exchange.ApduParser.Frame.{check_apdu_validity-guards}
use app_exchange.Der.Encoding.{der_signature}
use app_exchange.CoinConfig.Parsing.{parse_coin_config-serialize}
use app_exchange.Buf.Reading.{parse_to_sized_buffer_field}
use app_exchange.Common.{take}
use app_exchange.ApduParser.Bounds.{check_apdu_validity-IsBounded}
use app_exchange.CoinConfig.Parsing.{parse_coin_config_sound}
use app_exchange.ApduParser.Reception.{no_apdu}
use app_exchange.CoinConfig.{appnames_aliases}
use app_exchange.CoinConfig.{check_der_signature_length}
use app_exchange.Context.{zeroed}
use app_exchange.Scenarios.Device.{device_layout}
use app_exchange.Der.{asn1_get_encoded_integer_size}
use app_exchange.CoinConfig.{alias_name}
use app_exchange.Scenarios.Device.{u2be, amount}
use app_exchange.CheckAddressMessage.{parse_der_signature}
use app_exchange.Context.{Context}
use app_exchange.ApduParser.Reassembly.{feed}
use app_exchange.ApduParser.{check_instruction}
use app_exchange.ApduParser.Reassembly.{chunk_apdu}
use app_exchange.ApduParser.Bounds.{IsBounded}
use app_exchange.ApduParser.Reception.{check_apdu_validity}
use app_exchange.Der.{encode_sig_der}
use app_exchange.CoinConfig.{CoinConfig}
use app_exchange.CoinConfig.Parsing.{serialize}
use app_exchange.CoinConfig.{parse_coin_config}
use app_exchange.CoinConfig.Parsing.{FieldsFit}
use app_exchange.Buf.{parse_to_sized_buffer}
use app_exchange.Buf.{read_size}
use app_exchange.CheckAddressMessage.{CheckAddressMessage}
use app_exchange.Common.{replicate}
use app_exchange.CheckAddressMessage.{parse_check_address_message}
use app_exchange.CheckAddressMessage.Splitting.{parse_check_address_message_sound}
use app_exchange.Common.{
  ℕ, ◌<◌, ◌∷◌, ◌≤◌, ◌≡◌, ◌+◌, ◌⊎◌, ◌↔◌, refl, true, false, some, none, List, [], ◌++◌, arith,
  length, codes,
}
use app_exchange.Protocol.States.{provider_checked}
use app_exchange.Protocol.Commands.{swap_ng, fixed, process_transaction_response_command}
use app_exchange.Protocol.Errors.{success}
use app_exchange.ApduParser.Reception.{reply, proceed}

abbrev ready : Context
ready = record (zeroed 65 50) { state = provider_checked; subcommand = swap_ng }

-- "abcd", cut in three.
feed-split_example :
    feed device_layout ready no_apdu (
      chunk_apdu swap_ng fixed false true (codes "ab")
      ∷ continuation swap_ng fixed (codes "c") (codes "d" ∷ []))
    ≡ replicate 2 (reply success) ++ (proceed (command swap_ng fixed (codes "abcd")) ∷ [])
feed-split_example =
    feed-split device_layout swap_ng fixed ready no_apdu (codes "ab") (codes "c") (codes "d" ∷ [])
      (refl, refl, refl) (omega arith)

check_instruction-accepts_example :
    (check_instruction ready process_transaction_response_command swap_ng ≡ none)
    ↔ (accepts ready process_transaction_response_command swap_ng ≡ true)
check_instruction-accepts_example =
    check_instruction-accepts ready process_transaction_response_command swap_ng

abbrev chunk : List ℕ
chunk = chunk_apdu swap_ng fixed false true (codes "ab")

check_apdu_validity-IsBounded_example :
    IsBounded device_layout ready (check_apdu_validity device_layout ready no_apdu chunk)
check_apdu_validity-IsBounded_example =
    check_apdu_validity-IsBounded device_layout ready no_apdu chunk (omega arith) (omega arith)

check_apdu_validity-writes_example :
    ((check_apdu_validity device_layout ready no_apdu chunk).context ≡ ready)
    ⊎ (ready.state ≡ provider_checked)
check_apdu_validity-writes_example = check_apdu_validity-writes device_layout ready no_apdu chunk

abbrev whole : List ℕ
whole = chunk_apdu swap_ng fixed false false (codes "ab")

whole_proceeds :
    (check_apdu_validity device_layout ready no_apdu whole).verdict
    ≡ proceed (command swap_ng fixed (codes "ab"))
unfolding check_apdu_validity check_header check_extension receive_chunk receive_first
    check_instruction check_requirement requirement refused_for_flow rate_of_byte subcommand_of_byte
    replace_legacy instruction_of_byte command
whole_proceeds = refl

check_apdu_validity-guards_example :
    check_instruction ready process_transaction_response_command swap_ng ≡ none
unfolding command
check_apdu_validity-guards_example =
    check_apdu_validity-guards device_layout ready no_apdu whole
      (command swap_ng fixed (codes "ab")) whole_proceeds

encode_sig_der-der_signature_example :
    (encode_sig_der
        (asn1_get_encoded_integer_size (0 ∷ (200 ∷ []))
          + asn1_get_encoded_integer_size (5 ∷ [])
          + 2)
        (0 ∷ (200 ∷ []))
        (5 ∷ [])
      ≡ some (der_signature (0 ∷ (200 ∷ [])) (5 ∷ [])))
    × (length (der_signature (0 ∷ (200 ∷ [])) (5 ∷ []))
        ≡ asn1_get_encoded_integer_size (0 ∷ (200 ∷ []))
          + asn1_get_encoded_integer_size (5 ∷ [])
          + 2)
    × (length (der_signature (0 ∷ (200 ∷ [])) (5 ∷ [])) ≤ 76)
encode_sig_der-der_signature_example =
    encode_sig_der-der_signature (0 ∷ (200 ∷ [])) (5 ∷ []) (omega arith) (omega arith)

abbrev bitcoin : CoinConfig
bitcoin = record {
  ticker = codes "BTC";
  application_name = alias_name appnames_aliases (codes "Bitcoin");
  sub_configuration = 1 ∷ [];
}

abbrev bitcoin_config : List ℕ
bitcoin_config = serialize (codes "BTC") (codes "Bitcoin") (1 ∷ [])

parse_coin_config-serialize_example : parse_coin_config u2be bitcoin_config ≡ some bitcoin
parse_coin_config-serialize_example =
    parse_coin_config-serialize u2be (codes "BTC") (codes "Bitcoin") (1 ∷ [])
      (omega arith, omega arith, omega arith, omega arith, omega arith)

parsed : parse_coin_config u2be bitcoin_config ≡ some bitcoin
parsed =
    parse_coin_config-serialize u2be (codes "BTC") (codes "Bitcoin") (1 ∷ [])
      (omega arith, omega arith, omega arith, omega arith, omega arith)

parse_coin_config_sound_example :
    (name : List ℕ) × FieldsFit (codes "BTC") name (1 ∷ [])
    × (bitcoin.application_name ≡ alias_name appnames_aliases name)
    × (bitcoin_config ≡ serialize (codes "BTC") name (1 ∷ []))
parse_coin_config_sound_example =
    parse_coin_config_sound u2be bitcoin_config bitcoin (omega arith) parsed

abbrev field_content : List ℕ
field_content = 8 ∷ (9 ∷ [])

abbrev field_buffer : List ℕ
field_buffer = 7 ∷ (2 ∷ (8 ∷ (9 ∷ (5 ∷ []))))

parse_to_sized_buffer_field_example :
    parse_to_sized_buffer u2be field_buffer 1 1 ≡ some (field_content, 4)
parse_to_sized_buffer_field_example =
    parse_to_sized_buffer_field u2be (7 ∷ []) (8 ∷ (9 ∷ [])) (5 ∷ []) (omega arith)

field_read : parse_to_sized_buffer u2be field_buffer 1 1 ≡ some (field_content, 4)
unfolding parse_to_sized_buffer read_size
field_read = refl

parse_to_sized_buffer_bounds_example :
    (4 ≡ 1 + 1 + length field_content)
    × (4 ≤ length field_buffer)
    × (read_size u2be field_buffer 1 1 ≡ some (length field_content))
    × (field_content ≡ take (length field_content) (drop (1 + 1) field_buffer))
parse_to_sized_buffer_bounds_example =
    parse_to_sized_buffer_bounds u2be field_buffer 1 1 4 field_content (omega arith) field_read

abbrev message : CheckAddressMessage
message = record {
  config = 6 ∷ [];
  der = 0x30 ∷ (68 ∷ replicate 68 1);
  address_parameters = 4 ∷ [];
}

abbrev message_bytes : List ℕ
message_bytes = 1 ∷ (6 ∷ (0x30 ∷ (68 ∷ (replicate 68 1 ++ (1 ∷ (4 ∷ []))))))

message_parsed : parse_check_address_message u2be message_bytes ≡ some message
unfolding parse_check_address_message parse_der_signature parse_to_sized_buffer read_size
    check_der_signature_length
message_parsed = refl

parse_check_address_message_sound_example :
    (message_bytes
      ≡ (length message.config ∷ message.config)
        ++ (message.der ++ (length message.address_parameters ∷ message.address_parameters)))
    × (1 ≤ length message.config)
    × (1 ≤ length message.address_parameters)
    × (67 ≤ length message.der)
    × (length message.der ≤ 73)
parse_check_address_message_sound_example =
    parse_check_address_message_sound u2be message_bytes message (omega arith) message_parsed

-- A buffer with one byte written, and room for forty.
abbrev started : Output
started = record { written = 0x30 ∷ []; room = 40 }

asn1_insert_integer-value_example :
    (content : List ℕ) × (next : Output) × (asn1_insert_integer started (0 ∷ (200 ∷ []))
      ≡ some next)
    × (next.written ≡ (0x30 ∷ []) ++ (0x02 ∷ (length content ∷ content)))
    × (next.room + 2 + length content ≡ 40)
    × (1 ≤ length content)
    × (be_value 0 content ≡ 200)
    × (get_or content 0 0 < 128)
asn1_insert_integer-value_example =
    asn1_insert_integer-value started (0 ∷ (200 ∷ [])) (omega arith, (omega arith, tt))
      (omega arith) (omega arith)

trim_pb_bytes_array-value_example :
    (amount_value (trim_pb_bytes_array amount) ≡ amount_value amount)
    × ((trim_pb_bytes_array amount).size ≤ amount.size)
trim_pb_bytes_array-value_example = trim_pb_bytes_array-value amount (omega arith)
