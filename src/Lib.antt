-- ===== src/Lib.antt =====
-- The Exchange application of a Ledger device: it shows the user a transaction that a swap, sell or
-- fund partner proposes, and has the coin application sign it once the user approves.
--
-- The program takes APDUs one at a time. src/apdu_parser.c checks each one against the state of the
-- exchange and puts split payloads together; src/command_dispatcher.c calls the handler of its
-- instruction; the handlers work on the global context of src/globals.h and reply; the callbacks of
-- src/ui/validate_transaction_nbgl.c take the user's choice; the loops of src/main.c surround it all.
--
-- Files and code:
--   Protocol: src/states.h, src/commands.h, src/swap_errors.h.
--   Buf: src/buf.c. CoinConfig: src/parse_coin_config.c, src/checks.h.
--   CheckAddressMessage: src/parse_check_address_message.c.
--   Context: src/globals.h and the messages of src/proto/protocol.pb.h. The union of the received
--     bytes and the three messages is a sum of its members; what a member holds when another one was
--     written last is a function of Platform (Context.Memory).
--   ApduParser: check_instruction and check_apdu_validity of src/apdu_parser.c.
--   Handler: the shape of a handler, a function on the context that returns its end: replies, a
--     prompt to the user, the exception that a call of a missing application throws.
--   Session: src/init.c, src/start_new_transaction.c, src/get_version_handler.c,
--     src/get_challenge_handler.c. Partner: src/set_partner_key.c, src/check_partner.c.
--   Process, Ticker: src/process_transaction.c, src/ticker_normalization.c.
--   Signature, Der: src/check_tx_signature.c, src/der.c.
--   Addresses, LibCalls, Amount: src/check_addresses_and_amounts.c, src/currency_lib_calls.c,
--     src/printable_amount.c.
--   TrustedNames: src/trusted_name_descriptor_handler.c.
--   Display, Signing: src/ui/validate_transaction_nbgl.c, src/start_signing_transaction.c,
--     src/ui/sign_result.c.
--   Application: src/command_dispatcher.c, src/main.c and the user's callbacks. An event is an APDU, a
--     choice of the user, a failure of the reception or a reset of the I/O; the replies that the device
--     attempts and the calls for a signature are the outputs of `step`, and `run` takes a list of
--     events.
--   Trust: what signatures vouch for in each state, and that every event keeps it.
--   Flow: the flow chart of the states of src/states.h, that the application follows it, what the user
--     has seen when a signature is asked for, and when a warning comes first.
--   Replies: how many replies an event of the application attempts. Refusals: what an error leaves.
--   Scenarios: runs at concrete inputs.
--
-- The names of functions are those of the code. Numbers are native; the 16-bit offsets and lengths
-- keep their wrap-around (`% 65536`), the lengths of buffers are those of lists, and the sizes of
-- arrays are written out where the code compares with them. Every loop is a recursion on a list, but
-- for the one of int64_to_str that stores digits: it has as many rounds as a 64-bit number has digits
-- (20, as 10 ^ 20 is above 2 ^ 64). Tickers are compared with an independent notion
-- of the same asset in Ticker.Assets, for names that do not go on behind a foreign name of the table of
-- aliases; the code compares the prefix of the others (Ticker.Naming).
--
-- Code outside of src/ is a parameter (Platform, Env): the cryptography and the random numbers of the
-- SDK, the protobuf decoder with its generated code, base64 (copies of other projects' files), the
-- parser of trusted names, the coin applications, and whether a reply could be sent. A reply is recorded
-- when it is handed to the transport (`attempted`), whether or not that could send it. Only where an
-- entry below names a condition do the theorems ask something of the answers of this code; elsewhere
-- they hold whatever it answers. What a verified signature proves about its signer is not modelled.
--
-- A coin application is taken to obey docs/technical_information/bss.md, which forbids it to write into
-- the memory of Exchange while it checks an address or formats an amount. The checksums and the canary
-- that the code compares afterwards are arbitrary, so MEMORY_CORRUPTION is one of the answers, but the
-- context behind it is the one before the call; with an application that breaks the rule, C goes on with
-- a context that it has changed, and none of this applies.
--
-- Not modelled either: the exception EXCEPTION_IO_RESET when it is thrown inside of a handler and the
-- CATCH_ALL of src/main.c (a reset of the I/O happens between two events only), the menus and icons, the
-- transport below the replies, logging, and the builds for the test keys.
pub mod Common
pub mod Protocol
pub mod Buf
pub mod CoinConfig
pub mod CheckAddressMessage
pub mod Context
pub mod ApduParser
pub mod Platform
pub mod Handler
pub mod Der
pub mod Partner
pub mod Session
pub mod Ticker
pub mod Process
pub mod Amount
pub mod LibCalls
pub mod Signature
pub mod Addresses
pub mod TrustedNames
pub mod Display
pub mod Signing
pub mod Application
pub mod Trust
pub mod Flow
pub mod Refusals
pub mod Replies
pub mod Scenarios
