-- ===== src/ApduParser/Bounds.antt =====
-- The reception of split APDUs stays inside `G_swap_ctx.raw_transaction`, 512 bytes long.
use app_exchange.Common.{
  ℕ, ◌+◌, ◌%◌, ◌≤◌, ◌≡◌, List, length, arith, write_at, length-write_at, length-take, length-drop,
}
use app_exchange.Context.{Context}
use app_exchange.Context.Memory.{Layout, as_raw}
use app_exchange.ApduParser.Reception.{
  ReceivedApdu, Reception, Verdict, reply, proceed, Header, check_apdu_validity, check_header,
  receive_chunk, receive_first, receive_next,
}

abbrev PayloadFits : Verdict → Type 0
PayloadFits (reply e) = Unit {0}
PayloadFits (proceed cmd) = length cmd.payload ≤ 512

-- Nothing is received past the end of the buffer, in the sizes and in the bytes themselves.
pub record IsBounded (l : Layout) (ctx : Context) (r : Reception) : Type 0 where
  pub size_bounded : r.received.data_length ≤ 512
  pub payload_bounded : PayloadFits r.verdict
  pub in_place :
      length (as_raw l ctx.transaction) ≡ 512 → length (as_raw l r.context.transaction) ≡ 512

module _ (l : Layout) (ctx : Context) (received : ReceivedApdu) where
  receive_first-IsBounded :
      (h : Header)
      → received.data_length ≤ 512
      → length h.chunk ≤ 255
      → IsBounded l ctx (receive_first l ctx received h)
  unfolding receive_first as_raw
  receive_first-IsBounded h old small =
      ground (arith, length-write_at (as_raw l ctx.transaction) 0 h.chunk)

  receive_next-IsBounded :
      (h : Header)
      → received.data_length ≤ 512
      → length h.chunk ≤ 255
      → IsBounded l ctx (receive_next l ctx received h)
  unfolding receive_next as_raw
  receive_next-IsBounded h old small =
      let raw = write_at (as_raw l ctx.transaction) received.data_length h.chunk in
      ground (
        arith,
        length-write_at (as_raw l ctx.transaction) received.data_length h.chunk,
        length-take ((received.data_length + length h.chunk) % 65536) raw,
      )

  receive_chunk-IsBounded :
      (h : Header)
      → received.data_length ≤ 512
      → length h.chunk ≤ 255
      → IsBounded l ctx (receive_chunk l ctx received h)
  unfolding receive_chunk
  receive_chunk-IsBounded h old small =
      ground (arith, receive_first-IsBounded h, receive_next-IsBounded h)

  check_header-IsBounded :
      (h : Header) (p2 : ℕ)
      → received.data_length ≤ 512
      → length h.chunk ≤ 255
      → IsBounded l ctx (check_header l ctx received h p2)
  unfolding check_header
  check_header-IsBounded h p2 old small = ground (arith, receive_chunk-IsBounded h)

  -- For an APDU of at most 260 bytes, the size of the SDK's reception buffer, and at most 512 bytes
  -- received before, `check_apdu_validity` leaves at most 512 bytes received, lets through a payload
  -- of at most 512 bytes, and keeps a transaction buffer of 512 bytes at that length.
  pub check_apdu_validity-IsBounded :
      (apdu : List ℕ)
      → received.data_length ≤ 512
      → length apdu ≤ 260
      → IsBounded l ctx (check_apdu_validity l ctx received apdu)
  unfolding check_apdu_validity
  check_apdu_validity-IsBounded apdu old small =
      grind (arith, check_header-IsBounded, length-drop 5 apdu)
