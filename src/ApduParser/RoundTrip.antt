-- ===== src/ApduParser/RoundTrip.antt =====
-- Sending a payload in chunks and receiving it is the identity.
use app_exchange.Common.{
  ℕ, suc, ◌+◌, ◌≤◌, ◌≡◌, refl, ap, ◌∙◌, true, false, List, [], ◌∷◌, ◌++◌, length, arith, write_at,
  drop, length-append, append_assoc, append-nil, replicate,
}
use app_exchange.Protocol.Commands.{Rate, Subcommand}
use app_exchange.Protocol.Errors.{success}
use app_exchange.Context.{Context, raw_transaction}
use app_exchange.Context.Memory.{Layout, as_raw}
use app_exchange.ApduParser.Reception.{
  ReceivedApdu, Reception, Verdict, reply, proceed, receive_chunk, receive_first,
}
use app_exchange.ApduParser.Reassembly.{
  chunk_apdu, chunk_apdu-accepted, continuation, feed, concat, IsReady, header, holding, command,
  splice, receive_more, receive_last,
}

accepted :
    (r : Reception) (rest : Context → ReceivedApdu → List Verdict) {r' : Reception}
    → r ≡ r'
    → r.verdict ∷ rest r.context r.received ≡ r'.verdict ∷ rest r'.context r'.received
accepted r rest e = ap (λ t. t.verdict ∷ rest t.context t.received) e

module _ (l : Layout) (s : Subcommand) (rate : Rate) where
  feed-continuation :
      (cs : List (List ℕ)) (c acc tail : List ℕ) (ctx : Context)
      → IsReady ctx s
      → ctx.transaction ≡ raw_transaction (acc ++ tail)
      → length acc + length (c ++ concat cs) ≤ 512
      → feed l ctx (holding s rate acc) (continuation s rate c cs)
        ≡ replicate (length cs) (reply success)
          ++ (proceed (command s rate (acc ++ (c ++ concat cs))) ∷ [])
  unfolding feed
  feed-continuation [] c acc tail ctx ready e fits =
      let accepted = chunk_apdu-accepted l ctx (holding s rate acc) s rate true false c ready in
      let got = receive_last l ctx s rate acc c tail e (omega (arith, length-append c [])) in
      rw (accepted, append-nil) (ap (λ t. t ∷ []) got)
  feed-continuation (d ∷ cs) c acc tail ctx ready e fits =
      let sizes = length-append c (d ++ concat cs) in
      let step =
        chunk_apdu-accepted l ctx (holding s rate acc) s rate true true c ready
        ∙ receive_more l ctx s rate acc c tail e (omega (arith, sizes)) in
      let ctx' = record ctx {
        transaction = raw_transaction (write_at (acc ++ tail) (length acc) c);
      } in
      let ih =
        feed-continuation cs d (acc ++ c) (drop (length acc + length c) (acc ++ tail)) ctx' ready
          (ap raw_transaction (splice acc tail c)) (omega (arith, sizes, length-append acc c)) in
      accepted _ (λ ctx received. feed l ctx received (continuation s rate d cs)) step
      ∙ ap (λ t. reply success ∷ t) (rw (append_assoc acc c (d ++ concat cs)) at ih)

  receive_first_more :
      (ctx : Context) (received : ReceivedApdu) (c : List ℕ)
      → receive_chunk l ctx received (header s rate false true c) ≡ record {
        verdict = reply success;
        context = record ctx {
          transaction = raw_transaction (write_at (as_raw l ctx.transaction) 0 c);
        };
        received = holding s rate c;
      }
  unfolding receive_chunk receive_first
  receive_first_more ctx received c = refl

  -- A payload of at most 512 bytes that is cut into two chunks or more, each sent with the header of
  -- an NG flow that waits for its transaction, is answered by `success` for each chunk but the last,
  -- and the last one yields the whole payload as the command.
  pub feed-split :
      (ctx : Context) (received : ReceivedApdu) (c d : List ℕ) (cs : List (List ℕ))
      → IsReady ctx s
      → length (c ++ (d ++ concat cs)) ≤ 512
      → feed l ctx received (chunk_apdu s rate false true c ∷ continuation s rate d cs)
        ≡ replicate (suc (length cs)) (reply success)
          ++ (proceed (command s rate (c ++ (d ++ concat cs))) ∷ [])
  unfolding feed
  feed-split ctx received c d cs ready fits =
      let step =
        chunk_apdu-accepted l ctx received s rate false true c ready
        ∙ receive_first_more ctx received c in
      let ctx' = record ctx {
        transaction = raw_transaction (write_at (as_raw l ctx.transaction) 0 c);
      } in
      accepted _ (λ ctx received. feed l ctx received (continuation s rate d cs)) step
      ∙ ap (λ t. reply success ∷ t)
          (feed-continuation cs d c (drop (0 + length c) (as_raw l ctx.transaction)) ctx' ready refl
            (omega (arith, length-append c (d ++ concat cs))))
