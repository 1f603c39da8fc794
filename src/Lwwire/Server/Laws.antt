-- ===== src/Lwwire/Server/Laws.antt =====
-- What the shared calls of lwwire/lwwire.c do to the state of the server.
use fip.Base.{ℕ, ◌≡◌, ap, ap₂, some, List, ◌++◌, length}
use fip.Lwwire.Channel.{Arrival, Departure, writedata, Arrival}
use fip.Lwwire.Channel.Laws.{wire, tokens, Token, readdata-tokens, IsOpen, writedata_lem}
use fip.Lwwire.Server.{Extension, Server, returns, received, dispatched, read, write}

module _ {X : Type 0} where
  -- A request that arrives whole is read whole, in whatever pieces it comes.
  pub read_lem :
      (extensions : ℕ → Extension X) (n : ℕ) (xs : List ℕ) (ts : List Token) (s : Server X)
      → wire s.arrivals ≡ tokens xs ++ ts
      → length xs ≡ n
      → (es : List Arrival) × (read extensions n s ≡ returns (some xs) (record s { arrivals = es }))
        × (wire es ≡ ts)
  unfolding read received
  read_lem extensions n xs ts s w l =
      let (es, e, rest) = readdata-tokens n xs ts s.arrivals w l in
      (es, ap (received extensions s) e, rest)

  -- On an open line all is sent.
  pub write_lem :
      (buf : List ℕ) (s : Server X)
      → IsOpen s.departures
      → (ds : List Departure) × (write buf s
          ≡ returns tt (record s { sent = s.sent ++ buf; departures = ds }))
        × IsOpen ds
  unfolding write dispatched
  write_lem buf s o =
      let (opens, whole, _) = writedata_lem buf s.departures in
      let (done, still) = opens o in
      let ds = (writedata buf s.departures).1.1 in
      (ds, ap₂ (λ b xs. dispatched s (b, (xs, ds))) done (whole done), still)
