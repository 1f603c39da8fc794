-- ===== src/Lwwire/Serve/Ends.antt =====
-- The loop of lwwire/lwwire.c as a whole, and how much of the line a round takes.
use fip.Base.{ℕ, zero, suc, ◌≤◌, ◌<◌, ◌≡◌, refl, subst, List, [], ◌∷◌, arith, length, get_or}
use fip.Lwwire.Channel.{Arrival, Received, got, eof, error, readdata}
use fip.Lwwire.Channel.Laws.{Token, byte, fault, wire, receive, readdata_lem}
use fip.Lwwire.Server.{Extension, Server, Outcome, returns, exits, ◌>>=◌, protoerror}
use fip.Lwwire.Serve.{handle, round, serve}
use fip.Lwwire.Serve.Keeps.{
  Follows-refl, Follows-trans, Follows-arrivals, Ends, Ends-from, Ends-bind, protoerror-Follows,
}
use fip.Lwwire.Serve.Operations.{handle-Ends}

-- What reading one byte off the stream leaves.
Shortens : List Token → Received × List Token → Type 0
Shortens ts (got buf, rest) = length rest < length ts
Shortens ts (error timed_out, rest) = length rest < length ts
Shortens ts (eof, rest) = length rest ≤ length ts

receive-Shortens : (ts : List Token) → Shortens ts (receive 1 [] ts)
unfolding receive Shortens
receive-Shortens [] = omega arith
receive-Shortens (byte b ∷ ts) = omega arith
receive-Shortens (fault t ∷ ts) = omega arith

readdata-Shortens :
    (es : List Arrival) → Shortens (wire es) ((readdata 1 [] es).0, wire (readdata 1 [] es).1)
readdata-Shortens es =
    subst (Shortens (wire es)) (readdata_lem 1 [] es) (receive-Shortens (wire es))

module _ {X : Type 0} (extensions : ℕ → Extension X) where
  -- What a round does to the length of the line.
  Passes : Server X → Outcome X Unit → Type 0
  Passes s (returns a t) = length (wire t.arrivals) < length (wire s.arrivals)
  Passes s (exits c t) = Unit

  Passes-from :
      (s t : Server X) (o : Outcome X Unit)
      → length (wire t.arrivals) < length (wire s.arrivals)
      → Ends extensions t o
      → Passes s o
  unfolding Passes
  Passes-from s t (returns a u) l p = omega (arith, l, p.line)
  Passes-from s t (exits c u) l p = tt

  -- `round` with the byte read
  taken : Received × List Arrival → Server X → Outcome X Unit
  taken r s = elim r.0 [
    | error timed_out ↦ returns tt (protoerror extensions (record s { arrivals = r.1 }))
    | eof ↦ exits 0 (record s { arrivals = r.1 })
    | got buf ↦ handle extensions (get_or buf 0 0) (record s { arrivals = r.1 })
  ]

  taken-Passes :
      (s : Server X) (r : Received × List Arrival)
      → Shortens (wire s.arrivals) (r.0, wire r.1)
      → Passes s (taken r s) × Ends extensions s (taken r s)
  unfolding Shortens taken Passes
  taken-Passes s (got buf, es) l =
      let t = record s { arrivals = es } in
      (
        Passes-from s t (handle extensions (get_or buf 0 0) t) l
            (handle-Ends extensions (get_or buf 0 0) t),
        Ends-from extensions (handle extensions (get_or buf 0 0) t)
            (Follows-arrivals extensions s es (omega arith))
            (handle-Ends extensions (get_or buf 0 0) t),
      )
  taken-Passes s (eof, es) l = (tt, Follows-arrivals extensions s es l)
  taken-Passes s (error timed_out, es) l =
      let t = record s { arrivals = es } in
      let p = protoerror-Follows extensions t in
      (
        omega (arith, l, p.line),
        Follows-trans extensions (Follows-arrivals extensions s es (omega arith)) p,
      )

  round-Passes :
      (s : Server X) → Passes s (round extensions s) × Ends extensions s (round extensions s)
  unfolding round taken
  round-Passes s = taken-Passes s (readdata 1 [] s.arrivals) (readdata-Shortens s.arrivals)

  -- For any number of rounds, and however the server ends: the file of a read-only drive is not
  -- changed, and a drive stays read-only or not; an extension that was disabled and has no
  -- `enable` stays disabled; and the line has no more bytes and errors than before.
  pub serve-Ends : (f : ℕ) (s : Server X) → Ends extensions s (serve extensions f s)
  unfolding serve
  serve-Ends zero s = Follows-refl extensions s
  serve-Ends (suc f) s =
      Ends-bind extensions s (round extensions s) _ (round-Passes s).1 (λ done t. serve-Ends f t)

  -- What runs on after a round that shortens the line.
  finishes :
      (f : ℕ) (s : Server X) (o : Outcome X Unit)
      → Passes s o
      → ((t : Server X)
          → length (wire t.arrivals) < length (wire s.arrivals)
          → (c : ℕ) × ((t' : Server X) × (serve extensions f t ≡ exits c t')))
      → (c : ℕ) × ((t' : Server X) × ((o >>= λ done t. serve extensions f t) ≡ exits c t'))
  unfolding Passes
  finishes f s (returns a t) l later = later t l
  finishes f s (exits c t) l later = (c, (t, refl))

  -- With more rounds than the line has bytes and errors, the server ends by `exit`: its loop
  -- takes one of them in each round, or ends.
  pub serve_finishes :
      (f : ℕ) (s : Server X)
      → length (wire s.arrivals) < f
      → (c : ℕ) × ((s' : Server X) × (serve extensions f s ≡ exits c s'))
  unfolding serve
  serve_finishes zero s l = elim l [ ]
  serve_finishes (suc f) s l =
      finishes f s (round extensions s) (round-Passes s).0
        (λ t shorter. serve_finishes f t (omega arith))
