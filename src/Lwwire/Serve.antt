-- ===== src/Lwwire/Serve.antt =====
-- The loop of `main` in lwwire/lwwire.c: one operation code after the other.
pub mod Keeps
pub mod Operations
pub mod Ends
pub mod Sessions
use fip.Base.{
  ℕ, zero, suc, ◌+◌, ◌-◌, ◌*◌, ◌/◌, ◌%◌, ◌^◌, ◌≤◌, ◌<◌, min, bit_and, bit_or, ◌≡◌, refl, sym, ap,
  ap₂, ◌∙◌, subst, ◌≢◌, ◌↔◌, ◌⊎◌, inl, inr, Bool, true, false, ◌&&◌, ◌||◌, not, Option, none, some,
  List, [], ◌∷◌, ◌++◌, append-nil, append_assoc, arith, ltb, leb, ◌==◌, if◌then◌else◌, Bool-cases,
  Option-cases, ltb→lt, lt→ltb, le→ltb, ==_iff, compare_cases, length, get_elem?, get_or, set, take,
  drop, replicate, All,
}
use fip.Lwwire.Channel.{got, eof, error, readdata}
use fip.Lwwire.Server.{
  Extension, Server, Outcome, returns, exits, ◌>>=◌, protoerror, reset, read, write,
}
use fip.Lwwire.Handlers.{
  tm_bytes, proto_read, proto_write, proto_readex, proto_requestextension, proto_disableextension,
  proto_extensionop,
}

module _ {X : Type 0} (extensions : ℕ → Extension X) where
  -- TIME
  unfoldable pub send_time : Server X → Outcome X Unit
  send_time s = write (tm_bytes (s.clock s.calls)) (record s { calls = s.calls + 1 })

  -- PRINT: behind a timeout `buf` still holds the operation code.
  unfoldable pub print : Server X → Outcome X Unit
  print s = read extensions 1 s >>= λ got s'.
      returns tt
        (record s' { log = s'.log ++ elim got [ none ↦ 0x50 ∷ [] | some buf ↦ take 1 buf ] })

  -- DWINIT
  unfoldable pub init : Server X → Outcome X Unit
  init s = read extensions 1 (reset extensions s) >>= λ got s'. elim got [
    | none ↦ returns tt s'
    | some buf ↦ write (0x80 ∷ []) s'
  ]

  -- GETSTAT and SETSTAT
  unfoldable pub burn : Server X → Outcome X Unit
  burn s = read extensions 2 s >>= λ got s'. returns tt s'

  -- The `switch` on the operation code
  unfoldable pub handle : ℕ → Server X → Outcome X Unit
  handle op s =
      if op == 0x00 || op == 0x46
      then returns tt s
      else if op == 0x23
      then send_time s
      else if op == 0x47 || op == 0x53
      then burn s
      else if op == 0x49 || op == 0x54 || op == 0xf8 || op == 0xfe || op == 0xff
      then returns tt (reset extensions s)
      else if op == 0x50
      then print s
      else if op == 0x52 || op == 0x72
      then proto_read extensions s
      else if op == 0x57 || op == 0x77
      then proto_write extensions s
      else if op == 0x5a
      then init s
      else if op == 0xd2 || op == 0xf2
      then proto_readex extensions s
      else if op == 0xf0
      then proto_requestextension extensions s
      else if op == 0xf1
      then proto_disableextension extensions s
      else if op == 0xf3
      then proto_extensionop extensions s
      else returns tt (protoerror extensions s)

  -- One round of the loop.
  unfoldable pub round : Server X → Outcome X Unit
  round s =
      let (r, es) = readdata 1 [] s.arrivals in
      let s' = record s { arrivals = es } in
      elim r [
        | error timed_out ↦ returns tt (protoerror extensions s')
        | eof ↦ exits 0 s'
        | got buf ↦ handle (get_or buf 0 0) s'
      ]

  -- The loop, for so many rounds at most.
  unfoldable pub serve : ℕ → Server X → Outcome X Unit
  serve zero s = returns tt s
  serve (suc f) s = round s >>= λ done s'. serve f s'
