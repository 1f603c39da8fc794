-- ===== src/Lwwire/Channel.antt =====
-- The line of lwwire/lwwire.c: `lwwire_readdata` and `lwwire_writedata` on descriptors that do not
-- block. What each `read` and `write` finds is a list of events.
pub mod Laws
use fip.Base.{
  ℕ, zero, suc, ◌+◌, ◌-◌, ◌*◌, ◌/◌, ◌%◌, ◌^◌, ◌≤◌, ◌<◌, min, bit_and, bit_or, ◌≡◌, refl, sym, ap,
  ap₂, ◌∙◌, subst, ◌≢◌, ◌↔◌, ◌⊎◌, inl, inr, Bool, true, false, ◌&&◌, ◌||◌, not, Option, none, some,
  List, [], ◌∷◌, ◌++◌, append-nil, append_assoc, arith, ltb, leb, ◌==◌, if◌then◌else◌, Bool-cases,
  Option-cases, ltb→lt, lt→ltb, le→ltb, ==_iff, compare_cases, length, get_elem?, get_or, set, take,
  drop, replicate, All,
}

-- What a `read` finds: bytes, of which it takes as many as it asks for, EAGAIN or EINTR, or another
-- error, which is ETIMEDOUT or not. Behind the last event the line is closed.
pub data Arrival : Type 0 where
  chunk : ℕ → List ℕ → Arrival
  again : Arrival
  broken : Bool → Arrival

pub data Received : Type 0 where
  got : List ℕ → Received
  eof : Received
  error : Bool → Received

-- What a `read` leaves of a chunk.
abbrev pub left_over : List ℕ → List Arrival → List Arrival
left_over [] es = es
left_over (b ∷ bs) es = chunk b bs ∷ es

-- `lwwire_readdata` with `toread` bytes still to read behind those of `buf`
unfoldable pub readdata : ℕ → List ℕ → List Arrival → Received × List Arrival
readdata zero buf es = (got buf, es)
readdata (suc n) buf [] = (eof, [])
readdata (suc n) buf (again ∷ es) = readdata (suc n) buf es
readdata (suc n) buf (broken timed_out ∷ es) = (error timed_out, es)
readdata (suc n) buf (chunk b bs ∷ es) =
    let rest = readdata (n - length bs) (buf ++ (b ∷ bs)) es in
    if ltb (length bs) n
    then rest
    else (got (buf ++ take (suc n) (b ∷ bs)), left_over (drop (suc n) (b ∷ bs)) es)

-- What a `write` finds: room for so many bytes and one more, EAGAIN or EINTR, or another error.
-- Behind the last event there is always room.
pub data Departure : Type 0 where
  room : ℕ → Departure
  full failed : Departure

-- `lwwire_writedata`: whether it succeeds, and the bytes that it has sent
unfoldable pub writedata : List ℕ → List Departure → Bool × (List ℕ × List Departure)
writedata buf [] = (true, (buf, []))
writedata buf (full ∷ ds) = writedata buf ds
writedata buf (failed ∷ ds) = (false, ([], ds))
writedata buf (room k ∷ ds) =
    let (done, (sent, ds')) = writedata (drop (k + 1) buf) ds in
    if ltb (k + 1) (length buf) then (done, (take (k + 1) buf ++ sent, ds')) else (true, (buf, ds))
