-- ===== src/Lwwire/Server.antt =====
-- The state of the server of lwwire/lwwire.c, and what its handlers share: `lwwire_write`,
-- `lwwire_read`, `lwwire_reset` and `lwwire_protoerror`.
pub mod Laws
use fip.Base.{
  ℕ, zero, suc, ◌+◌, ◌-◌, ◌*◌, ◌/◌, ◌%◌, ◌^◌, ◌≤◌, ◌<◌, min, bit_and, bit_or, ◌≡◌, refl, sym, ap,
  ap₂, ◌∙◌, subst, ◌≢◌, ◌↔◌, ◌⊎◌, inl, inr, Bool, true, false, ◌&&◌, ◌||◌, not, Option, none, some,
  List, [], ◌∷◌, ◌++◌, append-nil, append_assoc, arith, ltb, leb, ◌==◌, if◌then◌else◌, Bool-cases,
  Option-cases, ltb→lt, lt→ltb, le→ltb, ==_iff, compare_cases, length, get_elem?, get_or, set, take,
  drop, replicate, All,
}
use fip.Lwwire.Channel.{Arrival, Departure, Received, got, eof, error, readdata, writedata}
use fip.Lwwire.Drives.{Drive}

-- The pointers of `struct lwwire_extension_data`. They are set by code outside of the program; `none`
-- is NULL, `true` is a result of 0. `X` is the state that they share, and an extension with a handler
-- has a `reset`.
pub record Extension (X : Type 0) : Type 0 where
  pub handler : Option (ℕ → X → Bool × X)
  pub disable : Option (X → Bool × X)
  pub enable : Option (X → Bool × X)
  pub reset : X → X

-- The fields of `struct tm` that are read.
pub record Tm : Type 0 where
  pub year : ℕ
  pub mon : ℕ
  pub mday : ℕ
  pub hour : ℕ
  pub minute : ℕ
  pub sec : ℕ

-- The globals, both ends of the line, what was sent, the log of the printer, and how often the server
-- was silent for 1100 ms. `clock n` is what `localtime` says at the `n`th call, of which there were
-- `calls` so far.
pub record Server (X : Type 0) : Type 0 where
  pub arrivals : List Arrival
  pub departures : List Departure
  pub sent : List ℕ
  pub drives : ℕ → Drive
  pub enabled : ℕ → Bool
  pub extension_state : X
  pub log : List ℕ
  pub silences : ℕ
  pub clock : ℕ → Tm
  pub calls : ℕ

-- A call returns, or ends the program by `exit`.
pub data Outcome (X A : Type 0) : Type 0 where
  returns : A → Server X → Outcome X A
  exits : ℕ → Server X → Outcome X A

infixl 5 ◌>>=◌
abbrev pub ◌>>=◌ : {X A B : Type 0} → Outcome X A → (A → Server X → Outcome X B) → Outcome X B
returns a s >>= k = k a s
exits c s >>= k = exits c s

module _ {X : Type 0} (extensions : ℕ → Extension X) where
  -- The loop of `lwwire_reset`, from `i` on.
  unfoldable pub reset_from : ℕ → ℕ → X → X
  reset_from zero i x = x
  reset_from (suc k) i x =
      reset_from k (i + 1)
        (elim (extensions i).handler [ none ↦ x | some h ↦ (extensions i).reset x ])

  -- `lwwire_reset`
  unfoldable pub reset : Server X → Server X
  reset s = record s {
    extension_state = reset_from 256 0 s.extension_state;
    enabled = λ i. if ltb i 256 then false else s.enabled i;
  }

  -- `lwwire_protoerror`
  unfoldable pub protoerror : Server X → Server X
  protoerror s = reset (record s { silences = s.silences + 1 })

  -- `lwwire_read2` and `lwwire_read`: the bytes, or `none` behind a timeout
  unfoldable pub received : Server X → Received × List Arrival → Outcome X (Option (List ℕ))
  received s (got buf, es) = returns (some buf) (record s { arrivals = es })
  received s (eof, es) = exits 0 (record s { arrivals = es })
  received s (error true, es) = returns none (protoerror (record s { arrivals = es }))
  received s (error false, es) = exits 1 (record s { arrivals = es })

  unfoldable pub read : ℕ → Server X → Outcome X (Option (List ℕ))
  unfolding received
  read n s = received s (readdata n [] s.arrivals)

-- `lwwire_write`
unfoldable pub dispatched :
    {X : Type 0} → Server X → Bool × (List ℕ × List Departure) → Outcome X Unit
dispatched s (true, (sent, ds)) = returns tt (record s { sent = s.sent ++ sent; departures = ds })
dispatched s (false, (sent, ds)) = exits 1 (record s { sent = s.sent ++ sent; departures = ds })

unfoldable pub write : {X : Type 0} → List ℕ → Server X → Outcome X Unit
unfolding dispatched
write buf s = dispatched s (writedata buf s.departures)
