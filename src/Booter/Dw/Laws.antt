-- ===== src/Booter/Dw/Laws.antt =====
-- The driver of booter/dw.c and the server of lwwire/lwwire.c, at the two ends of a line.
use fip.Base.{
  ℕ, ◌+◌, ◌*◌, ◌/◌, ◌%◌, ◌^◌, ◌<◌, bit_or, ◌≡◌, refl, sym, ap, ap₂, ◌∙◌, false, not, Option, none,
  some, List, [], ◌∷◌, ◌++◌, append_assoc, arith, leb, ◌==◌, if◌then◌else◌, ==_iff, length, get_or,
  take, drop, All, u8, take-append_length, drop-append_length, if-true, if-false,
}
use fip.Lwwire.Channel.Laws.{Token, wire, tokens, IsOpen}
use fip.Lwwire.Drives.{Drive, checksum_error, fetch_sector}
use fip.Lwwire.Server.{Extension, Server, returns}
use fip.Lwwire.Handlers.{sum, proto_readex}
use fip.Lwwire.Handlers.Sectors.{number, sum_bound}
use fip.Lwwire.Handlers.Readex.{block, verdict, proto_readex_lem}
use fip.Lwwire.Serve.{handle, round, serve}
use fip.Lwwire.Serve.Sessions.{round-handle, serve_two, tokens-append}
use fip.Booter.Dw.{Reply, request, sign_extended, read_256, dw_read}

-- A line on which these bytes come in, and those went out
abbrev pub Line : Type 0
Line = List ℕ × List ℕ

-- `dw_trans` where all that is asked for comes in
abbrev pub on_line : List ℕ → ℕ → Line → Reply Line
on_line s n (come, went) = record {
  ret = 0;
  bytes = take n come;
  dw_cksum = sum (take n come) % 2 ^ 16;
  state = (drop n come, went ++ s);
}

-- What the driver sends for a block that it receives
abbrev pub conversation : ℕ → ℕ → List ℕ → List ℕ
conversation drive blk sector =
    request drive blk ++ u8 (sum sector % 2 ^ 16 / 2 ^ 8) ∷ u8 (sum sector) ∷ []

module _ {X : Type 0} (extensions : ℕ → Extension X) (drive blk : ℕ) (sector : List ℕ) (d : Drive)
    (l : blk < 2 ^ 24) (size : length sector ≡ 256) (small : All (λ x. x < 256) sector) where
  sum_small : sum sector < 2 ^ 16
  sum_small = omega (arith, sum_bound sector small, size)

  -- What `read_256` comes to, by what it receives and what is left behind that
  received : List ℕ → List ℕ → List ℕ → ℕ × (List ℕ × Line)
  received went x y = (
    bit_or 0 (sign_extended (get_or (take 1 y) 0 (u8 blk))),
    (
      x,
      (drop 1 y, (went ++ request drive blk) ++ sum x % 2 ^ 16 / 2 ^ 8 ∷ u8 (sum x % 2 ^ 16) ∷ []),
    ),
  )

  driver_reads :
      (more went : List ℕ)
      → read_256 on_line drive blk (sector ++ 0 ∷ more, went)
        ≡ (0, (sector, (more, went ++ conversation drive blk sector)))
  unfolding read_256 received
  driver_reads more went =
      let front : take 256 (sector ++ 0 ∷ more) ≡ sector =
        ap (λ n. take n (sector ++ 0 ∷ more)) (sym size) ∙ take-append_length sector (0 ∷ more) in
      let back : drop 256 (sector ++ 0 ∷ more) ≡ 0 ∷ more =
        ap (λ n. drop n (sector ++ 0 ∷ more)) (sym size) ∙ drop-append_length sector (0 ∷ more) in
      let high : sum sector % 2 ^ 16 / 2 ^ 8 ≡ u8 (sum sector % 2 ^ 16 / 2 ^ 8) =
        omega (arith, sum_small) in
      let low : u8 (sum sector % 2 ^ 16) ≡ u8 (sum sector) = omega arith in
      ap₂ (received went) front back
      ∙ ap₂ (λ hi lo. (0, (sector, (more, (went ++ request drive blk) ++ hi ∷ lo ∷ [])))) high low
      ∙ ap (λ xs. (0, (sector, (more, xs)))) (append_assoc went (request drive blk) _)

  handle_readex : (s : Server X) → handle extensions 0xd2 s ≡ proto_readex extensions s
  unfolding handle
  handle_readex s = refl

  bytes_number : number (u8 (blk / 2 ^ 16)) (u8 (blk / 2 ^ 8)) (u8 blk) ≡ blk
  bytes_number = omega (arith, l)

  agreed :
      (r : ℕ × (List ℕ × Drive))
      → r ≡ (0, (sector, d))
      → block r ++ verdict (u8 (sum sector % 2 ^ 16 / 2 ^ 8)) (u8 (sum sector)) r ∷ []
        ≡ sector ++ 0 ∷ []
  agreed r e =
      let right : u8 (sum sector % 2 ^ 16 / 2 ^ 8) * 256 + u8 (sum sector) ≡ sum sector =
        omega (arith, sum_small) in
      ap (λ q. block q ++ verdict (u8 (sum sector % 2 ^ 16 / 2 ^ 8)) (u8 (sum sector)) q ∷ []) e
      ∙ ap (λ b. sector ++ (if not b then checksum_error else 0) ∷ []) ((==_iff _ _).1 right)

  server_answers :
      (ts : List Token) (s : Server X)
      → fetch_sector blk (s.drives drive) ≡ (0, (sector, d))
      → IsOpen s.departures
      → wire s.arrivals ≡ tokens (conversation drive blk sector) ++ ts
      → (s' : Server X) × (round extensions s ≡ returns tt s')
        × (s'.sent ≡ s.sent ++ (sector ++ 0 ∷ []))
        × (wire s'.arrivals ≡ ts)
        × IsOpen s'.departures
        × (s'.drives drive ≡ d)
  server_answers ts s fetched o w =
      let hi = u8 (sum sector % 2 ^ 16 / 2 ^ 8) in
      let lo = u8 (sum sector) in
      let a = u8 (blk / 2 ^ 16) in
      let b = u8 (blk / 2 ^ 8) in
      let c = u8 blk in
      let (es, begins, rest) =
        round-handle extensions 0xd2 (tokens (drive ∷ a ∷ b ∷ c ∷ hi ∷ lo ∷ []) ++ ts) s w in
      let s₁ = record s { arrivals = es } in
      let (es₂, rest₂, (ds, sends, o₂)) =
        proto_readex_lem extensions hi lo (omega arith) ts drive a b c s₁ (omega arith, omega arith)
          (o, rest) in
      let r = fetch_sector (number a b c) (s.drives drive) in
      let same : r ≡ (0, (sector, d)) =
        ap (λ n. fetch_sector n (s.drives drive)) bytes_number ∙ fetched in
      (
        _,
        begins ∙ handle_readex s₁ ∙ sends,
        ap (λ xs. s.sent ++ xs) (agreed r same),
        rest₂,
        o₂,
        if-true _ _ ((==_iff drive drive).1 refl) ∙ ap (λ q. q.1.1) same,
      )

too_large : (k : ℕ) → k < 2 ^ 23 → leb (2 ^ 23) k ≡ false
too_large k l = ground (arith, l)

-- The result of `dw_read` by those of its two reads
abbrev both_read : ℕ → Line → ℕ × (List ℕ × Line) → ℕ × (List ℕ × Line) → Option (List ℕ) × Line
both_read blk t r r' =
    if leb (2 ^ 23) blk
    then (none, t)
    else if not (r.0 == 0)
    then (none, r.1.1)
    else if not (r'.0 == 0)
    then (none, r'.1.1)
    else (some (r.1.0 ++ r'.1.0), r'.1.1)

-- Let the two sectors of a block below `2 ^ 23` be read from a drive by the server of lwwire, and
-- be bytes. On a line that brings the two sectors, with a 0 behind each, `dw_read` of booter
-- returns the 512 bytes of the block, and sends two requests with checksums; and on an open line
-- that holds these bytes, before others, two rounds of the server send exactly those answers, and
-- leave the others: each of the two programs says what the other one waits for.
pub dw_read-serve :
    {X : Type 0} (extensions : ℕ → Extension X) (drive blk : ℕ) (x y : List ℕ) (d d' : Drive)
    (ts : List Token) (s : Server X)
    → blk < 2 ^ 23
    → (length x ≡ 256) × (length y ≡ 256)
    → All (λ b. b < 256) x × All (λ b. b < 256) y
    → fetch_sector (blk * 2) (s.drives drive) ≡ (0, (x, d))
    → fetch_sector (blk * 2 + 1) d ≡ (0, (y, d'))
    → IsOpen s.departures
    → let asks = conversation drive (blk * 2) x ++ conversation drive (blk * 2 + 1) y in
      let answers = x ++ 0 ∷ (y ++ 0 ∷ []) in
      wire s.arrivals ≡ tokens asks ++ ts
      → (dw_read on_line drive blk (answers, []) ≡ (some (x ++ y), ([], asks)))
        × (s' : Server X) × (serve extensions 2 s ≡ returns tt s')
        × (s'.sent ≡ s.sent ++ answers)
        × (wire s'.arrivals ≡ ts)
unfolding dw_read
dw_read-serve extensions drive blk x y d d' ts s l (lx, ly) (sx, sy) fx fy o w =
    let first = conversation drive (blk * 2) x in
    let second = conversation drive (blk * 2 + 1) y in
    let cut : wire s.arrivals ≡ tokens first ++ (tokens second ++ ts) =
      w
      ∙ ap (λ t. t ++ ts) (tokens-append first second)
      ∙ append_assoc (tokens first) (tokens second) ts in
    let (s₁, e₁, sent₁, rest₁, o₁, here) =
      server_answers extensions drive (blk * 2) x d (omega (arith, l)) lx sx (tokens second ++ ts) s
        fx o cut in
    let (s₂, e₂, sent₂, rest₂, o₂, _) =
      server_answers extensions drive (blk * 2 + 1) y d' (omega (arith, l)) ly sy ts s₁
        (ap (fetch_sector (blk * 2 + 1)) here ∙ fy) o₁ rest₁ in
    let answers = x ++ 0 ∷ (y ++ 0 ∷ []) in
    let t₀ : Line = (answers, []) in
    let t₁ : Line = (y ++ 0 ∷ [], first) in
    (
      ap (λ r. both_read blk t₀ r (read_256 on_line drive (blk * 2 + 1) (r.1.1)))
            (driver_reads extensions drive (blk * 2) x d (omega (arith, l)) lx sx (y ++ 0 ∷ []) [])
          ∙ ap (both_read blk t₀ (0, (x, t₁)))
              (driver_reads extensions drive (blk * 2 + 1) y d' (omega (arith, l)) ly sy [] first)
          ∙ if-false {b = leb (2 ^ 23) blk} _ _ (too_large blk l),
      s₂,
      serve_two extensions s s₁ s₂ e₁ e₂,
      sent₂
          ∙ ap (λ xs. xs ++ (y ++ 0 ∷ [])) sent₁
          ∙ append_assoc s.sent (x ++ 0 ∷ []) (y ++ 0 ∷ [])
          ∙ ap (λ xs. s.sent ++ xs) (append_assoc x (0 ∷ []) (y ++ 0 ∷ [])),
      rest₂,
    )
