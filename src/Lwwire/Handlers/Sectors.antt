-- ===== src/Lwwire/Handlers/Sectors.antt =====
-- READ, WRITE and READEX of lwwire/lwwire.c on a request that arrives whole.
use fip.Base.{
  ℕ, zero, suc, ◌+◌, ◌-◌, ◌*◌, ◌/◌, ◌%◌, ◌^◌, ◌≤◌, ◌<◌, min, bit_or, ◌≡◌, refl, sym, ap, ◌∙◌, subst,
  ◌⊎◌, inl, inr, Option, none, some, List, [], ◌∷◌, ◌++◌, append_assoc, arith, ◌==◌, if◌then◌else◌,
  length, replicate, All, bit_or_comm, bit_or_above, length-append, u8, u16, take, length-take,
}
use fip.Decb.Image.{Image, bytes, read_at, length-bytes}
use fip.Lwwire.Channel.{Arrival, Departure}
use fip.Lwwire.Channel.Laws.{wire, tokens, Token, IsOpen}
use fip.Lwwire.Drives.{
  Drive, not_ready, read_sector, load_sector, fetch_sector, fetch_drive_fp, seek,
}
use fip.Lwwire.Server.{Extension, Server, Outcome, returns}
use fip.Lwwire.Server.Laws.{read_lem, write_lem}
use fip.Lwwire.Handlers.{sum, word, lsn, set_drive, proto_read, answer_read}

-- The checksum of bytes is at most 255 for each of them.
pub sum_bound : (xs : List ℕ) → All (λ b. b < 256) xs → sum xs ≤ 255 * length xs
unfolding sum
sum_bound [] a = omega arith
sum_bound (x ∷ xs) (b, a) = omega (arith, sum_bound xs a)

pub word_lem : (hi lo : ℕ) → lo < 256 → word hi lo ≡ hi * 256 + lo
word_lem hi lo l = bit_or_comm (hi * 256) lo ∙ bit_or_above 8 lo hi (omega (arith, l)) ∙ omega arith

pub lsn_lem :
    (dn a b c : ℕ) (rest : List ℕ)
    → b < 256
    → c < 256
    → lsn (dn ∷ a ∷ b ∷ c ∷ rest) ≡ a * 2 ^ 16 + b * 2 ^ 8 + c
lsn_lem dn a b c rest lb lc =
    let high : bit_or (a * 2 ^ 16) (b * 2 ^ 8) ≡ (a * 2 ^ 8 + b) * 2 ^ 8 =
      bit_or_comm (a * 2 ^ 16) (b * 2 ^ 8)
      ∙ bit_or_above 16 (b * 2 ^ 8) a (omega (arith, lb))
      ∙ omega arith in
    ap (λ (h : ℕ). bit_or h c) high
    ∙ bit_or_comm ((a * 2 ^ 8 + b) * 2 ^ 8) c
    ∙ bit_or_above 8 c (a * 2 ^ 8 + b) (omega (arith, lc))
    ∙ omega arith

length-replicate : (n v : ℕ) → length (replicate n v) ≡ n
length-replicate zero v = refl
length-replicate (suc n) v = ap suc (length-replicate n v)

length-pad : (xs : List ℕ) → length xs ≤ 256 → length (xs ++ replicate (256 - length xs) 0) ≡ 256
length-pad xs l =
    omega (
      arith,
      length-append xs (replicate (256 - length xs) 0),
      length-replicate (256 - length xs) 0,
    )

-- The results of a fetch.
abbrev pub Fetched : ℕ × (List ℕ × Drive) → Type 0
Fetched (ec, (sector, d)) = ((ec ≡ 0) × (length sector ≡ 256)) ⊎ (ec ≡ not_ready)

load_sector-Fetched : (n : ℕ) (r : Option Image × Drive) → Fetched (load_sector n r)
unfolding load_sector read_sector read_at
load_sector-Fetched n (none, d) = inr refl
load_sector-Fetched n (some img, d) =
    let m : ℕ = min 256 (img.size - seek n) in
    let got = bytes img.byte (seek n) m in
    let sector : List ℕ = if d.faulty then take (min d.part 255) got else got in
    let short : length sector ≤ 256 =
      ground (arith, length-bytes img.byte (seek n) m, length-take (min d.part 255) got) in
    inl (refl, length-pad sector short)

pub fetch_sector-Fetched : (n : ℕ) (d : Drive) → Fetched (fetch_sector n d)
unfolding fetch_sector
fetch_sector-Fetched n d = load_sector-Fetched n (fetch_drive_fp d)

-- The number in a request.
abbrev pub number : ℕ → ℕ → ℕ → ℕ
number a b c = a * 2 ^ 16 + b * 2 ^ 8 + c

-- What `proto_read` sends for a sector, or for the code of an error.
abbrev pub answer : ℕ × (List ℕ × Drive) → List ℕ
answer (ec, (sector, d)) =
    if ec == 0 then 0 ∷ (sector ++ (sum sector % 2 ^ 16 / 256 ∷ sum sector % 256 ∷ [])) else ec ∷ []

module _ {X : Type 0} where
  -- The call sends `reply` and leaves the drives `drives`, and the line is open.
  abbrev pub Sends : Server X → Outcome X Unit → (ℕ → Drive) → List ℕ → Type 0
  Sends s o drives reply =
      (ds : List Departure) × (o
        ≡ returns tt (record s { departures = ds; drives = drives; sent = s.sent ++ reply }))
      × IsOpen ds

  abbrev pub changed : ℕ → Drive → Server X → ℕ → Drive
  changed dn d s i = if i == dn then d else s.drives i

  pub answer_read-Sends :
      (dn : ℕ) (r : ℕ × (List ℕ × Drive)) (s : Server X)
      → IsOpen s.departures
      → Fetched r
      → Sends s (answer_read dn r s) (changed dn r.1.1 s) (answer r)
  unfolding answer_read
  answer_read-Sends dn (ec, (sector, d)) s o (inl (e, size)) =
      let s₁ = set_drive dn d s in
      let (ds, first, o₁) = write_lem (0 ∷ []) s₁ o in
      let sums = sum sector % 2 ^ 16 / 256 ∷ sum sector % 256 ∷ [] in
      let (ds₂, second, o₂) =
        write_lem (sector ++ sums) (record s₁ { sent = s.sent ++ 0 ∷ []; departures = ds }) o₁ in
      let hi : u8 (u16 (sum sector) / 256) ≡ sum sector % 2 ^ 16 / 256 = omega arith in
      let lo : u8 (u16 (sum sector)) ≡ sum sector % 256 = omega arith in
      let at_zero : answer_read dn (0, (sector, d)) s
          ≡ returns tt (record s {
            departures = ds₂;
            drives = changed dn d s;
            sent = s.sent ++ answer (0, (sector, d));
          }) =
        rw (first, hi, lo, second, answer_read)
          (ap (λ xs. returns tt (record s { departures = ds₂; drives = changed dn d s; sent = xs }))
            (append_assoc s.sent (0 ∷ []) (sector ++ sums))) in
      (
        ds₂,
        subst
            (λ k.
              answer_read dn (k, (sector, d)) s
              ≡ returns tt (record s {
                departures = ds₂;
                drives = changed dn d s;
                sent = s.sent ++ answer (k, (sector, d));
              }))
            (sym e) at_zero,
        o₂,
      )
  answer_read-Sends dn (ec, (sector, d)) s o (inr e) =
      let (ds, first, o₁) = write_lem (not_ready ∷ []) (set_drive dn d s) o in
      (
        ds,
        subst
            (λ k.
              answer_read dn (k, (sector, d)) s
              ≡ returns tt (record s {
                departures = ds;
                drives = changed dn d s;
                sent = s.sent ++ answer (k, (sector, d));
              }))
            (sym e) (rw (first, answer_read) refl),
        o₁,
      )

  -- The same for a whole handler, behind which the line goes on with `ts`.
  abbrev pub Replies : Server X → Outcome X Unit → (ℕ → Drive) → List ℕ → List Token → Type 0
  Replies s o drives reply ts =
      (es : List Arrival) × (wire es ≡ ts) × Sends (record s { arrivals = es }) o drives reply

  abbrev pub Requests : Server X → List ℕ → List Token → Type 0
  Requests s xs ts = IsOpen s.departures × (wire s.arrivals ≡ tokens xs ++ ts)

module _ {X : Type 0} (extensions : ℕ → Extension X) where
  -- On an open line, and a request of a drive and the three bytes of a sector's number that
  -- arrives whole, in whatever pieces, `proto_read` takes exactly the request off the line. It
  -- sends 0, the sector and the two bytes of its sum modulo `2 ^ 16`, the higher first, or else
  -- only the code of the error; and it changes only that drive, to what `fetch_sector` leaves of
  -- it.
  pub proto_read_lem :
      (dn a b c : ℕ) (ts : List Token) (s : Server X)
      → (b < 256) × (c < 256)
      → Requests s (dn ∷ a ∷ b ∷ c ∷ []) ts
      → let r = fetch_sector (number a b c) (s.drives dn) in
        Replies s (proto_read extensions s) (changed dn r.1.1 s) (answer r) ts
  unfolding proto_read
  proto_read_lem dn a b c ts s (lb, lc) (o, w) =
      let (es, got, rest) = read_lem extensions 4 (dn ∷ a ∷ b ∷ c ∷ []) ts s w refl in
      let r = fetch_sector (number a b c) (s.drives dn) in
      let (ds, sends, o') =
        answer_read-Sends dn r (record s { arrivals = es }) o
          (fetch_sector-Fetched (number a b c) (s.drives dn)) in
      (es, rest, (ds, rw (got, lsn_lem dn a b c [] lb lc, proto_read) sends, o'))
