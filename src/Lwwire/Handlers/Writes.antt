-- ===== src/Lwwire/Handlers/Writes.antt =====
-- WRITE of lwwire/lwwire.c on a request that arrives whole.
use fip.Base.{
  ℕ, zero, suc, ◌+◌, ◌*◌, ◌%◌, ◌^◌, ◌<◌, ◌≡◌, sym, ap, ap₂, ◌∙◌, ◌≢◌, ◌⊎◌, inl, inr, true, false,
  Option, none, some, List, [], ◌∷◌, ◌++◌, arith, ◌==◌, ==_iff, length, get_or, take, drop,
  length-append, take-append_length, u8, u16,
}
use native.Mathlib.Decide.{ℕ_discrete}
use fip.Decb.Image.{Image}
use fip.Lwwire.Channel.Laws.{Token, IsOpen}
use fip.Lwwire.Drives.{
  Drive, checksum_error, write_sector, store_sector, save_sector, fetch_drive_fp,
}
use fip.Lwwire.Server.{Extension, Server}
use fip.Lwwire.Server.Laws.{read_lem, write_lem}
use fip.Lwwire.Handlers.{sum, word, set_drive, answer_write, reply_write, proto_write}
use fip.Lwwire.Handlers.Sectors.{word_lem, lsn_lem, number, Sends, changed, Replies, Requests}

write_sector_code :
    (n : ℕ) (sector : List ℕ) (img : Image) (d : Drive) → (write_sector n sector img d).0 < 256
unfolding write_sector
write_sector_code n sector img d = ground arith

store_sector_code :
    (n : ℕ) (sector : List ℕ) (r : Option Image × Drive) → (store_sector n sector r).0 < 256
unfolding store_sector
store_sector_code n sector (none, d) = omega arith
store_sector_code n sector (some img, d) = ground (arith, write_sector_code n sector img d)

save_sector_code : (n : ℕ) (sector : List ℕ) (d : Drive) → (save_sector n sector d).0 < 256
unfolding save_sector
save_sector_code n sector d = ground (arith, store_sector_code n sector (fetch_drive_fp d))

get_or-append :
    (xs ys : List ℕ) (n i : ℕ) → length xs ≡ n → get_or (xs ++ ys) (n + i) 0 ≡ get_or ys i 0
get_or-append [] ys n i e = ap (λ k. get_or ys k 0) (omega (arith, e))
get_or-append (x ∷ xs) ys zero i e = absurd (omega (arith, e))
get_or-append (x ∷ xs) ys (suc n) i e =
    let next : suc n + i ≡ suc (n + i) = omega arith in
    ap (λ k. get_or (x ∷ (xs ++ ys)) k 0) next ∙ get_or-append xs ys n i (omega (arith, e))

-- The parts of a WRITE request.
abbrev pub write_request : ℕ → ℕ → ℕ → ℕ → List ℕ → ℕ → ℕ → List ℕ
write_request dn a b c sector hi lo = dn ∷ a ∷ b ∷ c ∷ (sector ++ hi ∷ lo ∷ [])

module _ {X : Type 0} where
  answer_write-Sends :
      (dn : ℕ) (r : ℕ × Drive) (s : Server X)
      → IsOpen s.departures
      → r.0 < 256
      → Sends s (answer_write dn r s) (changed dn r.1 s) (r.0 ∷ [])
  unfolding answer_write
  answer_write-Sends dn (ec, d) s o l =
      let code : u8 (u16 ec) ≡ ec = omega (arith, l) in
      let (ds, sends, o') = write_lem (ec ∷ []) (set_drive dn d s) o in (ds, rw code sends, o')

module _ (dn a b c : ℕ) (sector : List ℕ) (hi lo : ℕ) (lb : b < 256) (lc : c < 256) (ll : lo < 256)
    (size : length sector ≡ 256) where
  abbrev request : List ℕ
  request = write_request dn a b c sector hi lo

  sector_there : take 256 (drop 4 request) ≡ sector
  sector_there =
      ap (λ n. take n (sector ++ hi ∷ lo ∷ [])) (sym size)
      ∙ take-append_length sector (hi ∷ lo ∷ [])

  sum_there : word (get_or request 260 0) (get_or request 261 0) ≡ hi * 256 + lo
  sum_there =
      ap₂ word (get_or-append sector (hi ∷ lo ∷ []) 256 0 size)
        (get_or-append sector (hi ∷ lo ∷ []) 256 1 size)
      ∙ word_lem hi lo ll

  module _ {X : Type 0} where
    reply_write_right :
        (s : Server X)
        → IsOpen s.departures
        → hi * 256 + lo ≡ sum sector % 2 ^ 16
        → let r = save_sector (number a b c) sector (s.drives dn) in
          Sends s (reply_write request s) (changed dn r.1 s) (r.0 ∷ [])
    unfolding reply_write
    reply_write_right s o right =
        let r = save_sector (number a b c) sector (s.drives dn) in
        let test : (sum sector % 2 ^ 16 == hi * 256 + lo) ≡ true = (==_iff _ _).1 (sym right) in
        rw (sector_there, sum_there, lsn_lem dn a b c (sector ++ hi ∷ lo ∷ []) lb lc, test)
          (answer_write-Sends dn r s o (save_sector_code (number a b c) sector (s.drives dn)))

    reply_write_wrong :
        (s : Server X)
        → IsOpen s.departures
        → hi * 256 + lo ≢ sum sector % 2 ^ 16
        → Sends s (reply_write request s) s.drives (checksum_error ∷ [])
    unfolding reply_write
    reply_write_wrong s o wrong =
        let test : (sum sector % 2 ^ 16 == hi * 256 + lo) ≡ false = ground (arith, wrong) in
        rw (sector_there, sum_there, test) (write_lem (checksum_error ∷ []) s o)

    -- On an open line, and a request that arrives whole: if the two bytes at its end are the sum
    -- of the sector modulo `2 ^ 16`, `proto_write` saves the sector, sends the code of
    -- `save_sector`, and changes only that drive. If they are not, it sends 0xf3, and no drive is
    -- changed.
    pub proto_write_lem :
        (extensions : ℕ → Extension X) (ts : List Token) (s : Server X)
        → Requests s request ts
        → let r = save_sector (number a b c) sector (s.drives dn) in
          ((hi * 256 + lo ≡ sum sector % 2 ^ 16)
            × Replies s (proto_write extensions s) (changed dn r.1 s) (r.0 ∷ []) ts)
          ⊎ ((hi * 256 + lo ≢ sum sector % 2 ^ 16)
              × Replies s (proto_write extensions s) s.drives (checksum_error ∷ []) ts)
    unfolding proto_write
    proto_write_lem extensions ts s (o, w) =
        let length_request : length request ≡ 262 =
          omega (arith, length-append sector (hi ∷ lo ∷ []), size) in
        let (es, got, rest) = read_lem extensions 262 request ts s w length_request in
        let s' = record s { arrivals = es } in
        elim (ℕ_discrete (hi * 256 + lo) (sum sector % 2 ^ 16)) [
          | yes right ↦
              let (ds, sends, o') = reply_write_right s' o right in
              inl (right, (es, rest, (ds, rw (got, proto_write) sends, o')))
          | no wrong ↦
              let (ds, sends, o') = reply_write_wrong s' o wrong in
              inr (wrong, (es, rest, (ds, rw (got, proto_write) sends, o')))
        ]
