-- ===== src/Lwwire/Handlers.antt =====
-- The handlers of lwwire/lwwire.c for one operation of the protocol.
pub mod Sectors
pub mod Writes
pub mod Readex
pub mod Extensions
use fip.Base.{
  ℕ, zero, suc, ◌+◌, ◌-◌, ◌*◌, ◌/◌, ◌%◌, ◌^◌, ◌≤◌, ◌<◌, min, bit_and, bit_or, ◌≡◌, refl, sym, ap,
  ap₂, ◌∙◌, subst, ◌≢◌, ◌↔◌, ◌⊎◌, inl, inr, Bool, true, false, ◌&&◌, ◌||◌, not, Option, none, some,
  List, [], ◌∷◌, ◌++◌, append-nil, append_assoc, arith, ltb, leb, ◌==◌, if◌then◌else◌, Bool-cases,
  Option-cases, ltb→lt, lt→ltb, le→ltb, ==_iff, compare_cases, length, get_elem?, get_or, set, take,
  drop, replicate, All, u16, u8,
}
use fip.Lwwire.Drives.{Drive, checksum_error, fetch_sector, save_sector}
use fip.Lwwire.Server.{
  Extension, Server, Outcome, returns, exits, ◌>>=◌, Tm, protoerror, reset, read, write,
}

-- The loops that add up bytes, in an `int`; 256 bytes do not reach 2 ^ 16.
unfoldable pub sum : List ℕ → ℕ
sum [] = 0
sum (b ∷ bs) = b + sum bs

-- `(hi << 8) | lo` of bytes, and the three bytes of a sector's number
abbrev pub word : ℕ → ℕ → ℕ
word hi lo = bit_or (hi * 256) lo

abbrev pub lsn : List ℕ → ℕ
lsn buf = bit_or (bit_or (get_or buf 1 0 * 2 ^ 16) (get_or buf 2 0 * 2 ^ 8)) (get_or buf 3 0)

-- The state with one drive changed.
abbrev pub set_drive : {X : Type 0} → ℕ → Drive → Server X → Server X
set_drive dn d s = record s { drives = λ i. if i == dn then d else s.drives i }

abbrev pub tm_bytes : Tm → List ℕ
tm_bytes t = u8 t.year ∷ u8 (t.mon + 1) ∷ u8 t.mday ∷ u8 t.hour ∷ u8 t.minute ∷ u8 t.sec ∷ []

-- What `lwwire_proto_read` sends, with the result of `lwwire_fetch_sector`. The loop adds up in 16
-- bits.
unfoldable pub answer_read : {X : Type 0} → ℕ → ℕ × (List ℕ × Drive) → Server X → Outcome X Unit
answer_read dn (ec, (sector, d)) s =
    let total = u16 (sum sector) in
    write (u8 (u16 ec) ∷ []) (set_drive dn d s) >>= λ done s'.
    if not (u16 ec == 0)
    then returns tt s'
    else write (sector ++ (u8 (total / 256) ∷ u8 total ∷ [])) s'

-- What `lwwire_proto_write` does where the checksum is right, with the result of
-- `lwwire_save_sector`
unfoldable pub answer_write : {X : Type 0} → ℕ → ℕ × Drive → Server X → Outcome X Unit
answer_write dn (ec, d) s = write (u8 (u16 ec) ∷ []) (set_drive dn d s)

unfoldable pub reply_write : {X : Type 0} → List ℕ → Server X → Outcome X Unit
unfolding answer_write
reply_write buf s =
    let dn = get_or buf 0 0 in
    let sector = take 256 (drop 4 buf) in
    let saved = answer_write dn (save_sector (lsn buf) sector (s.drives dn)) s in
    if not (u16 (sum sector) == word (get_or buf 260 0) (get_or buf 261 0))
    then write (checksum_error ∷ []) s
    else saved

module _ {X : Type 0} (extensions : ℕ → Extension X) where
  -- `lwwire_proto_read`
  unfoldable pub proto_read : Server X → Outcome X Unit
  unfolding answer_read
  proto_read s = read extensions 4 s >>= λ got s'. elim got [
    | none ↦ returns tt s'
    | some buf ↦
        let dn = get_or buf 0 0 in answer_read dn (fetch_sector (lsn buf) (s'.drives dn)) s'
  ]

  -- `lwwire_proto_write`
  unfoldable pub proto_write : Server X → Outcome X Unit
  unfolding reply_write
  proto_write s = read extensions 262 s >>= λ got s'. elim got [
    | none ↦ returns tt s'
    | some buf ↦ reply_write buf s'
  ]

  -- The last byte of `lwwire_proto_readex`, behind the client's checksum
  unfoldable pub confirm : ℕ → List ℕ → Server X → Outcome X Unit
  confirm ec block s = read extensions 2 s >>= λ got s'. elim got [
    | none ↦ returns tt s'
    | some sums ↦
        let right = word (get_or sums 0 0) (get_or sums 1 0) == sum block in
        write ((if not right then checksum_error else u8 ec) ∷ []) s'
  ]

  -- What `lwwire_proto_readex` does with the result of `lwwire_fetch_sector`
  unfoldable pub answer_readex : ℕ → ℕ × (List ℕ × Drive) → Server X → Outcome X Unit
  unfolding confirm
  answer_readex dn (ec, (sector, d)) s =
      let block = if not (ec == 0) then replicate 256 0 else sector in
      write block (set_drive dn d s) >>= λ done s'. confirm ec block s'

  -- `lwwire_proto_readex`
  unfoldable pub proto_readex : Server X → Outcome X Unit
  unfolding answer_readex
  proto_readex s = read extensions 4 s >>= λ got s'. elim got [
    | none ↦ returns tt s'
    | some buf ↦
        let dn = get_or buf 0 0 in answer_readex dn (fetch_sector (lsn buf) (s'.drives dn)) s'
  ]

  abbrev pub set_enabled : ℕ → Bool → X → Server X → Server X
  set_enabled n b x s = record s {
    enabled = λ i. if i == n then b else s.enabled i;
    extension_state = x;
  }

  -- The answer of `lwwire_proto_requestextension`
  unfoldable pub request : ℕ → Server X → ℕ × Server X
  request n s = elim (extensions n).enable [
    | none ↦ (0x55, s)
    | some enable ↦
        let (accepted, x) = enable s.extension_state in
        if accepted
        then (0x42, set_enabled n true x s)
        else (0x55, record s { extension_state = x })
  ]

  unfoldable pub proto_requestextension : Server X → Outcome X Unit
  proto_requestextension s = read extensions 1 s >>= λ got s'. elim got [
    | none ↦ returns tt s'
    | some buf ↦ let (answer, s'') = request (get_or buf 0 0) s' in write (answer ∷ []) s''
  ]

  -- The answer of `lwwire_proto_disableextension`
  unfoldable pub withdraw : ℕ → Server X → ℕ × Server X
  withdraw n s = elim (extensions n).disable [
    | none ↦ (0x42, set_enabled n false s.extension_state s)
    | some disable ↦
        let (accepted, x) = disable s.extension_state in
        if accepted
        then (0x42, set_enabled n false x s)
        else (0x55, record s { extension_state = x })
  ]

  unfoldable pub proto_disableextension : Server X → Outcome X Unit
  proto_disableextension s = read extensions 1 s >>= λ got s'. elim got [
    | none ↦ returns tt s'
    | some buf ↦ let (answer, s'') = withdraw (get_or buf 0 0) s' in write (answer ∷ []) s''
  ]

  -- What `lwwire_proto_extensionop` does with operation `op` of extension `n`
  unfoldable pub operate : ℕ → ℕ → Server X → Server X
  operate n op s =
      if not (s.enabled n) then protoerror extensions s else elim (extensions n).handler [
        | none ↦ protoerror extensions s
        | some handler ↦
            let (accepted, x) = handler op s.extension_state in
            let s' = record s { extension_state = x } in
            if accepted then s' else protoerror extensions s'
      ]

  unfoldable pub proto_extensionop : Server X → Outcome X Unit
  proto_extensionop s = read extensions 2 s >>= λ got s'. elim got [
    | none ↦ returns tt s'
    | some buf ↦ returns tt (operate (get_or buf 0 0) (get_or buf 1 0) s')
  ]
