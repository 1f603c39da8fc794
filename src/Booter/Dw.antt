-- ===== src/Booter/Dw.antt =====
-- booter/dw.c, the driver for a disk behind a DriveWire server. `dw_trans`, in assembler, is a
-- parameter: it sends bytes and receives a number of others, and gives its result, what it received,
-- their checksum in `dw_cksum`, and its state behind that.
pub mod Laws
pub mod Tests
use fip.Base.{
  ℕ, zero, suc, ◌+◌, ◌-◌, ◌*◌, ◌/◌, ◌%◌, ◌^◌, ◌≤◌, ◌<◌, min, bit_and, bit_or, ◌≡◌, refl, sym, ap,
  ap₂, ◌∙◌, subst, ◌≢◌, ◌↔◌, ◌⊎◌, inl, inr, Bool, true, false, ◌&&◌, ◌||◌, not, Option, none, some,
  List, [], ◌∷◌, ◌++◌, append-nil, append_assoc, arith, ltb, leb, ◌==◌, if◌then◌else◌, Bool-cases,
  Option-cases, ltb→lt, lt→ltb, le→ltb, ==_iff, compare_cases, length, get_elem?, get_or, set, take,
  drop, replicate, All, u8, u16,
}
use fip.Booter.File.{Device}

pub record Reply (T : Type 0) : Type 0 where
  pub ret : ℕ
  pub bytes : List ℕ
  pub dw_cksum : ℕ
  pub state : T

-- A `char` in an `int`
abbrev pub sign_extended : ℕ → ℕ
sign_extended c = if ltb c 128 then c else c + 0xff00

-- `b2` for a block
abbrev pub request : ℕ → ℕ → List ℕ
request drive blk = 0xd2 ∷ drive ∷ u8 (blk / 2 ^ 16) ∷ u8 (blk / 2 ^ 8) ∷ u8 blk ∷ []

module _ {T : Type 0} (dw_trans : List ℕ → ℕ → T → Reply T) where
  -- `b1` is always 5a 00. The number of the drive is for `b2[1]`.
  unfoldable pub dw_init : ℕ → T → ℕ × (ℕ × T)
  dw_init drive_no t = let r = dw_trans (0x5a ∷ 0 ∷ []) 1 t in (r.ret, (drive_no, r.state))

  -- The result with the bytes for the buffer; `b2[4]` keeps its byte where none is received.
  unfoldable pub read_256 : ℕ → ℕ → T → ℕ × (List ℕ × T)
  read_256 drive blk t =
      let r = dw_trans (request drive blk) 256 t in
      let r' = dw_trans (r.dw_cksum / 2 ^ 8 ∷ u8 r.dw_cksum ∷ []) 1 r.state in
      let code = sign_extended (get_or r'.bytes 0 (u8 blk)) in
      (bit_or (bit_or r.ret r'.ret) code, (r.bytes, r'.state))

  -- The 512 bytes, or nothing where the result is not 0
  unfoldable pub dw_read : ℕ → ℕ → T → Option (List ℕ) × T
  unfolding read_256
  dw_read drive blk t =
      let (ret, (b, t₁)) = read_256 drive (blk * 2) t in
      let (ret', (b', t₂)) = read_256 drive (blk * 2 + 1) t₁ in
      if leb (2 ^ 23) blk
      then (none, t)
      else if not (ret == 0)
      then (none, t₁)
      else if not (ret' == 0)
      then (none, t₂)
      else (some (b ++ b'), t₂)
