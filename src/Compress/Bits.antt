-- ===== src/Compress/Bits.antt =====
-- The bits of uncompress/compress.c: `num` and `bbuf`, `putbit`, `outsym` and `flushbits`.
pub mod Laws
use fip.Base.{
  ℕ, zero, suc, ◌+◌, ◌-◌, ◌*◌, ◌/◌, ◌%◌, ◌^◌, ◌≤◌, ◌<◌, min, bit_and, bit_or, ◌≡◌, refl, sym, ap,
  ap₂, ◌∙◌, subst, ◌≢◌, ◌↔◌, ◌⊎◌, inl, inr, Bool, true, false, ◌&&◌, ◌||◌, not, Option, none, some,
  List, [], ◌∷◌, ◌++◌, append-nil, append_assoc, arith, ltb, leb, ◌==◌, if◌then◌else◌, Bool-cases,
  Option-cases, ltb→lt, lt→ltb, le→ltb, ==_iff, compare_cases, length, get_elem?, get_or, set, take,
  drop, replicate, All, u8,
}
use fip.Uncompress.Writer.{Writer, outflush, outbyte}

-- `num` bits are collected in `bbuf`, the first the lowest.
pub record BitWriter : Type 0 where
  pub sink : Writer
  pub num : ℕ
  pub bbuf : ℕ

unfoldable pub putbit : ℕ → BitWriter → BitWriter
putbit b w =
    let w' = record w {
      bbuf = u8 (bit_or w.bbuf (bit_and b 1 * 2 ^ w.num));
      num = u8 (w.num + 1);
    } in
    if w'.num == 8 then record { sink = outbyte w'.bbuf w.sink; num = 0; bbuf = 0 } else w'

-- `outsym`, with `x` bits to go
unfoldable pub outsym : ℕ → ℕ → BitWriter → BitWriter
outsym zero s w = w
outsym (suc x) s w = outsym x (s / 2) (putbit s w)

unfoldable pub flushbits : BitWriter → BitWriter
flushbits w = record w {
  sink = outflush (if not (w.num == 0) then outbyte w.bbuf w.sink else w.sink);
  num = 0;
}
