-- ===== src/Uncompress/Bits.antt =====
-- The bit reader of uncompress/uncompress.c: `getbit` with its statics `num` and `c`, the flag
-- `eof`, and `getsym`.
pub mod Laws
use fip.Base.{
  ℕ, zero, suc, ◌+◌, ◌-◌, ◌*◌, ◌/◌, ◌^◌, bit_and, bit_or, Bool, true, Option, none, some, ◌==◌,
  if◌then◌else◌, u16, u8,
}
use fip.Uncompress.Reader.{Reader, inbyte}

-- `num` bits of the byte `cur` are not yet handed out, the lowest first.
pub record BitReader : Type 0 where
  pub input : Reader
  pub num : ℕ
  pub cur : ℕ
  pub eof : Bool

-- `num--; x = c & 1; c = c / 2; return x;`
unfoldable pub next_bit : BitReader → ℕ × BitReader
next_bit b = (bit_and b.cur 1, record b { num = b.num - 1; cur = b.cur / 2 })

-- What `getbit` does with the result of `inbyte`. At the end of the file the -1 is stored in the
-- byte `c`, and `num` stays 0.
unfoldable pub on_byte : BitReader → Option ℕ × Reader → ℕ × BitReader
on_byte b (none, r) = (0, record b { input = r; cur = u8 0xffff; eof = true })
on_byte b (some c, r) = next_bit (record b { input = r; cur = c; num = 8 })

unfoldable pub getbit : BitReader → ℕ × BitReader
getbit b = if b.num == 0 then on_byte b (inbyte b.input) else next_bit b

-- The loop of `getsym` from `x` on, with `k` rounds left.
unfoldable pub gather : ℕ → ℕ → ℕ → BitReader → ℕ × BitReader
gather zero x acc b = (acc, b)
gather (suc k) x acc b =
    let (v, b') = getbit b in gather k (x + 1) (u16 (bit_or acc (v * 2 ^ x))) b'

unfoldable pub getsym : ℕ → BitReader → ℕ × BitReader
unfolding gather
getsym bits b = gather bits 0 0 b
