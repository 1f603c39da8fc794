-- ===== src/Uncompress/Table.antt =====
-- The dictionary of uncompress/uncompress.c: the arrays `ref` and `app`, `nexti`, `bits`,
-- `mymaxbits`, and the functions `cleardict`, `adddict`, `printsym` and `first`.
pub mod Laws
use mathlib.Core.Option
use fip.Base.{
  ℕ, zero, suc, ◌+◌, ◌^◌, sym, ◌&&◌, Option, none, some, ltb, leb, ◌==◌, if◌then◌else◌, u16, u8,
}
use fip.Uncompress.Writer.{Writer, outbyte}

abbrev pub clear : ℕ
clear = 256

-- The arrays are read before they are written too: their first content is any.
pub record Table : Type 0 where
  pub ref : ℕ → ℕ
  pub app : ℕ → ℕ
  pub nexti : ℕ
  pub bits : ℕ
  pub mymaxbits : ℕ

unfoldable pub cleardict : Table → Table
cleardict t = record t { nexti = 257; bits = 9 }

abbrev pub store : (ℕ → ℕ) → ℕ → ℕ → ℕ → ℕ
store a i v j = if j == i then v else a j

unfoldable pub adddict : ℕ → ℕ → Table → Table
adddict prefix suffix t =
    if t.nexti == 2 ^ t.bits
    then t
    else (let next = u16 (t.nexti + 1) in
        record t {
          ref = store t.ref t.nexti prefix;
          app = store t.app t.nexti (u8 suffix);
          nexti = next;
          bits = if leb (2 ^ t.bits) next && ltb t.bits t.mymaxbits then t.bits + 1 else t.bits;
        })

-- The recursion of `printsym` and `first` follows `ref`. A chain that does not come back to a symbol
-- has at most one link for each 16-bit symbol; past that, `none`, the C code does not return.
abbrev pub depth : ℕ
depth = 65536

unfoldable pub printsym : ℕ → Table → ℕ → Writer → Option Writer
printsym zero t sym w = none
printsym (suc f) t sym w =
    let rest = Option.map (outbyte (t.app sym)) (printsym f t (t.ref sym) w) in
    if ltb sym 256 then some (outbyte sym w) else rest

unfoldable pub first : ℕ → Table → ℕ → Option ℕ
first zero t sym = none
first (suc f) t sym =
    let rest = first f t (t.ref sym) in if ltb sym 256 then some (u8 sym) else rest
