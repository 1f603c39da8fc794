-- ===== src/Uncompress/Lzw.antt =====
-- LZW decoding with no arrays and no buffers, the specification of uncompress/uncompress.c. The
-- dictionary is the list of its strings, and the stream a list of bits.
pub mod Total
use fip.Base.{
  ℕ, zero, suc, ◌+◌, ◌-◌, ◌^◌, Option, none, some, List, [], ◌∷◌, ◌++◌, ltb, leb, ◌==◌,
  if◌then◌else◌, length, get_elem?, take, drop,
}
use fip.Uncompress.Bits.Laws.{value}

-- The width of a code in a dictionary of `n` symbols: the least from `b` on that has room for one
-- more, and at most `b + k`.
unfoldable pub width_from : ℕ → ℕ → ℕ → ℕ
width_from b zero n = b
width_from b (suc k) n = let rest = width_from (b + 1) k n in if leb (2 ^ b) n then rest else b

-- The symbols are 256 bytes, the code that clears, and the strings.
abbrev pub symbols : List (List ℕ) → ℕ
symbols es = 257 + length es

unfoldable pub width : ℕ → List (List ℕ) → ℕ
width max es = width_from 9 (max - 9) (symbols es)

unfoldable pub spell : List (List ℕ) → ℕ → Option (List ℕ)
spell es c = if ltb c 256 then some (c ∷ []) else if c == 256 then none else get_elem? es (c - 257)

-- `finished` at the end of the stream, `corrupt` at a symbol beyond the dictionary. What a stream
-- that starts by a symbol of no meaning decodes to is not specified.
pub data Result : Type 0 where
  finished corrupt : List ℕ → Result
  unspecified out_of_fuel : Result

pub record Lzw : Type 0 where
  pub entries : List (List ℕ)
  pub prev : Option (List ℕ)
  pub bits : List ℕ
  pub out : List ℕ

pub data Next : Type 0 where
  more : Lzw → Next
  final : Result → Next

-- The first symbol after a clear.
unfoldable pub opening : Lzw → Next
opening z = elim (spell [] (value (take 9 z.bits))) [
  | none ↦ final unspecified
  | some t ↦ more (record z { entries = []; prev = some t; bits = drop 9 z.bits; out = z.out ++ t })
]

-- A new entry is the previous string and the first byte of the current one. A full dictionary stays
-- as it is.
unfoldable pub learn : ℕ → List ℕ → List ℕ → List (List ℕ) → List (List ℕ)
learn w p t es = if symbols es == 2 ^ w then es else es ++ (p ++ take 1 t) ∷ []

-- The string of symbol `c` after the string `p`: the next entry's begins and ends by the same byte.
unfoldable pub string_of : List (List ℕ) → List ℕ → ℕ → Option (List ℕ)
string_of es p c = if c == symbols es then some (p ++ take 1 p) else spell es c

module _ (max : ℕ) where
  unfoldable pub follow : List ℕ → Lzw → Next
  follow p z =
      let w = width max z.entries in
      let c = value (take w z.bits) in
      let rest = drop w z.bits in
      if ltb (length z.bits) w
      then final (finished z.out)
      else if ltb (symbols z.entries) c
      then final (corrupt z.out)
      else if c == 256
      then more (record z { entries = []; prev = none; bits = rest })
      else elim (string_of z.entries p c) [
        | none ↦ final unspecified
        | some t ↦ more (record {
          entries = learn w p t z.entries;
          prev = some t;
          bits = rest;
          out = z.out ++ t;
        })
      ]

  unfoldable pub next : Lzw → Next
  next z = elim z.prev [ none ↦ opening z | some p ↦ follow p z ]

  unfoldable pub decode : ℕ → Lzw → Result
  decode zero z = out_of_fuel
  decode (suc f) z = elim (next z) [ more z' ↦ decode f z' | final r ↦ r ]

-- A stream before its first symbol, and the rounds that are enough for it.
abbrev pub initial : List ℕ → List ℕ → Lzw
initial bits out = record { entries = []; prev = none; bits = bits; out = out }

abbrev pub rounds : List ℕ → ℕ
rounds bits = length bits + 2
