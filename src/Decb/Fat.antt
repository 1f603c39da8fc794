-- ===== src/Decb/Fat.antt =====
-- The granule table of decb/decb.c, `fat`: `findgran`, `granfree`, `delchain`, `countchain` and the
-- place of a granule, `seekgran`. 0xff marks a free granule; a code with its top two bits set is the
-- last of a chain.
pub mod Laws
use fip.Base.{
  ℕ, zero, suc, ◌+◌, ◌*◌, bit_and, Bool, Option, none, some, List, [], ◌∷◌, ltb, ◌==◌,
  if◌then◌else◌, get_or, set, u8,
}
use fip.Decb.Image.{granz, fatz}

abbrev pub free : ℕ
free = 0xff

-- `(g & 0xc0) == 0xc0`
unfoldable pub is_last : ℕ → Bool
is_last g = bit_and g 0xc0 == 0xc0

-- `fat[g]` out of range reads and writes other memory: `none`.
unfoldable pub fat_get : List ℕ → ℕ → Option ℕ
fat_get fat g = if ltb g fatz then some (get_or fat g 0) else none

unfoldable pub fat_set : List ℕ → ℕ → ℕ → Option (List ℕ)
fat_set fat g v = if ltb g fatz then some (set fat g (u8 v)) else none

-- The index of the first free granule, counted from `x`.
unfoldable pub first_free : ℕ → List ℕ → Option ℕ
first_free x [] = none
first_free x (g ∷ gs) = let rest = first_free (x + 1) gs in if g == free then some x else rest

-- `findgran`: `none` is the -1.
unfoldable pub findgran : List ℕ → Option ℕ × List ℕ
findgran fat = elim (first_free 0 fat) [ none ↦ (none, fat) | some x ↦ (some x, set fat x 0xc0) ]

-- The result of `findgran` in a `uint8_t`.
abbrev pub gran_byte : Option ℕ → ℕ
gran_byte none = 0xff
gran_byte (some x) = u8 x

unfoldable pub granfree : List ℕ → ℕ
granfree [] = 0
granfree (g ∷ gs) = (if g == free then 1 else 0) + granfree gs

-- Track 17, the granules' places 34 and 35, holds the table and the directory.
unfoldable pub seekgran : ℕ → ℕ → ℕ
seekgran offset gran = granz * (if ltb 33 gran then gran + 2 else gran) + offset

-- `delchain` with fuel; `none` is an access out of the table. Chain proves that 70 rounds are enough.
unfoldable pub delchain_fuel : ℕ → ℕ → List ℕ → Option (List ℕ)
delchain_fuel zero first fat = none
delchain_fuel (suc f) first fat =
    let rest = delchain_fuel f (get_or fat first 0) (set fat first free) in
    if is_last first then some fat else if ltb first fatz then rest else none

unfoldable pub delchain : ℕ → List ℕ → Option (List ℕ)
delchain first fat = delchain_fuel 70 first fat

-- `countchain` follows the table; on a cycle it does not return, which is `none`, as is an access
-- out of the table.
unfoldable pub countchain_fuel : ℕ → ℕ → ℕ → List ℕ → Option ℕ
countchain_fuel zero c first fat = none
countchain_fuel (suc f) c first fat =
    let rest = countchain_fuel f (c + 1) (get_or fat first 0) fat in
    if is_last first then some c else if ltb first fatz then rest else none

unfoldable pub countchain : ℕ → List ℕ → Option ℕ
countchain first fat = countchain_fuel 70 0 first fat
