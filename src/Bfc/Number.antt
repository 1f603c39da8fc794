-- ===== src/Bfc/Number.antt =====
-- `strtol` with base 0 as bfc/bfc.c calls it, on a word that has no blanks, and its result as an
-- `int`. A `long` has 64 bits.
use fip.Base.{
  ℕ, ◌+◌, ◌-◌, ◌*◌, ◌%◌, ◌^◌, Bool, ◌&&◌, ◌||◌, Option, none, some, List, [], ◌∷◌, ltb, leb, ◌==◌,
  if◌then◌else◌,
}

-- A character that is not a digit counts as 36.
abbrev pub digit : ℕ → ℕ
digit c =
    if leb 48 c && leb c 57
    then c - 48
    else if leb 97 c && leb c 122
    then c - 87
    else if leb 65 c && leb c 90
    then c - 55
    else 36

-- The value of the digits in front, and what is behind them.
unfoldable pub read_digits : ℕ → ℕ → List ℕ → ℕ × List ℕ
read_digits base acc [] = (acc, [])
read_digits base acc (c ∷ s) =
    let more = read_digits base (acc * base + digit c) s in
    if ltb (digit c) base then more else (acc, c ∷ s)

abbrev pub is_x : ℕ → Bool
is_x c = c == b'x' || c == b'X'

-- The magnitude of a number without a sign; `none` where there is no digit.
unfoldable pub magnitude : List ℕ → Option (ℕ × List ℕ)
unfolding read_digits
magnitude [] = none
magnitude (a ∷ x ∷ h ∷ s) =
    if a == b'0' && is_x x && ltb (digit h) 16
    then some (read_digits 16 0 (h ∷ s))
    else if a == b'0'
    then some (read_digits 8 0 (a ∷ x ∷ h ∷ s))
    else if ltb (digit a) 10
    then some (read_digits 10 0 (a ∷ x ∷ h ∷ s))
    else none
magnitude (a ∷ s) =
    if a == b'0'
    then some (read_digits 8 0 (a ∷ s))
    else if ltb (digit a) 10
    then some (read_digits 10 0 (a ∷ s))
    else none

-- The `long`, clamped, cast to an `int`.
abbrev pub positive : ℕ → ℕ
positive k = (if ltb k (2 ^ 63) then k else 2 ^ 63 - 1) % 2 ^ 32

abbrev pub negative : ℕ → ℕ
negative k = (2 ^ 32 - (if ltb k (2 ^ 63) then k else 2 ^ 63) % 2 ^ 32) % 2 ^ 32

abbrev pub whole : (ℕ → ℕ) → Option (ℕ × List ℕ) → Option ℕ
whole f none = none
whole f (some (k, [])) = some (f k)
whole f (some (k, _ ∷ _)) = none

-- The number that a word is, where `strtol` reads all of it.
unfoldable pub number : List ℕ → Option ℕ
unfolding magnitude
number [] = some 0
number (c ∷ s) =
    if c == b'-'
    then whole negative (magnitude s)
    else if c == b'+'
    then whole positive (magnitude s)
    else whole positive (magnitude (c ∷ s))
