-- ===== src/Compress/Codes.antt =====
-- LZW encoding with no arrays and no buffers, the specification of uncompress/compress.c: the codes of
-- an input, in a dictionary that is the list of its strings and does not fill up.
pub mod Found
pub mod Decodes
use fip.Base.{
  ℕ, zero, suc, ◌+◌, ◌-◌, ◌*◌, ◌/◌, ◌%◌, ◌^◌, ◌≤◌, ◌<◌, min, bit_and, bit_or, ◌≡◌, refl, sym, ap,
  ap₂, ◌∙◌, subst, ◌≢◌, ◌↔◌, ◌⊎◌, inl, inr, Bool, true, false, ◌&&◌, ◌||◌, not, Option, none, some,
  List, [], ◌∷◌, ◌++◌, append-nil, append_assoc, arith, ltb, leb, ◌==◌, if◌then◌else◌, Bool-cases,
  Option-cases, ltb→lt, lt→ltb, le→ltb, ==_iff, compare_cases, length, get_elem?, get_or, set, take,
  drop, replicate, All, same_bytes,
}

-- The first of the strings from `i` on that is `s`, as a symbol.
unfoldable pub find_from : ℕ → ℕ → List (List ℕ) → List ℕ → Option ℕ
find_from zero i es s = none
find_from (suc k) i es s =
    let rest = find_from k (i + 1) es s in
    elim (get_elem? es i) [ none ↦ none | some e ↦ if same_bytes s e then some (257 + i) else rest ]

abbrev pub find : List (List ℕ) → List ℕ → Option ℕ
find es s = find_from (length es) 0 es s

-- The codes of the string `p`, which has the code `w`, and of what follows: the longest strings of
-- the dictionary, which then learns each with the byte behind it.
unfoldable pub codes : List (List ℕ) → ℕ → List ℕ → List ℕ → List ℕ
codes es w p [] = w ∷ []
codes es w p (x ∷ xs) = elim (find es (p ++ x ∷ [])) [
  | some h ↦ codes es h (p ++ x ∷ []) xs
  | none ↦ w ∷ codes (es ++ (p ++ x ∷ []) ∷ []) x (x ∷ []) xs
]
