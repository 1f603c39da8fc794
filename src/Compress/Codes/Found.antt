-- ===== src/Compress/Codes/Found.antt =====
-- What a code of the encoder means, in its dictionary and in that of a decoder that lags behind.
use fip.Base.{
  ℕ, zero, suc, ◌+◌, ◌-◌, ◌≤◌, ◌<◌, ◌≡◌, refl, sym, ap, ◌∙◌, ◌≢◌, inl, inr, none, some, List, [],
  ◌∷◌, ◌++◌, arith, ◌==◌, Bool-cases, Option-cases, lt→ltb, le→ltb, ==_iff, compare_cases, length,
  get_elem?, take, same_bytes, if-true, same_bytes_iff, if-false,
}
use fip.Uncompress.Bits.Laws.{low_bits}
use fip.Uncompress.Lzw.{symbols, spell, string_of}
use fip.Uncompress.Refine.Dictionary.{get_elem?-snoc, get_elem?-lt}
use fip.Compress.Codes.{find_from, find}

-- Codes of nine bits.
unfoldable pub code_bits : List ℕ → List ℕ
code_bits [] = []
code_bits (c ∷ cs) = low_bits 9 c ++ code_bits cs

pub find_from_sound :
    (k i : ℕ) (es : List (List ℕ)) (s : List ℕ) (h : ℕ)
    → find_from k i es s ≡ some h
    → (j : ℕ) × (h ≡ 257 + j) × (get_elem? es j ≡ some s)
unfolding find_from
find_from_sound zero i es s h e = absurd cc
find_from_sound (suc k) i es s h e = elim (Option-cases (get_elem? es i)) [
  | inl nothing ↦
      let gone : find_from (suc k) i es s ≡ none = rw (nothing, find_from) refl in
      let never : none ≡ some h = sym gone ∙ e in absurd cc
  | inr (r, there) ↦ elim (Bool-cases (same_bytes s r)) [
    | inl same ↦
        let here : find_from (suc k) i es s ≡ some (257 + i) = rw (there, same, find_from) refl in
        let at : some (257 + i) ≡ some h = sym here ∙ e in
        (i, cc, there ∙ ap some (sym ((same_bytes_iff s r).0 same)))
    | inr other ↦
        let later : find_from (suc k) i es s ≡ find_from k (i + 1) es s =
          rw (there, other, find_from) refl in
        find_from_sound k (i + 1) es s h (sym later ∙ e)
  ]
]

pub spell-byte : (es : List (List ℕ)) (x : ℕ) → x < 256 → spell es x ≡ some (x ∷ [])
unfolding spell
spell-byte es x l = if-true _ _ (lt→ltb x 256 l)

-- What is found is spelled by its code.
pub find-spell :
    (es : List (List ℕ)) (s : List ℕ) (h : ℕ) → find es s ≡ some h → spell es h ≡ some s
unfolding spell
find-spell es s h e =
    let (j, at, there) = find_from_sound (length es) 0 es s h e in
    let place : h - 257 ≡ j = omega (arith, at) in
    if-false _ _ (le→ltb h 256 (omega (arith, at)))
    ∙ if-false {b = h == 256} _ _ (ground (arith, at))
    ∙ ap (get_elem? es) place
    ∙ there

-- What is found is one of the strings.
pub find-at :
    (es : List (List ℕ)) (s : List ℕ) (h : ℕ)
    → find es s ≡ some h
    → (j : ℕ) × (j < length es) × (get_elem? es j ≡ some s)
find-at es s h e =
    let (j, _, there) = find_from_sound (length es) 0 es s h e in
    (j, get_elem?-lt es j there, there)

pub take-front : (q r p : List ℕ) → q ≢ [] → q ++ r ≡ p → take 1 q ≡ take 1 p
take-front [] r p ne e = absurd (ne refl)
take-front (a ∷ q) r p ne e = ap (take 1) e

-- A decoder that lags behind by one string: what it takes the code `w` for.
pub string_of_lem :
    (es : List (List ℕ)) (q p : List ℕ) (w : ℕ)
    → q ≢ []
    → p ≢ []
    → spell (es ++ (q ++ take 1 p) ∷ []) w ≡ some p
    → (string_of es q w ≡ some p) × (w ≢ 256) × (w ≤ symbols es)
unfolding spell string_of
string_of_lem es q p w nq np e = elim (compare_cases w 256) [
  | inl byte ↦
      let same : w ∷ [] ≡ p = ground arith in (ground (arith, same), omega arith, omega arith)
  | inr (inl here) ↦ absurd (ground arith)
  | inr (inr above) ↦
      let there : get_elem? (es ++ (q ++ take 1 p) ∷ []) (w - 257) ≡ some p = ground arith in
      elim (get_elem?-snoc es (q ++ take 1 p) (w - 257) there) [
        | inl old ↦
            let l : w - 257 < length es = get_elem?-lt es (w - 257) old in
            (ground (arith, old, l), omega arith, omega (arith, l))
        | inr (at, same) ↦
            let last : w ≡ symbols es = omega (arith, at) in
            (
              if-true _ _ ((==_iff w (symbols es)).1 last)
                  ∙ ap some (ap (λ t. q ++ t) (take-front q (take 1 p) p nq same) ∙ same),
              omega arith,
              omega (arith, last),
            )
      ]
]
