-- ===== src/Uncompress/Lzw/Total.antt =====
-- The specification's decoder always comes to an end.
use fip.Base.{
  ℕ, zero, suc, ◌+◌, ◌-◌, ◌≤◌, ◌<◌, ◌≡◌, refl, sym, ap, ◌∙◌, ◌≢◌, ◌⊎◌, inl, inr, Option, none, some,
  List, arith, length, length-drop,
}
use fip.Uncompress.Lzw.{
  Lzw, Next, more, final, Result, out_of_fuel, width_from, width, symbols, opening, follow, next,
  decode, initial, rounds,
}

width_from-ge : (b k n : ℕ) → b ≤ width_from b k n
unfolding width_from
width_from-ge b zero n = omega arith
width_from-ge b (suc k) n = ground (arith, width_from-ge (b + 1) k n)

-- Rounds left: one for each bit, one for the end, and one for a first symbol.
abbrev due : Lzw → ℕ
due z = length z.bits + elim (z.prev) [ none ↦ 2 | some p ↦ 1 ]

opening-due : (z z' : Lzw) → opening z ≡ more z' → due z' ≤ length z.bits + 1
unfolding opening
opening-due z z' e = ground (arith, length-drop 9 z.bits)

follow-due : (max : ℕ) (p : List ℕ) (z z' : Lzw) → follow max p z ≡ more z' → due z' ≤ length z.bits
unfolding follow width
follow-due max p z z' e =
    ground (
      arith,
      length-drop (width max z.entries) z.bits,
      width_from-ge 9 (max - 9) (symbols z.entries),
    )

opening-settled : (z : Lzw) → opening z ≢ final out_of_fuel
unfolding opening
opening-settled z e = ground arith

follow-settled : (max : ℕ) (p : List ℕ) (z : Lzw) → follow max p z ≢ final out_of_fuel
unfolding follow
follow-settled max p z e = ground arith

-- Each step uses bits up, or stands at a first symbol.
next-due :
    (max : ℕ) (z z' : Lzw) (o : Option (List ℕ))
    → z.prev ≡ o
    → next max z ≡ more z'
    → due z' < due z
unfolding next
next-due max z z' none at e = ground (arith, opening-due z z')
next-due max z z' (some p) at e = ground (arith, follow-due max p z z')

next-settled :
    (max : ℕ) (z : Lzw) (o : Option (List ℕ)) → z.prev ≡ o → next max z ≢ final out_of_fuel
unfolding next
next-settled max z none at e = ground (arith, opening-settled z)
next-settled max z (some p) at e = ground (arith, follow-settled max p z)

Next-cases : (n : Next) → ((z : Lzw) × (n ≡ more z)) ⊎ ((r : Result) × (n ≡ final r))
Next-cases (more z) = inl (z, refl)
Next-cases (final r) = inr (r, refl)

module _ (max f : ℕ) (z : Lzw) where
  decode-more : (z' : Lzw) → next max z ≡ more z' → decode max (suc f) z ≡ decode max f z'
  unfolding decode
  decode-more z' m = rw (m, decode) refl

  decode-final : (r : Result) → next max z ≡ final r → decode max (suc f) z ≡ r
  unfolding decode
  decode-final r m = rw (m, decode) refl

decode-settled : (max f : ℕ) (z : Lzw) → due z ≤ f → decode max f z ≢ out_of_fuel
decode-settled max zero z h e = ground arith
decode-settled max (suc f) z h e = elim (Next-cases (next max z)) [
  | inl (z', m) ↦
      decode-settled max f z' (omega (arith, next-due max z z' z.prev refl m))
        (sym (decode-more max f z z' m) ∙ e)
  | inr (r, m) ↦ next-settled max z z.prev refl (m ∙ ap final (sym (decode-final max f z r m) ∙ e))
]

-- A round for each bit and two more are enough.
pub decode-total :
    (max : ℕ) (bits out : List ℕ) → decode max (rounds bits) (initial bits out) ≢ out_of_fuel
decode-total max bits out = decode-settled max (rounds bits) (initial bits out) (omega arith)
