-- ===== src/Decb/Chain/Total.antt =====
-- `delchain` of decb/decb.c on tables where a chain may come back to itself.
use fip.Base.{
  ℕ, zero, suc, ◌+◌, ◌≤◌, ◌<◌, ◌≡◌, refl, sym, ap, ◌∙◌, subst, ◌⊎◌, inl, inr, true, false, some,
  List, [], ◌∷◌, arith, if◌then◌else◌, Bool-cases, lt→ltb, length, get_or, set, get_or-set_self,
  length-set, get_or-set_ne,
}
use mathlib.Core.Bool.{false≢true}
use native.Mathlib.Decide.{ℕ_discrete}
use fip.Decb.Image.{fatz}
use fip.Decb.Fat.{free, is_last, delchain_fuel, delchain}

-- A byte that ends a chain, or is a granule of the table.
abbrev pub IsCode : ℕ → Type 0
IsCode g = (is_last g ≡ true) ⊎ (g < fatz)

abbrev pub IsTable : List ℕ → Type 0
IsTable fat = (length fat ≡ fatz) × ((x : ℕ) → x < fatz → IsCode (get_or fat x 0))

-- The granules that link to another.
unfoldable links : List ℕ → ℕ
links [] = 0
links (g ∷ gs) = links gs + (if is_last g then 0 else 1)

links-le : (fat : List ℕ) → links fat ≤ length fat
unfolding links
links-le [] = omega arith
links-le (g ∷ gs) = ground (arith, links-le gs)

free-is_last : is_last free ≡ true
unfolding is_last
free-is_last = refl

links-set :
    (fat : List ℕ) (x : ℕ)
    → x < length fat
    → is_last (get_or fat x 0) ≡ false
    → links (set fat x free) + 1 ≡ links fat
unfolding links
links-set [] x l e = elim l [ ]
links-set (g ∷ gs) zero l e = rw (free-is_last, e) (omega arith)
links-set (g ∷ gs) (suc x) l e = omega (arith, links-set gs x (omega arith) e)

IsTable-set : (fat : List ℕ) (x : ℕ) → IsTable fat → x < fatz → IsTable (set fat x free)
IsTable-set fat x (size, codes) l = (
  length-set fat x free ∙ size,
  λ y ly. elim (ℕ_discrete x y) [
    | yes same ↦ inl (
        ap is_last (
          subst (λ k. get_or (set fat x free) k 0 ≡ free) same
            (get_or-set_self fat x free 0 (omega arith)))
        ∙ free-is_last)
    | no ne ↦ subst IsCode (sym (get_or-set_ne fat x y free 0 ne)) (codes y ly)
  ],
)

-- Each granule keeps its code or is free.
abbrev pub Frees : List ℕ → List ℕ → Type 0
Frees fat fat' = (x : ℕ) → (get_or fat' x 0 ≡ get_or fat x 0) ⊎ (get_or fat' x 0 ≡ free)

Frees-set :
    (fat fat' : List ℕ) (g : ℕ) → g < length fat → Frees (set fat g free) fat' → Frees fat fat'
Frees-set fat fat' g l rest x = elim (rest x) [
  | inr freed ↦ inr freed
  | inl kept ↦ elim (ℕ_discrete g x) [
    | yes same ↦ inr (
        kept
        ∙ subst (λ k. get_or (set fat g free) k 0 ≡ free) same (get_or-set_self fat g free 0 l))
    | no ne ↦ inl (kept ∙ get_or-set_ne fat g x free 0 ne)
  ]
]

delchain_fuel_total :
    (f g : ℕ) (fat : List ℕ)
    → IsTable fat
    → IsCode g
    → (is_last g ≡ true → 0 < f)
    → (is_last g ≡ false → links fat + 1 < f)
    → (fat' : List ℕ) × (delchain_fuel f g fat ≡ some fat') × IsTable fat' × Frees fat fat'
unfolding delchain_fuel
delchain_fuel_total zero g fat t c ends goes = elim (Bool-cases (is_last g)) [
  | inl e ↦ elim (ends e) [ ]
  | inr e ↦ elim (goes e) [ ]
]
delchain_fuel_total (suc f) g fat t c ends goes = elim (Bool-cases (is_last g)) [
  | inl e ↦ (fat, rw e refl, t, λ x. inl refl)
  | inr e ↦
      let below : g < fatz = elim c [ inl ends ↦ absurd (false≢true (sym e ∙ ends)) | inr l ↦ l ] in
      let (fat', runs, t', frees) =
        delchain_fuel_total f (get_or fat g 0) (set fat g free) (IsTable-set fat g t below)
          (t.1 g below) (λ last. omega (arith, goes e))
          (λ more. omega (arith, goes e, links-set fat g (omega (arith, t.0)) more)) in
      (fat', rw (e, lt→ltb g fatz below) runs, t', Frees-set fat fat' g (omega (arith, t.0)) frees)
]

-- On a table of 68 bytes that each end a chain or are a granule of the table, and from such a
-- byte, `delchain` returns, also where the links make a circle. The table is then again of that
-- kind, and each granule has kept its code or is free.
pub delchain_total :
    (g : ℕ) (fat : List ℕ)
    → IsTable fat
    → IsCode g
    → (fat' : List ℕ) × (delchain g fat ≡ some fat') × IsTable fat' × Frees fat fat'
unfolding delchain
delchain_total g fat t c =
    delchain_fuel_total 70 g fat t c (λ e. omega arith) (λ e. omega (arith, links-le fat, t.0))
