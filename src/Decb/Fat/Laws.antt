-- ===== src/Decb/Fat/Laws.antt =====
-- `findgran`, `granfree` and `delchain` of decb/decb.c on any table.
use fip.Base.{
  ℕ, zero, suc, ◌+◌, ◌<◌, ◌≡◌, refl, ap, ◌∙◌, ◌≢◌, ◌⊎◌, inl, inr, false, Option, none, some, List,
  [], ◌∷◌, arith, ◌==◌, ==_iff, length, get_or, set,
}
use native.Mathlib.Decide.{ℕ_discrete}
use fip.Decb.Fat.{free, first_free, findgran, granfree}

-- The first free granule at or behind the first of `fat`, if there is one.
abbrev FirstFree : List ℕ → ℕ → Type 0
FirstFree fat j =
    (j < length fat) × (get_or fat j 0 ≡ free) × ((i : ℕ) → i < j → get_or fat i 0 ≢ free)

abbrev NoneFree : List ℕ → Type 0
NoneFree fat = (i : ℕ) → i < length fat → get_or fat i 0 ≢ free

FirstFree-suc : (g j : ℕ) (gs : List ℕ) → g ≢ free → FirstFree gs j → FirstFree (g ∷ gs) (suc j)
FirstFree-suc g j gs ne (l, e, before) = (omega arith, e, earlier)
  where
    earlier : (i : ℕ) → i < suc j → get_or (g ∷ gs) i 0 ≢ free
    earlier zero h = ne
    earlier (suc i) h = before i (omega arith)

NoneFree-cons : (g : ℕ) (gs : List ℕ) → g ≢ free → NoneFree gs → NoneFree (g ∷ gs)
NoneFree-cons g gs ne rest zero h = ne
NoneFree-cons g gs ne rest (suc i) h = rest i (omega arith)

first_free_lem :
    (x : ℕ) (fat : List ℕ)
    → ((j : ℕ) × (first_free x fat ≡ some (x + j)) × FirstFree fat j)
      ⊎ ((first_free x fat ≡ none) × NoneFree fat)
unfolding first_free
first_free_lem x [] = inr (refl, λ i h. elim h [ ])
first_free_lem x (g ∷ gs) = elim (ℕ_discrete g free) [
  | yes here ↦ inl (
    0,
    rw ((==_iff g free).1 here) (ap some (omega arith)),
    (omega arith, here, λ i l. elim l [ ]),
  )
  | no ne ↦
      let test : (g == free) ≡ false = ground (arith, ne) in
      elim (first_free_lem (x + 1) gs) [
        | inl (j, e, f) ↦
            inl (suc j, rw test (e ∙ ap some (omega arith)), FirstFree-suc g j gs ne f)
        | inr (e, no_free) ↦ inr (rw test e, NoneFree-cons g gs ne no_free)
      ]
]

-- On any table `findgran` returns the first free granule, and marks it, and no other, as the last
-- of a file; or no granule is free, and it returns -1 and leaves the table alone.
pub findgran_lem :
    (fat : List ℕ)
    → ((x : ℕ) × (findgran fat ≡ (some x, set fat x 0xc0))
        × (x < length fat)
        × (get_or fat x 0 ≡ free)
        × ((i : ℕ) → i < x → get_or fat i 0 ≢ free))
      ⊎ ((findgran fat ≡ (none, fat)) × ((i : ℕ) → i < length fat → get_or fat i 0 ≢ free))
unfolding findgran
findgran_lem fat = elim (first_free_lem 0 fat) [
  | inl (j, e, (l, f, before)) ↦
      let found : first_free 0 fat ≡ some j = e ∙ ap some (omega arith) in
      inl (j, rw (found, findgran) refl, l, f, before)
  | inr (e, no_free) ↦ inr (rw (e, findgran) refl, no_free)
]

-- The number of free granules is 0 exactly if none is free.
granfree-none : (fat : List ℕ) → granfree fat ≡ 0 → NoneFree fat
unfolding granfree
granfree-none [] e i h f = elim h [ ]
granfree-none (g ∷ gs) e zero h f = ground arith
granfree-none (g ∷ gs) e (suc i) h f = granfree-none gs (ground arith) i (omega arith) f

pub granfree-set :
    (fat : List ℕ) (x v : ℕ)
    → x < length fat
    → get_or fat x 0 ≡ free
    → v ≢ free
    → granfree (set fat x v) + 1 ≡ granfree fat
unfolding granfree
granfree-set [] x v l e ne = elim l [ ]
granfree-set (g ∷ gs) zero v l e ne = ground arith
granfree-set (g ∷ gs) (suc x) v l e ne = omega (arith, granfree-set gs x v (omega arith) e ne)

pub none-granfree : (fat : List ℕ) → NoneFree fat → granfree fat ≡ 0
unfolding granfree
none-granfree [] no_free = refl
none-granfree (g ∷ gs) no_free =
    let rest = none-granfree gs (λ i l. no_free (suc i) (omega arith)) in
    let first : g ≢ free = no_free 0 (omega arith) in ground (arith, rest, first)

-- With `granfree` 0, `findgran` fails and leaves the table alone; otherwise it succeeds, and
-- `granfree` is then one less.
pub findgran-granfree :
    (fat : List ℕ)
    → (granfree fat ≡ 0 → findgran fat ≡ (none, fat))
      × (granfree fat ≢ 0
          → (x : ℕ) × ((findgran fat).0 ≡ some x) × (granfree (findgran fat).1 + 1 ≡ granfree fat))
findgran-granfree fat = elim (findgran_lem fat) [
  | inl (x, e, l, f, before) ↦ (
    λ zero_free. absurd (granfree-none fat zero_free x l f),
    λ ne. (
      x,
      ap (λ r. r.0) e,
      ap (λ (r : Option ℕ × List ℕ). granfree r.1 + 1) e
          ∙ granfree-set fat x 0xc0 l f (omega arith),
    ),
  )
  | inr (e, no_free) ↦ (λ z. e, λ ne. absurd (ne (none-granfree fat no_free)))
]

-- A change of a granule in use to another code in use.
pub granfree-set_used :
    (fat : List ℕ) (x v : ℕ)
    → get_or fat x 0 ≢ free
    → v ≢ free
    → granfree (set fat x v) ≡ granfree fat
unfolding granfree
granfree-set_used [] x v l ne = refl
granfree-set_used (g ∷ gs) zero v l ne = ground arith
granfree-set_used (g ∷ gs) (suc x) v l ne = omega (arith, granfree-set_used gs x v l ne)
