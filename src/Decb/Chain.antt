-- ===== src/Decb/Chain.antt =====
-- Granule chains: what `countchain`, `delchain` and `findgran` of decb/decb.c do to them.
pub mod Total
use fip.Base.{
  ℕ, zero, suc, ◌+◌, ◌≤◌, ◌<◌, ◌≡◌, refl, sym, ap, ◌∙◌, subst, ◌⊎◌, inl, inr, true, false, some,
  List, [], ◌∷◌, arith, ltb, leb, if◌then◌else◌, Bool-cases, lt→ltb, length, get_or, set,
  every_below, every_below_sound, get_or-set_ne, length-set, get_or-set_self,
}
use mathlib.Core.Bool.{false≢true}
use native.Mathlib.Decide.{ℕ_discrete}
use native.Mathlib.Nat.{zero-add}
use fip.Decb.Image.{fatz}
use fip.Decb.Fat.{free, is_last, delchain_fuel, delchain, countchain_fuel, countchain}

is_last_table : every_below 256 (λ g. if is_last g then leb 192 g else ltb g 192) ≡ true
unfolding every_below is_last
is_last_table = refl

-- A code is the last of a chain exactly from 0xc0 on.
pub is_last_lem : (g : ℕ) → g < 256 → (is_last g ≡ leb 192 g)
is_last_lem g h = elim (Bool-cases (is_last g)) [
  | inl e ↦ ground (
    arith,
    every_below_sound 256 (λ x. if is_last x then leb 192 x else ltb x 192) g is_last_table h,
  )
  | inr e ↦ ground (
    arith,
    every_below_sound 256 (λ x. if is_last x then leb 192 x else ltb x 192) g is_last_table h,
  )
]

-- The granules `gs` from `g` on, up to a code that is the last.
pub data Chain (fat : List ℕ) : ℕ → List ℕ → Type 0 where
  end : {g : ℕ} → is_last g ≡ true → Chain fat g []
  link :
      {g : ℕ} {gs : List ℕ}
      → is_last g ≡ false
      → g < fatz
      → Chain fat (get_or fat g 0) gs
      → Chain fat g (g ∷ gs)

countchain_fuel_lem :
    (f c g : ℕ) (fat gs : List ℕ)
    → Chain fat g gs
    → length gs < f
    → countchain_fuel f c g fat ≡ some (c + length gs)
unfolding countchain_fuel
countchain_fuel_lem zero c g fat gs ch l = elim l [ ]
countchain_fuel_lem (suc f) c g fat [] (end e) l = rw (e, countchain_fuel) (ap some (omega arith))
countchain_fuel_lem (suc f) c g fat (_ ∷ gs) (link e lt ch) l =
    rw (e, lt→ltb g fatz lt)
      (countchain_fuel_lem f (c + 1) (get_or fat g 0) fat gs ch (omega arith)
        ∙ ap some (omega arith))

-- On a chain that ends, of less than 70 granules, `countchain` returns the number of its
-- granules.
pub countchain_lem :
    (g : ℕ) (fat gs : List ℕ)
    → Chain fat g gs
    → length gs < 70
    → countchain g fat ≡ some (length gs)
unfolding countchain
countchain_lem g fat gs ch l =
    countchain_fuel_lem 70 0 g fat gs ch l ∙ ap some (zero-add (length gs))

abbrev pub IsIn : ℕ → List ℕ → Type 0
IsIn x [] = ⊥
IsIn x (y ∷ ys) = (x ≡ y) ⊎ IsIn x ys

module _ {fat : List ℕ} where
  Chain-unique : {g : ℕ} {gs hs : List ℕ} → Chain fat g gs → Chain fat g hs → length gs ≡ length hs
  Chain-unique (end e) (end f) = refl
  Chain-unique (end e) (link f lt ch) = absurd (false≢true (sym f ∙ e))
  Chain-unique (link e lt ch) (end f) = absurd (false≢true (sym e ∙ f))
  Chain-unique (link e lt ch) (link f lt' ch') = ap suc (Chain-unique ch ch')

  -- From each granule of a chain there is a chain that is no longer.
  Chain-from :
      {g : ℕ} {gs : List ℕ} (x : ℕ)
      → Chain fat g gs
      → IsIn x gs
      → (hs : List ℕ) × Chain fat x hs × (length hs ≤ length gs)
  Chain-from x (end e) i = absurd i
  Chain-from x (link {g = g} {gs = gs} e lt ch) (inl same) =
      (g ∷ gs, subst (λ y. Chain fat y (g ∷ gs)) (sym same) (link e lt ch), omega arith)
  Chain-from x (link e lt ch) (inr i) = let (hs, c, l) = Chain-from x ch i in (hs, c, omega arith)

  -- A chain that ends does not come back to its first granule.
  Chain-fresh :
      {g : ℕ} {gs : List ℕ}
      → is_last g ≡ false
      → g < fatz
      → Chain fat (get_or fat g 0) gs
      → ¬ IsIn g gs
  Chain-fresh {g} e lt ch i =
      let (hs, c, l) = Chain-from g ch i in absurd (omega (arith, Chain-unique c (link e lt ch)))

  -- A write to another granule leaves the chain as it is.
  pub Chain-set :
      {g : ℕ} {gs : List ℕ} (x v : ℕ) → Chain fat g gs → ¬ IsIn x gs → Chain (set fat x v) g gs
  Chain-set x v (end e) n = end e
  Chain-set x v (link {g = g} {gs = gs} e lt ch) n = link e lt (
      subst (λ k. Chain (set fat x v) k gs) (sym (get_or-set_ne fat x g v 0 (λ s. n (inl s))))
        (Chain-set x v ch (λ i. n (inr i))))

-- The table with these granules free.
abbrev pub freed : List ℕ → List ℕ → List ℕ
freed [] fat = fat
freed (g ∷ gs) fat = freed gs (set fat g free)

freed-set : (gs : List ℕ) (g : ℕ) (fat : List ℕ) → length (freed gs fat) ≡ length fat
freed-set [] g fat = refl
freed-set (x ∷ gs) g fat = freed-set gs g (set fat x free) ∙ length-set fat x free

delchain_fuel_lem :
    (f g : ℕ) (fat gs : List ℕ)
    → Chain fat g gs
    → length gs < f
    → delchain_fuel f g fat ≡ some (freed gs fat)
unfolding delchain_fuel
delchain_fuel_lem zero g fat gs ch l = elim l [ ]
delchain_fuel_lem (suc f) g fat [] (end e) l = rw (e, delchain_fuel) refl
delchain_fuel_lem (suc f) g fat (_ ∷ gs) (link e lt ch) l =
    rw (e, lt→ltb g fatz lt)
      (delchain_fuel_lem f (get_or fat g 0) (set fat g free) gs
        (Chain-set g free ch (Chain-fresh e lt ch)) (omega arith))

freed_out : (gs fat : List ℕ) (x : ℕ) → ¬ IsIn x gs → get_or (freed gs fat) x 0 ≡ get_or fat x 0
freed_out [] fat x n = refl
freed_out (g ∷ gs) fat x n =
    freed_out gs (set fat g free) x (λ i. n (inr i))
    ∙ get_or-set_ne fat g x free 0 (λ e. n (inl (sym e)))

-- Once free, a granule stays so.
freed_kept :
    (gs fat : List ℕ) (x : ℕ)
    → x < length fat
    → get_or fat x 0 ≡ free
    → get_or (freed gs fat) x 0 ≡ free
freed_kept [] fat x l e = e
freed_kept (g ∷ gs) fat x l e =
    freed_kept gs (set fat g free) x (rw length-set l) (elim (ℕ_discrete g x) [
      | yes s ↦ rw s (get_or-set_self fat x free 0 l)
      | no ne ↦ get_or-set_ne fat g x free 0 ne ∙ e
    ])

freed_in : (gs fat : List ℕ) (x : ℕ) → x < length fat → IsIn x gs → get_or (freed gs fat) x 0 ≡ free
freed_in [] fat x l i = absurd i
freed_in (g ∷ gs) fat x l (inl e) =
    freed_kept gs (set fat g free) x (rw length-set l)
      (rw e (get_or-set_self fat g free 0 (rw (← e) l)))
freed_in (g ∷ gs) fat x l (inr i) = freed_in gs (set fat g free) x (rw length-set l) i

-- On a chain that ends, of less than 70 granules, `delchain` returns. It frees exactly the
-- granules of the chain: those are free, and all others keep their codes.
pub delchain_lem :
    (g : ℕ) (fat gs : List ℕ)
    → Chain fat g gs
    → length gs < 70
    → (fat' : List ℕ) × (delchain g fat ≡ some fat')
      × (length fat' ≡ length fat)
      × ((x : ℕ) → x < length fat → IsIn x gs → get_or fat' x 0 ≡ free)
      × ((x : ℕ) → ¬ IsIn x gs → get_or fat' x 0 ≡ get_or fat x 0)
unfolding delchain
delchain_lem g fat gs ch l = (
  freed gs fat,
  delchain_fuel_lem 70 g fat gs ch l,
  freed-set gs g fat,
  freed_in gs fat,
  freed_out gs fat,
)
