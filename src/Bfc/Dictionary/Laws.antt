-- ===== src/Bfc/Dictionary/Laws.antt =====
-- What `findentry` finds.
use fip.Base.{
  ℕ, zero, suc, ◌≤◌, ◌<◌, ◌≡◌, refl, sym, ap, ◌∙◌, subst, ◌≢◌, inl, inr, false, Option, none, some,
  List, [], ◌∷◌, arith, Bool-cases, compare_cases, length, same_bytes, same_bytes_iff, if-true,
  if-false, le→leb,
}
use mathlib.Core.Bool.{false≢true}
use fip.Bfc.State.{Entry, Compiler, ok}
use fip.Bfc.Dictionary.{maxdict, name_at, find_loop, findentry}

-- Of the `n` first positions `p` is the last one where the name stands, or none if it stands at none.
abbrev pub IsNewest : ℕ → List ℕ → List Entry → Option ℕ → Type 0
IsNewest n w d none = (j : ℕ) → j < n → name_at d j ≢ w
IsNewest n w d (some i) = (i < n) × (name_at d i ≡ w) × ((j : ℕ) → i < j → j < n → name_at d j ≢ w)

one_more :
    (n : ℕ) (w : List ℕ) (d : List Entry) (p : Option ℕ)
    → IsNewest n w d p
    → name_at d n ≢ w
    → IsNewest (suc n) w d p
one_more n w d none h ne = λ j l. elim (compare_cases j n) [
  | inl l' ↦ h j l'
  | inr (inl e) ↦ subst (λ k. name_at d k ≢ w) (sym e) ne
  | inr (inr g) ↦ absurd (omega arith)
]
one_more n w d (some i) (l, e, h) ne = (
  omega arith,
  e,
  λ j a b. elim (compare_cases j n) [
    | inl l' ↦ h j a l'
    | inr (inl e') ↦ subst (λ k. name_at d k ≢ w) (sym e') ne
    | inr (inr g) ↦ absurd (omega arith)
  ],
)

find_loop-IsNewest : (n : ℕ) (w : List ℕ) (d : List Entry) → IsNewest n w d (find_loop n w d)
unfolding find_loop
find_loop-IsNewest zero w d = λ j l. elim l [ ]
find_loop-IsNewest (suc n) w d = elim (Bool-cases (same_bytes (name_at d n) w)) [
  | inl e ↦
      subst (IsNewest (suc n) w d) (sym (if-true _ _ e))
        (omega arith, (same_bytes_iff (name_at d n) w).0 e, λ j a b. absurd (omega arith))
  | inr e ↦ subst (IsNewest (suc n) w d) (sym (if-false _ _ e)) (
      one_more n w d _ (find_loop-IsNewest n w d)
        λ q. absurd (false≢true (sym e ∙ (same_bytes_iff (name_at d n) w).1 q)))
]

name_at_past : (d : List Entry) (i : ℕ) → length d ≤ i → name_at d i ≡ []
unfolding name_at
name_at_past [] i l = refl
name_at_past (e ∷ d) zero l = absurd (omega arith)
name_at_past (e ∷ d) (suc i) l = name_at_past d i (omega arith)

empty_differs : (xs w : List ℕ) → xs ≡ [] → 0 < length w → same_bytes xs w ≡ false
unfolding same_bytes
empty_differs xs [] e h = absurd (omega arith)
empty_differs xs (x ∷ w) e h = ap (λ t. same_bytes t (x ∷ w)) e

find_loop-past :
    (w : List ℕ) (d : List Entry) (n : ℕ)
    → 0 < length w
    → length d ≤ n
    → find_loop (suc n) w d ≡ find_loop n w d
unfolding find_loop
find_loop-past w d n h l = if-false _ _ (empty_differs _ w (name_at_past d n l) h)

-- Nothing is found where nothing is allocated.
pub find_loop_beyond :
    (w : List ℕ) (d : List Entry) (n : ℕ)
    → 0 < length w
    → length d ≤ n
    → find_loop n w d ≡ find_loop (length d) w d
find_loop_beyond w [] zero h l = refl
find_loop_beyond w (e ∷ d) zero h l = absurd (omega arith)
find_loop_beyond w d (suc n) h l = elim (compare_cases (length d) (suc n)) [
  | inl a ↦ find_loop-past w d n h (omega arith) ∙ find_loop_beyond w d n h (omega arith)
  | inr (inl e) ↦ ap (λ k. find_loop k w d) (sym e)
  | inr (inr g) ↦ absurd (omega arith)
]

-- For a word that is not empty, and with no more entries than labels and at most 256 labels,
-- `findentry` returns the newest of the allocated entries with that name, or none if no entry has
-- it.
pub findentry_lem :
    (c : Compiler)
    → 0 < length c.wordb
    → length c.dict ≤ c.labeli
    → c.labeli ≤ maxdict
    → (p : Option ℕ) × (findentry c ≡ ok p) × IsNewest (length c.dict) c.wordb c.dict p
unfolding findentry
findentry_lem c h l m = (
  find_loop (length c.dict) c.wordb c.dict,
  if-true _ _ (le→leb c.labeli maxdict m) ∙ ap ok (find_loop_beyond c.wordb c.dict c.labeli h l),
  find_loop-IsNewest (length c.dict) c.wordb c.dict,
)
