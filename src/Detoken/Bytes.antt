-- ===== src/Detoken/Bytes.antt =====
-- The input buffer of decb/detoken.c as a stream of bytes.
use fip.Base.{
  ℕ, zero, suc, ◌+◌, ◌*◌, ◌≤◌, ◌<◌, ◌≡◌, refl, sym, ap, ap₂, ◌∙◌, subst, ◌≢◌, ◌⊎◌, inl, inr, Option,
  none, some, List, [], ◌∷◌, ◌++◌, arith, length, get_or, take, drop, drop-get_or, drop_all,
  length-take, take-append_length, get_or-take, length-append, take-append-drop, length-drop, u16,
}
use native.Mathlib.Decide.{ℕ_discrete}
use fip.Detoken.{Source, ok, refill, held, mygetc, mygetc_err, mygetw, reset}

-- The bytes that `mygetc` has still to hand out.
abbrev pub remaining : Source → List ℕ
remaining i = drop i.pos (take i.len i.buf) ++ i.rest

pub record IsSource (i : Source) : Type 0 where
  pub within : i.pos ≤ i.len
  pub filled : i.len ≤ 256
  pub size : length i.buf ≡ 256

refill-IsSource : (i : Source) → IsSource i → IsSource (refill i)
unfolding refill
refill-IsSource i v = record {
  within = omega arith;
  filled = omega (arith, length-take 256 i.rest);
  size = omega (
    arith,
    v.size,
    length-append (take 256 i.rest) (drop (length (take 256 i.rest)) i.buf),
    length-drop (length (take 256 i.rest)) i.buf,
    length-take 256 i.rest,
  );
}

remaining-refill : (i : Source) → remaining (refill i) ≡ i.rest
unfolding refill
remaining-refill i =
    ap (λ t. t ++ drop 256 i.rest) (take-append_length (take 256 i.rest) _)
    ∙ take-append-drop 256 i.rest

-- At the end of the buffer only the file is left.
remaining_used : (i : Source) → i.pos ≡ i.len → remaining i ≡ i.rest
remaining_used i e =
    ap (λ t. t ++ i.rest)
      (drop_all i.pos (take i.len i.buf) (omega (arith, e, length-take i.len i.buf)))

-- In the middle of the buffer.
held_lem :
    (i : Source)
    → IsSource i
    → i.pos < i.len
    → (remaining i ≡ get_or i.buf i.pos 0 ∷ remaining (held i).1) × IsSource (held i).1
unfolding held
held_lem i v l =
    let next : suc i.pos ≡ i.pos + 1 = omega arith in
    (
      ap (λ t. t ++ i.rest)
          (drop-get_or i.pos (take i.len i.buf) 0
              (omega (arith, length-take i.len i.buf, v.filled, v.size))
            ∙ ap₂ (λ b k. b ∷ drop k (take i.len i.buf)) (get_or-take i.len i.pos i.buf 0 l) next),
      record { within = omega arith; filled = v.filled; size = v.size },
    )

-- What a call returns of the bytes that remain: the first, or -1 where there is none.
abbrev pub Hands : Source → Option ℕ × Source → Type 0
Hands i (c, i') =
    IsSource i'
    × (((remaining i ≡ []) × (c ≡ none) × (remaining i' ≡ []))
        ⊎ ((b : ℕ) × (remaining i ≡ b ∷ remaining i') × (c ≡ some b)))

held-Hands : (i : Source) → IsSource i → i.pos < i.len → Hands i (held i)
unfolding held
held-Hands i v l = let (e, v') = held_lem i v l in (v', inr (get_or i.buf i.pos 0, e, refl))

rest_empty : (n : ℕ) (xs : List ℕ) → 0 < n → length (take n xs) ≡ 0 → xs ≡ []
rest_empty n [] l e = refl
rest_empty zero (x ∷ xs) l e = elim l [ ]
rest_empty (suc n) (x ∷ xs) l e = absurd (omega arith)

module _ (i : Source) where
  mygetc-held : i.pos ≢ i.len → held i ≡ mygetc i
  unfolding mygetc
  mygetc-held ne = ground arith

  mygetc_refilled : i.pos ≡ i.len → (refill i).len ≢ 0 → held (refill i) ≡ mygetc i
  unfolding mygetc
  mygetc_refilled e ne = ground arith

  mygetc_ended : i.pos ≡ i.len → (refill i).len ≡ 0 → (none, refill i) ≡ mygetc i
  unfolding mygetc
  mygetc_ended e z = ground arith

  no_rest : (refill i).len ≡ 0 → i.rest ≡ []
  unfolding refill
  no_rest z = rest_empty 256 i.rest (omega arith) z

  start_again : (refill i).pos ≡ 0
  unfolding refill
  start_again = refl

  -- From a valid input buffer `mygetc` returns the first byte that remains of the file and leaves
  -- the others, across the refills, or returns -1 exactly if none remains; the buffer is valid
  -- again.
  pub mygetc_lem : IsSource i → Hands i (mygetc i)
  mygetc_lem v = elim (ℕ_discrete i.pos i.len) [
    | no inside ↦
        subst (Hands i) (mygetc-held inside) (held-Hands i v (omega (arith, v.within, inside)))
    | yes used ↦ elim (ℕ_discrete (refill i).len 0) [
      | yes empty ↦ subst (Hands i) (mygetc_ended used empty) (
        refill-IsSource i v,
        inl (remaining_used i used ∙ no_rest empty, refl, remaining-refill i ∙ no_rest empty),
      )
      | no some_left ↦ subst (Hands i) (mygetc_refilled used some_left) (
          subst
            (λ s.
              IsSource (held (refill i)).1
              × (((s ≡ []) × ((held (refill i)).0 ≡ none) × (remaining (held (refill i)).1 ≡ []))
                  ⊎ ((b : ℕ) × (s ≡ b ∷ remaining (held (refill i)).1)
                      × ((held (refill i)).0 ≡ some b))))
            (remaining-refill i ∙ sym (remaining_used i used))
            (held-Hands (refill i) (refill-IsSource i v) (omega (arith, start_again, some_left))))
    ]
  ]

  -- One byte of those that remain.
  pub mygetc_err_lem :
      {b : ℕ} {rest : List ℕ}
      → IsSource i
      → remaining i ≡ b ∷ rest
      → (i' : Source) × (mygetc_err i ≡ ok (b, i')) × IsSource i' × (remaining i' ≡ rest)
  unfolding mygetc_err
  mygetc_err_lem {b} {rest} v e =
      let (v', found) = mygetc_lem v in
      elim found [
        | inl (none_left, _, _) ↦ let none_here : b ∷ rest ≡ [] = sym e ∙ none_left in cc
        | inr (c, at, is) ↦
            let same : c ∷ remaining (mygetc i).1 ≡ b ∷ rest = sym at ∙ e in
            let first : c ≡ b = cc in
            let others : remaining (mygetc i).1 ≡ rest = cc in
            ((mygetc i).1, rw (is, mygetc_err) (ap (λ k. ok (k, (mygetc i).1)) first), v', others)
      ]

-- Two bytes of those that remain, the high one first.
pub mygetw_lem :
    (i : Source) (a b : ℕ) {rest : List ℕ}
    → a < 256
    → b < 256
    → IsSource i
    → remaining i ≡ a ∷ b ∷ rest
    → (i' : Source) × (mygetw i ≡ ok (a * 256 + b, i')) × IsSource i' × (remaining i' ≡ rest)
unfolding mygetw
mygetw_lem i a b la lb v e =
    let (i₁, got₁, v₁, e₁) = mygetc_err_lem i v e in
    let (i₂, got₂, v₂, e₂) = mygetc_err_lem i₁ v₁ e₁ in
    let small : u16 (u16 (a * 256) + b) ≡ a * 256 + b = omega arith in
    (i₂, rw (got₁, got₂, small) refl, v₂, e₂)

pub reset_lem : (i : Source) → IsSource i → IsSource (reset i) × (remaining (reset i) ≡ i.whole)
unfolding reset
reset_lem i v = (record { within = omega arith; filled = omega arith; size = v.size }, refl)
