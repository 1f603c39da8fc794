-- ===== src/Uncompress/Refine/Dictionary.antt =====
-- The arrays against the list of strings.
use fip.Base.{
  ℕ, zero, suc, ◌+◌, ◌-◌, ◌^◌, ◌≤◌, ◌<◌, ◌≡◌, refl, sym, ap, ap₂, ◌∙◌, subst, ◌≢◌, ◌⊎◌, inl, inr,
  true, false, some, List, [], ◌∷◌, ◌++◌, arith, ◌==◌, ==_iff, compare_cases, length, get_elem?,
  length-append, take,
}
use mathlib.Core.Path.{subst₂}
use native.Mathlib.Nat.{pow-le-pow_right}
use native.Mathlib.Decide.{ℕ_discrete}
use fip.Uncompress.Table.{Table, cleardict, adddict}
use fip.Uncompress.Table.Laws.{
  Spells, literal, Spells-adddict, Spells-new, adddict_full, adddict-nexti, adddict-bits,
  adddict-mymaxbits,
}
use fip.Uncompress.Refine.Width.{
  width_from_small, pow-lt-next, width_from_bounds, width_from_step, widen,
}
use fip.Uncompress.Lzw.{symbols, width_from, width, spell, learn, width_from}

pub record Holds (max : ℕ) (t : Table) (es : List (List ℕ)) : Type 0 where
  pub limit : t.mymaxbits ≡ max
  pub count : t.nexti ≡ symbols es
  pub wide : t.bits ≡ width max es
  pub room : t.nexti ≤ 2 ^ t.bits
  pub spells : (i : ℕ) (s : List ℕ) → get_elem? es i ≡ some s → Spells t (257 + i) s

pub get_elem?-lt {ℓ} :
    {A : Type ℓ} (xs : List A) (i : ℕ) {x : A} → get_elem? xs i ≡ some x → i < length xs
get_elem?-lt [] i e = cc
get_elem?-lt (x ∷ xs) zero e = omega arith
get_elem?-lt (x ∷ xs) (suc i) e = omega (arith, get_elem?-lt xs i e)

pub get_elem?-snoc {ℓ} :
    {A : Type ℓ} (xs : List A) (x : A) (i : ℕ) {y : A}
    → get_elem? (xs ++ x ∷ []) i ≡ some y
    → (get_elem? xs i ≡ some y) ⊎ ((i ≡ length xs) × (x ≡ y))
get_elem?-snoc [] x zero e = inr (refl, cc)
get_elem?-snoc [] x (suc i) e = cc
get_elem?-snoc (z ∷ xs) x zero e = inl e
get_elem?-snoc (z ∷ xs) x (suc i) e = elim (get_elem?-snoc xs x i e) [
  | inl old ↦ inl old
  | inr (at, same) ↦ inr (ap suc at, same)
]

pub get_elem?-some {ℓ} :
    {A : Type ℓ} (xs : List A) (i : ℕ) → i < length xs → (x : A) × (get_elem? xs i ≡ some x)
get_elem?-some [] i l = elim l [ ]
get_elem?-some (x ∷ xs) zero l = (x, refl)
get_elem?-some (x ∷ xs) (suc i) l = get_elem?-some xs i (omega arith)

module _ (max : ℕ) (low : 9 ≤ max) (high : max ≤ 14) where
  pub width_bounds : (es : List (List ℕ)) → (9 ≤ width max es) × (width max es ≤ 14)
  unfolding width
  width_bounds es = omega (arith, width_from_bounds 9 (max - 9) (symbols es))

  -- `cleardict` leaves the dictionary with no strings.
  pub cleardict-Holds : (t : Table) → t.mymaxbits ≡ max → Holds max (cleardict t) []
  unfolding cleardict width width_from
  cleardict-Holds t e = record {
    limit = e;
    count = refl;
    wide = sym (width_from_small 9 (max - 9) 257 (omega arith));
    room = omega arith;
    spells = λ i s none_there. cc;
  }

  -- A symbol below `nexti` other than the clear code spells its string.
  pub spell-Spells :
      {t : Table} {es : List (List ℕ)} (c : ℕ) {s : List ℕ}
      → Holds max t es
      → spell es c ≡ some s
      → Spells t c s × (c < t.nexti)
  unfolding spell
  spell-Spells {t} {es} c {s} h e = elim (compare_cases c 256) [
    | inl byte ↦
        let same : c ∷ [] ≡ s = ground arith in (literal byte (sym same), omega (arith, h.count))
    | inr (inl here) ↦ absurd (ground arith)
    | inr (inr above) ↦
        let found : get_elem? es (c - 257) ≡ some s = ground arith in
        let back : 257 + (c - 257) ≡ c = omega arith in
        (
          subst (λ k. Spells t k s) back (h.spells (c - 257) s found),
          omega (arith, h.count, get_elem?-lt es (c - 257) found),
        )
  ]

  -- What the dictionary does not spell is the clear code or is not below `nexti`.
  pub spell-defined :
      {t : Table} {es : List (List ℕ)} (c : ℕ)
      → Holds max t es
      → c < t.nexti
      → c ≢ 256
      → (s : List ℕ) × (spell es c ≡ some s)
  unfolding spell
  spell-defined {es = es} c h l ne = elim (compare_cases c 256) [
    | inl byte ↦ (c ∷ [], ground arith)
    | inr (inl here) ↦ absurd (ne here)
    | inr (inr above) ↦
        let (s, e) = get_elem?-some es (c - 257) (omega (arith, h.count)) in (s, ground arith)
  ]

  module _ {t : Table} {es : List (List ℕ)} (h : Holds max t es) where
    pub nexti-le : t.nexti ≤ 16384
    nexti-le =
        let small : 2 ^ t.bits ≤ 16384 =
          pow-le-pow_right {n = 2} (omega arith) {i = t.bits} {j = 14}
            (omega (arith, h.wide, width_bounds es)) in
        omega (arith, h.room)

    roomy : t.nexti ≢ 2 ^ t.bits → (t.nexti + 1 ≤ 2 ^ t.bits) × (t.nexti + 1 < 65536)
    roomy ne =
        let small : 2 ^ t.bits ≤ 16384 =
          pow-le-pow_right {n = 2} (omega arith) {i = t.bits} {j = 14}
            (omega (arith, h.wide, width_bounds es)) in
        (omega (arith, h.room), omega (arith, h.room))

    adddict-wide :
        (p x : ℕ) (s : List ℕ)
        → t.nexti ≢ 2 ^ t.bits
        → ((adddict p x t).bits ≡ width max (es ++ s ∷ []))
          × ((adddict p x t).nexti ≤ 2 ^ (adddict p x t).bits)
    unfolding width
    adddict-wide p x s ne = (
      adddict-bits p x t ne roomy'.1
          ∙ ap₂ (λ b n. widen b (n + 1) t.mymaxbits) h.wide h.count
          ∙ ap (λ m. widen (width_from 9 (max - 9) (symbols es)) (symbols es + 1) m) top
          ∙ sym (
              width_from_step 9 (max - 9) (symbols es)
                (subst₂ (λ n w. n + 1 ≤ 2 ^ w) h.count h.wide roomy'.0))
          ∙ ap (λ n. width_from 9 (max - 9) n) longer,
      rw (adddict-nexti p x t ne roomy'.1, adddict-bits p x t ne roomy'.1)
          (ground (arith, roomy'.0, pow-lt-next t.bits)),
    )
      where
        roomy' : (t.nexti + 1 ≤ 2 ^ t.bits) × (t.nexti + 1 < 65536)
        roomy' = roomy ne

        top : t.mymaxbits ≡ 9 + (max - 9)
        top = omega (arith, h.limit)

        longer : symbols es + 1 ≡ symbols (es ++ s ∷ [])
        longer = omega (arith, length-append es (s ∷ []))

    adddict-Spells :
        (p x : ℕ) {s : List ℕ}
        → t.nexti ≢ 2 ^ t.bits
        → p < t.nexti
        → Spells t p s
        → x < 256
        → (i : ℕ) (r : List ℕ) → get_elem? (es ++ (s ++ x ∷ []) ∷ []) i ≡ some r
        → Spells (adddict p x t) (257 + i) r
    adddict-Spells p x {s} ne l sp b i r e = elim (get_elem?-snoc es (s ++ x ∷ []) i e) [
      | inl old ↦
          Spells-adddict p x t (omega (arith, h.count, get_elem?-lt es i old)) (h.spells i r old)
      | inr (at, same) ↦
          let here : t.nexti ≡ 257 + i = omega (arith, h.count) in
          subst₂ (λ k u. Spells (adddict p x t) k u) here same
            (Spells-new p x t ne (roomy ne).1 (omega (arith, h.count)) l b sp)
    ]

    -- Let the arrays hold the strings `es`, the memory allow codes of `max` bits, from 9 to 14,
    -- `p` be a symbol of the dictionary that spells `s`, and `u` begin by the byte `x`. Then
    -- `adddict p x` leaves arrays that hold what the specification learns from `s` and `u`: one
    -- string more, at the code width that the specification has for it, or the same ones where
    -- the dictionary is full.
    pub adddict-Holds :
        (p x : ℕ) {s r u : List ℕ}
        → p < t.nexti
        → Spells t p s
        → u ≡ x ∷ r
        → x < 256
        → Holds max (adddict p x t) (learn (width max es) s u es)
    unfolding learn
    adddict-Holds p x {s} {r} {u} l sp e b = elim (ℕ_discrete t.nexti (2 ^ t.bits)) [
      | yes full ↦ rw (adddict_full p x t full, stays full) h
      | no ne ↦
          rw (grows ne, e)
            (record {
              limit = adddict-mymaxbits p x t ne (roomy ne).1 ∙ h.limit;
              count = omega (
                arith,
                adddict-nexti p x t ne (roomy ne).1,
                h.count,
                length-append es ((s ++ x ∷ []) ∷ []),
              );
              wide = (adddict-wide p x (s ++ x ∷ []) ne).0;
              room = (adddict-wide p x (s ++ x ∷ []) ne).1;
              spells = adddict-Spells p x ne l sp b;
            })
    ]
      where
        stays : t.nexti ≡ 2 ^ t.bits → (symbols es == 2 ^ width max es) ≡ true
        stays full = rw (← h.count, ← h.wide) ((==_iff _ _).1 full)

        grows : t.nexti ≢ 2 ^ t.bits → (symbols es == 2 ^ width max es) ≡ false
        grows ne = rw (← h.count, ← h.wide) (ground (arith, ne))

pub symbols-learn :
    (w : ℕ) (p t : List ℕ) (es : List (List ℕ)) → symbols es ≤ symbols (learn w p t es)
unfolding learn
symbols-learn w p t es = ground (arith, length-append es ((p ++ take 1 t) ∷ []))
