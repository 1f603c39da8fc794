-- ===== src/Compress/Encode/Loop.antt =====
-- The loop of uncompress/compress.c against the specification of the codes.
use fip.Base.{
  ℕ, zero, suc, ◌+◌, ◌≤◌, ◌<◌, ◌≡◌, refl, sym, ap, ◌∙◌, subst, inl, inr, Option, none, some, List,
  [], ◌∷◌, ◌++◌, append-nil, append_assoc, arith, Option-cases, length, All, length-append,
}
use mathlib.Core.Path.{subst₂}
use fip.Uncompress.Reader.{Reader, IsReading, pending, uncons, inbyte, inbyte_lem}
use fip.Uncompress.Lzw.{width, width_from, spell}
use fip.Uncompress.Bits.Laws.{IsByte, low_bits}
use fip.Uncompress.Refine.Dictionary.{Holds, spell-Spells, get_elem?-snoc}
use fip.Compress.Bits.{outsym}
use fip.Compress.Bits.Laws.{Puts, outsym_lem}
use fip.Compress.Dictionary.{exist}
use fip.Compress.Dictionary.Laws.{IsShort, found, exist_lem, adddict-grows}
use fip.Compress.Codes.{find, codes}
use fip.Compress.Codes.Found.{code_bits, find-spell, find-at, spell-byte}
use fip.Compress.Encode.{Encoder, Coded, ended, outside, extended, accept, encode_loop}

-- The encoder has the strings `es`, the string `p` in hand, and has put out `bits` behind `base`.
pub record Codes (base bits : List ℕ) (es : List (List ℕ)) (p : List ℕ) (e : Encoder) : Type 0 where
  pub reading : IsReading e.input
  pub bytes : All IsByte (pending e.input)
  pub table : Holds 9 e.table es
  pub short : IsShort es
  pub code : spell es e.w ≡ some p
  pub size : length p ≤ length es + 1
  pub sink : Puts base bits e.sink

pub codes-some :
    (xs : List ℕ) (es : List (List ℕ)) (w : ℕ) (p : List ℕ) → 1 ≤ length (codes es w p xs)
unfolding codes
codes-some [] es w p = omega arith
codes-some (x ∷ xs) es w p = elim (Option-cases (find es (p ++ x ∷ []))) [
  | inl nothing ↦ rw (nothing, codes) (omega arith)
  | inr (h, there) ↦ rw (there, codes) (codes-some xs es h (p ++ x ∷ []))
]

IsShort-snoc :
    (es : List (List ℕ)) (s : List ℕ)
    → IsShort es
    → length s ≤ length es + 2
    → IsShort (es ++ s ∷ [])
IsShort-snoc es s short l i r there = elim (get_elem?-snoc es s i there) [
  | inl old ↦ short i r old
  | inr (place, same) ↦ omega (arith, place, ap length same, l)
]

module _ (base bits : List ℕ) (es : List (List ℕ)) (p : List ℕ) (e : Encoder)
    (c : Codes base bits es p e) (x : ℕ) (b : x < 256) where
  existing : length es ≤ 255 → exist e.w x e.table ≡ found (find es (p ++ x ∷ []))
  existing few =
      exist_lem e.table es c.table c.short few p x
        (spell-Spells 9 (omega arith) (omega arith) e.w c.table c.code).0
        (omega (arith, c.size, few)) b

  accept_found :
      (h : ℕ)
      → length es ≤ 255
      → find es (p ++ x ∷ []) ≡ some h
      → (accept x e ≡ some (record e { w = h }))
        × Codes base bits es (p ++ x ∷ []) (record e { w = h })
  unfolding accept
  accept_found h few there = (
    rw (accept, existing few, there) refl,
    record {
      reading = c.reading;
      bytes = c.bytes;
      table = c.table;
      short = c.short;
      code = find-spell es (p ++ x ∷ []) h there;
      size =
          let (j, l, stored) = find-at es (p ++ x ∷ []) h there in
          omega (arith, l, c.short j (p ++ x ∷ []) stored);
      sink = c.sink;
    },
  )

  accept_missing :
      length es < 255
      → find es (p ++ x ∷ []) ≡ none
      → (e' : Encoder) × (accept x e ≡ some e')
        × (e'.w ≡ x)
        × (e'.input ≡ e.input)
        × Codes base (bits ++ low_bits 9 e.w) (es ++ (p ++ x ∷ []) ∷ []) (x ∷ []) e'
  unfolding accept extended width width_from
  accept_missing few nothing =
      let (spelled, l) = spell-Spells 9 (omega arith) (omega arith) e.w c.table c.code in
      let (t, grows, holds) = adddict-grows e.table es c.table few p x spelled l b in
      let wide : t.bits ≡ 9 = holds.wide in
      (
        record e { sink = outsym t.bits e.w e.sink; table = t; w = x },
        rw (accept, existing (omega (arith, few)), nothing, grows) refl,
        refl,
        refl,
        record {
          reading = c.reading;
          bytes = c.bytes;
          table = holds;
          short =
              IsShort-snoc es (p ++ x ∷ []) c.short
                (omega (arith, c.size, length-append p (x ∷ [])));
          code = spell-byte (es ++ (p ++ x ∷ []) ∷ []) x b;
          size = omega arith;
          sink =
              subst (λ n. Puts base (bits ++ low_bits 9 e.w) (outsym n e.w e.sink)) (sym wide)
                (outsym_lem 9 e.w base bits e.sink c.sink);
        },
      )

-- One byte of the input.
pub reads :
    (r : Reader) (xs : List ℕ)
    → IsReading r
    → pending r ≡ xs
    → (r' : Reader) × (inbyte r ≡ ((uncons xs).0, r')) × (pending r' ≡ (uncons xs).1) × IsReading r'
reads r xs v e =
    let (same, v') = inbyte_lem r v in
    let r' = (inbyte r).1 in
    (
      r',
      ap (λ c. (c, r')) (ap (λ p. p.0) (sym same) ∙ ap (λ l. (uncons l).0) e),
      ap (λ p. p.1) (sym same) ∙ ap (λ l. (uncons l).1) e,
      v',
    )

-- A round of the loop with what `inbyte` returns.
abbrev loop_round : ℕ → Option ℕ × Reader → Encoder → Coded
loop_round f c e =
    let e' = record e { input = c.1 } in
    elim c.0 [
      | none ↦ ended (record e' { sink = outsym e'.table.bits e'.w e'.sink })
      | some b ↦ elim (accept b e') [ none ↦ outside | some e'' ↦ encode_loop f e'' ]
    ]

encode_loop-ended :
    (f : ℕ) (e : Encoder) (r : Reader)
    → inbyte e.input ≡ (none, r)
    → encode_loop (suc f) e ≡ ended (record e { input = r; sink = outsym e.table.bits e.w e.sink })
unfolding encode_loop
encode_loop-ended f e r eq = ap (λ c. loop_round f c e) eq

encode_loop-more :
    (f : ℕ) (e e' : Encoder) (b : ℕ) (r : Reader)
    → inbyte e.input ≡ (some b, r)
    → accept b (record e { input = r }) ≡ some e'
    → encode_loop (suc f) e ≡ encode_loop f e'
unfolding encode_loop
encode_loop-more f e e' b r eq a =
    ap (λ c. loop_round f c e) eq
    ∙ ap (λ (o : Option Encoder). elim o [ none ↦ outside | some e'' ↦ encode_loop f e'' ]) a

Codes-input :
    {base bits : List ℕ} {es : List (List ℕ)} {p : List ℕ} {e : Encoder} (r : Reader)
    → Codes base bits es p e
    → IsReading r
    → All IsByte (pending r)
    → Codes base bits es p (record e { input = r })
Codes-input r c v a = record {
  reading = v;
  bytes = a;
  table = c.table;
  short = c.short;
  code = c.code;
  size = c.size;
  sink = c.sink;
}

pub encode_loop_lem :
    (xs : List ℕ) (f : ℕ) (base bits : List ℕ) (es : List (List ℕ)) (p : List ℕ) (e : Encoder)
    → Codes base bits es p e
    → pending e.input ≡ xs
    → length es + length (codes es e.w p xs) ≤ 256
    → length xs < f
    → (e' : Encoder) × (encode_loop f e ≡ ended e')
      × Puts base (bits ++ code_bits (codes es e.w p xs)) e'.sink
unfolding codes uncons code_bits width width_from
encode_loop_lem [] zero base bits es p e c s room fuel = absurd (omega arith)
encode_loop_lem [] (suc f) base bits es p e c s room fuel =
    let (r, eq, _, _) = reads e.input [] c.reading s in
    let wide : e.table.bits ≡ 9 = c.table.wide in
    (
      record e { input = r; sink = outsym e.table.bits e.w e.sink },
      encode_loop-ended f e r eq,
      subst₂ (λ n b. Puts base b (outsym n e.w e.sink)) (sym wide)
          (ap (λ l. bits ++ l) (sym (append-nil (low_bits 9 e.w))))
          (outsym_lem 9 e.w base bits e.sink c.sink),
    )
encode_loop_lem (x ∷ xs) zero base bits es p e c s room fuel = absurd (omega arith)
encode_loop_lem (x ∷ xs) (suc f) base bits es p e c s room fuel =
    let (r, eq, rest, v) = reads e.input (x ∷ xs) c.reading s in
    let (b, a) = subst (All IsByte) s c.bytes in
    let e₁ = record e { input = r } in
    let c₁ : Codes base bits es p e₁ = Codes-input r c v (subst (All IsByte) (sym rest) a) in
    elim (Option-cases (find es (p ++ x ∷ []))) [
      | inl nothing ↦
          let es₁ = es ++ (p ++ x ∷ []) ∷ [] in
          let here : codes es e.w p (x ∷ xs) ≡ e.w ∷ codes es₁ x (x ∷ []) xs =
            rw (nothing, codes) refl in
          let some_left = codes-some xs es₁ x (x ∷ []) in
          let sizes = ap length here in
          let (e₂, taken, last, kept, c₂) =
            accept_missing base bits es p e₁ c₁ x b (omega (arith, room, sizes, some_left))
              nothing in
          let later = λ (w : ℕ). codes es₁ w (x ∷ []) xs in
          let (e', ends, out) =
            encode_loop_lem xs f base (bits ++ low_bits 9 e.w) es₁ (x ∷ []) e₂ c₂
              (ap pending kept ∙ rest)
              (omega (
                arith,
                room,
                sizes,
                ap (λ w. length (later w)) last,
                length-append es ((p ++ x ∷ []) ∷ []),
              ))
              (omega (arith, fuel)) in
          (
            e',
            encode_loop-more f e e₂ x r eq taken ∙ ends,
            subst (λ b. Puts base b e'.sink)
                (ap (λ w. (bits ++ low_bits 9 e.w) ++ code_bits (later w)) last
                  ∙ append_assoc bits (low_bits 9 e.w) (code_bits (later x))
                  ∙ ap (λ cs. bits ++ code_bits cs) (sym here))
                out,
          )
      | inr (h, there) ↦
          let here : codes es e.w p (x ∷ xs) ≡ codes es h (p ++ x ∷ []) xs =
            rw (there, codes) refl in
          let sizes = ap length here in
          let some_left = codes-some xs es h (p ++ x ∷ []) in
          let (taken, c₂) =
            accept_found base bits es p e₁ c₁ x b h (omega (arith, room, sizes, some_left)) there in
          let (e', ends, out) =
            encode_loop_lem xs f base bits es (p ++ x ∷ []) (record e₁ { w = h }) c₂ rest
              (omega (arith, room, sizes)) (omega (arith, fuel)) in
          (
            e',
            encode_loop-more f e (record e₁ { w = h }) x r eq taken ∙ ends,
            subst (λ cs. Puts base (bits ++ code_bits cs) e'.sink) (sym here) out,
          )
    ]
