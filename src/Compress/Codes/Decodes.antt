-- ===== src/Compress/Codes/Decodes.antt =====
-- The decoder of the specification on the codes of an input.
use fip.Base.{
  ℕ, zero, suc, ◌+◌, ◌-◌, ◌^◌, ◌≤◌, ◌<◌, ◌≡◌, refl, sym, ap, ap₂, ◌∙◌, ◌≢◌, inl, inr, false, Option,
  none, some, List, [], ◌∷◌, ◌++◌, append-nil, append_assoc, arith, ltb, ◌==◌, Option-cases, lt→ltb,
  le→ltb, length, take, drop, All, take-append_length, if-true, length-append, if-false,
}
use fip.Uncompress.Bits.Laws.{low_bits, length-low_bits, value}
use fip.Uncompress.Lzw.{
  symbols, width, spell, Lzw, finished, more, final, opening, learn, follow, next, decode, initial,
  unspecified,
}
use fip.Uncompress.Refine.Dictionary.{width_bounds}
use fip.Uncompress.Refine.Width.{width_from_small}
use fip.Compress.Bits.Laws.{value-low_bits}
use fip.Compress.Codes.{find_from, find, codes}
use fip.Compress.Codes.Found.{code_bits, find-spell, spell-byte, string_of_lem, take-front}

module _ (max : ℕ) (low : 9 ≤ max) (high : max ≤ 14) where
  width_nine : (es : List (List ℕ)) → symbols es < 512 → width max es ≡ 9
  unfolding width
  width_nine es l = width_from_small 9 (max - 9) (symbols es) (omega arith)

  take-code : (c : ℕ) (rest : List ℕ) → take 9 (low_bits 9 c ++ rest) ≡ low_bits 9 c
  take-code c rest =
      ap (λ n. take n (low_bits 9 c ++ rest)) (sym (length-low_bits 9 c))
      ∙ take-append_length (low_bits 9 c) rest

  follow_lem :
      (es : List (List ℕ)) (q p : List ℕ) (w : ℕ) (rest out : List ℕ)
      → q ≢ []
      → p ≢ []
      → symbols es < 512
      → spell (es ++ (q ++ take 1 p) ∷ []) w ≡ some p
      → follow max q
          (record { entries = es; prev = some q; bits = low_bits 9 w ++ rest; out = out })
        ≡ more (record {
          entries = es ++ (q ++ take 1 p) ∷ [];
          prev = some p;
          bits = rest;
          out = out ++ p;
        })
  unfolding follow learn low_bits
  follow_lem es q p w rest out nq np l e =
      let (means, no_clear, known) = string_of_lem es q p w nq np e in
      let read : value (take 9 (low_bits 9 w ++ rest)) ≡ w =
        ap value (take-code w rest) ∙ value-low_bits 9 w (omega (arith, known, l)) in
      let behind : drop 9 (low_bits 9 w ++ rest) ≡ rest = refl in
      let long : ltb (length (low_bits 9 w ++ rest)) 9 ≡ false =
        ground (arith, length-append (low_bits 9 w) rest, length-low_bits 9 w) in
      let valid : ltb (symbols es) w ≡ false = le→ltb (symbols es) w known in
      let code : (w == 256) ≡ false = ground (arith, no_clear) in
      let learnt : learn (width max es) q p es ≡ es ++ (q ++ take 1 p) ∷ [] =
        ap (λ n. learn n q p es) (width_nine es l)
        ∙ if-false {b = symbols es == 2 ^ 9} _ _ (ground (arith, l)) in
      rw (follow, width_nine es l, long, read, valid, code, means)
        (ap₂
          (λ es' n. more (record {
            entries = es';
            prev = some p;
            bits = drop n (low_bits 9 w ++ rest);
            out = out ++ p;
          }))
          learnt (width_nine es l))

  -- Padding of less than eight bits is no code.
  follow_end :
      (es : List (List ℕ)) (q pad out : List ℕ)
      → length pad < 8
      → follow max q (record { entries = es; prev = some q; bits = pad; out = out })
        ≡ final (finished out)
  unfolding follow
  follow_end es q pad out l =
      if-true _ _
        (lt→ltb (length pad) (width max es) (omega (arith, l, width_bounds max low high es)))

  decode-more : (f : ℕ) (z z' : Lzw) → next max z ≡ more z' → decode max (suc f) z ≡ decode max f z'
  unfolding decode
  decode-more f z z' e = ap (λ n. elim n [ more z' ↦ decode max f z' | final r ↦ r ]) e

  decode-final :
      (f : ℕ) (z : Lzw) (out : List ℕ)
      → next max z ≡ final (finished out)
      → decode max (suc f) z ≡ finished out
  unfolding decode
  decode-final f z out e = ap (λ n. elim n [ more z' ↦ decode max f z' | final r ↦ r ]) e

  module _ (pad : List ℕ) (few : length pad < 8) where
    -- The decoder has the strings `es` and has read `q`, and the encoder has one string more.
    abbrev between : List (List ℕ) → List ℕ → List ℕ → List ℕ → Lzw
    between es q cs out = record {
      entries = es;
      prev = some q;
      bits = code_bits cs ++ pad;
      out = out;
    }

    next-code :
        (es es₁ : List (List ℕ)) (q p : List ℕ) (w : ℕ) (cs out : List ℕ)
        → q ≢ []
        → p ≢ []
        → symbols es < 512
        → es ++ (q ++ take 1 p) ∷ [] ≡ es₁
        → spell es₁ w ≡ some p
        → next max (between es q (w ∷ cs) out) ≡ more (between es₁ p cs (out ++ p))
    unfolding next code_bits
    next-code es es₁ q p w cs out nq np l link e =
        ap (λ b. follow max q (record { entries = es; prev = some q; bits = b; out = out }))
          (append_assoc (low_bits 9 w) (code_bits cs) pad)
        ∙ follow_lem es q p w (code_bits cs ++ pad) out nq np l (ap (λ t. spell t w) link ∙ e)
        ∙ ap (λ t. more (between t p cs (out ++ p))) link

    next-end :
        (es : List (List ℕ)) (q out : List ℕ)
        → next max (between es q [] out) ≡ final (finished out)
    unfolding next code_bits
    next-end es q out = follow_end es q pad out few

    codes-decode :
        (xs : List ℕ) (f : ℕ) (es es₁ : List (List ℕ)) (q p : List ℕ) (w : ℕ) (out : List ℕ)
        → q ≢ []
        → p ≢ []
        → es ++ (q ++ take 1 p) ∷ [] ≡ es₁
        → spell es₁ w ≡ some p
        → symbols es + length (codes es₁ w p xs) ≤ 512
        → All (λ x. x < 256) xs
        → length (codes es₁ w p xs) < f
        → decode max f (between es q (codes es₁ w p xs) out) ≡ finished (out ++ (p ++ xs))
    unfolding codes
    codes-decode [] zero es es₁ q p w out nq np link e room a fuel = absurd (omega arith)
    codes-decode [] (suc zero) es es₁ q p w out nq np link e room a fuel = absurd (omega arith)
    codes-decode [] (suc (suc f)) es es₁ q p w out nq np link e room a fuel =
        decode-more (suc f) _ _ (next-code es es₁ q p w [] out nq np (omega arith) link e)
        ∙ decode-final f _ (out ++ p) (next-end es₁ p (out ++ p))
        ∙ ap (λ t. finished (out ++ t)) (sym (append-nil p))
    codes-decode (x ∷ xs) zero es es₁ q p w out nq np link e room a fuel = absurd (omega arith)
    codes-decode (x ∷ xs) (suc f) es es₁ q p w out nq np link e room (b, a) fuel =
        elim (Option-cases (find es₁ (p ++ x ∷ []))) [
          | inl nothing ↦
              let cs = codes (es₁ ++ (p ++ x ∷ []) ∷ []) x (x ∷ []) xs in
              let here : codes es₁ w p (x ∷ xs) ≡ w ∷ cs = rw (nothing, codes) refl in
              let sizes = ap length here in
              let longer : symbols es + 1 ≡ symbols es₁ =
                omega (arith, ap length link, length-append es ((q ++ take 1 p) ∷ [])) in
              ap (λ c. decode max (suc f) (between es q c out)) here
              ∙ decode-more f _ _
                  (next-code es es₁ q p w cs out nq np (omega (arith, room, sizes)) link e)
              ∙ codes-decode xs f es₁ (es₁ ++ (p ++ x ∷ []) ∷ []) p (x ∷ []) x (out ++ p) np
                  (λ n. absurd (omega (arith, ap length n))) refl
                  (spell-byte (es₁ ++ (p ++ x ∷ []) ∷ []) x b) (omega (arith, room, sizes, longer))
                  a (omega (arith, fuel, sizes))
              ∙ ap finished (append_assoc out p (x ∷ xs))
          | inr (h, there) ↦
              let here : codes es₁ w p (x ∷ xs) ≡ codes es₁ h (p ++ x ∷ []) xs =
                rw (there, codes) refl in
              let sizes = ap length here in
              let grown : take 1 p ≡ take 1 (p ++ x ∷ []) =
                take-front p (x ∷ []) (p ++ x ∷ []) np refl in
              ap (λ c. decode max (suc f) (between es q c out)) here
              ∙ codes-decode xs (suc f) es es₁ q (p ++ x ∷ []) h out nq
                  (λ n. absurd (omega (arith, ap length n, length-append p (x ∷ []))))
                  (ap (λ t. es ++ (q ++ t) ∷ []) (sym grown) ∙ link)
                  (find-spell es₁ (p ++ x ∷ []) h there) (omega (arith, room, sizes)) a
                  (omega (arith, fuel, sizes))
              ∙ ap (λ t. finished (out ++ t)) (append_assoc p (x ∷ []) xs)
        ]

    first-code :
        (x : ℕ) (cs out : List ℕ)
        → x < 256
        → next max (initial (code_bits (x ∷ cs) ++ pad) out)
          ≡ more (between [] (x ∷ []) cs (out ++ x ∷ []))
    unfolding next opening code_bits low_bits
    first-code x cs out b =
        let read : value (take 9 (low_bits 9 x ++ (code_bits cs ++ pad))) ≡ x =
          ap value (take-code x (code_bits cs ++ pad)) ∙ value-low_bits 9 x (omega (arith, b)) in
        ap
          (λ (t : Option (List ℕ)). elim t [
            | none ↦ final unspecified
            | some t ↦ more (between [] t cs (out ++ t))
          ])
          (ap (spell []) read ∙ spell-byte [] x b)

    -- What the codes of an input, and padding of less than eight bits, decode to.
    pub codes_lem :
        (x : ℕ) (xs : List ℕ) (f : ℕ) (out : List ℕ)
        → All (λ y. y < 256) (x ∷ xs)
        → length (codes [] x (x ∷ []) xs) ≤ 256
        → length (codes [] x (x ∷ []) xs) < f
        → decode max f (initial (code_bits (codes [] x (x ∷ []) xs) ++ pad) out)
          ≡ finished (out ++ (x ∷ xs))
    unfolding codes find_from
    codes_lem x xs zero out a room fuel = absurd (omega arith)
    codes_lem x [] (suc zero) out a room fuel = absurd (omega arith)
    codes_lem x [] (suc (suc f)) out (b, a) room fuel =
        decode-more (suc f) _ _ (first-code x [] out b)
        ∙ decode-final f _ (out ++ x ∷ []) (next-end [] (x ∷ []) (out ++ x ∷ []))
    codes_lem x (y ∷ xs) (suc f) out (b, (c, a)) room fuel =
        decode-more f _ _ (first-code x (codes ((x ∷ y ∷ []) ∷ []) y (y ∷ []) xs) out b)
        ∙ codes-decode xs f [] ((x ∷ y ∷ []) ∷ []) (x ∷ []) (y ∷ []) y (out ++ x ∷ [])
            (λ n. absurd (omega (arith, ap length n))) (λ n. absurd (omega (arith, ap length n)))
            refl (spell-byte ((x ∷ y ∷ []) ∷ []) y c) (omega (arith, room)) a (omega (arith, fuel))
        ∙ ap finished (append_assoc out (x ∷ []) (y ∷ xs))
