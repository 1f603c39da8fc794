-- ===== src/Compress/Bits/Laws.antt =====
-- The bits that were put out, as a list.
use fip.Base.{
  ℕ, zero, suc, ◌+◌, ◌-◌, ◌*◌, ◌/◌, ◌%◌, ◌^◌, ◌≤◌, ◌<◌, bit_and, bit_or, ◌≡◌, refl, sym, ap, ap₂,
  ◌∙◌, subst, ◌≢◌, inl, inr, List, [], ◌∷◌, ◌++◌, append-nil, append_assoc, arith, ◌==◌,
  if◌then◌else◌, Bool-cases, ==_iff, length, All, u8, bit_and_low, if-true, bit_or_above, if-false,
}
use native.Mathlib.Nat.{pow-suc, pow-le-pow_right}
use native.Mathlib.Decide.{ℕ_discrete}
use fip.Uncompress.Writer.{IsWriting, written, outflush, outbyte, outbyte_lem}
use fip.Uncompress.Bits.Laws.{low_bits, bits_of, value, IsByte, length-low_bits}
use fip.Compress.Bits.{BitWriter, putbit, outsym, flushbits}

-- Behind `base`, the bytes put out and the bits still in `bbuf` are `bits`.
pub record Puts (base bits : List ℕ) (w : BitWriter) : Type 0 where
  pub sink : IsWriting w.sink
  pub few : w.num < 8
  pub small : w.bbuf < 2 ^ w.num
  pub body : List ℕ
  pub out : written w.sink ≡ base ++ body
  pub bytes : All IsByte body
  pub stream : bits ≡ bits_of body ++ low_bits w.num w.bbuf

pub bits_of-append : (xs ys : List ℕ) → bits_of (xs ++ ys) ≡ bits_of xs ++ bits_of ys
unfolding bits_of
bits_of-append [] ys = refl
bits_of-append (x ∷ xs) ys =
    ap (λ bs. low_bits 8 x ++ bs) (bits_of-append xs ys)
    ∙ sym (append_assoc (low_bits 8 x) (bits_of xs) (bits_of ys))

bits_of-snoc : (xs : List ℕ) (c : ℕ) → bits_of xs ++ low_bits 8 c ≡ bits_of (xs ++ c ∷ [])
unfolding low_bits bits_of
bits_of-snoc xs c =
    ap (λ b. bits_of xs ++ b) (sym (append-nil _)) ∙ sym (bits_of-append xs (c ∷ []))

All-snoc : (xs : List ℕ) (x : ℕ) → All IsByte xs → IsByte x → All IsByte (xs ++ x ∷ [])
All-snoc [] x a b = (b, tt)
All-snoc (y ∷ ys) x (c, a) b = (c, All-snoc ys x a b)

twice : (b n : ℕ) → b * 2 ^ suc n ≡ b * 2 ^ n * 2
twice b n = omega (arith, ap (λ (t : ℕ). b * t) (pow-suc 2 n))

pow-add_one : (n : ℕ) → 2 ^ (n + 1) ≡ 2 ^ n * 2
pow-add_one n = let up : n + 1 ≡ suc n = omega arith in ap (λ (k : ℕ). 2 ^ k) up ∙ pow-suc 2 n

-- One bit more, above the others.
low_bits-above :
    (n a b : ℕ) → a < 2 ^ n → b ≤ 1 → low_bits (n + 1) (a + b * 2 ^ n) ≡ low_bits n a ++ b ∷ []
unfolding low_bits
low_bits-above zero a b l lb = ap (λ x. x ∷ []) (omega arith)
low_bits-above (suc n) a b l lb =
    let up : suc n + 1 ≡ suc (n + 1) = omega arith in
    let low : (a + b * 2 ^ suc n) % 2 ≡ a % 2 = omega (arith, twice b n) in
    let high : (a + b * 2 ^ suc n) / 2 ≡ a / 2 + b * 2 ^ n = omega (arith, twice b n) in
    ap (λ k. low_bits k (a + b * 2 ^ suc n)) up
    ∙ ap₂ (λ x k. x ∷ low_bits (n + 1) k) low high
    ∙ ap (λ xs. (a % 2) ∷ xs) (low_bits-above n (a / 2) b (omega (arith, l, pow-suc 2 n)) lb)

-- The lower bits stand in front.
low_bits-front :
    (n k c : ℕ) → (r : List ℕ) × (low_bits (n + k) c ≡ low_bits n c ++ r) × (length r ≡ k)
unfolding low_bits
low_bits-front zero k c = (low_bits k c, ap (λ m. low_bits m c) (omega arith), length-low_bits k c)
low_bits-front (suc n) k c =
    let (r, e, l) = low_bits-front n k (c / 2) in
    let up : suc n + k ≡ suc (n + k) = omega arith in
    (r, ap (λ m. low_bits m c) up ∙ ap (λ xs. (c % 2) ∷ xs) e, l)

pub value-low_bits : (n c : ℕ) → c < 2 ^ n → value (low_bits n c) ≡ c
unfolding low_bits value
value-low_bits zero c l = omega arith
value-low_bits (suc n) c l = omega (arith, value-low_bits n (c / 2) (omega (arith, l, pow-suc 2 n)))

above-bound : (n a b : ℕ) → a < 2 ^ n → b ≤ 1 → a + b * 2 ^ n < 2 ^ (n + 1)
above-bound n a zero l lb = omega (arith, l, pow-add_one n)
above-bound n a (suc zero) l lb = omega (arith, l, pow-add_one n)
above-bound n a (suc (suc b)) l lb = absurd (omega arith)

module _ (base bits : List ℕ) (s : ℕ) (w : BitWriter) (p : Puts base bits w) where
  -- What `bbuf` comes to.
  collected : ℕ
  collected = w.bbuf + (s % 2) * 2 ^ w.num

  collected-small : collected < 2 ^ (w.num + 1)
  unfolding collected
  collected-small = above-bound w.num w.bbuf (s % 2) p.small (omega arith)

  collected-byte : collected < 256
  unfolding collected
  collected-byte =
      let top : 2 ^ (w.num + 1) ≤ 2 ^ 8 =
        pow-le-pow_right {n = 2} (omega arith) {i = w.num + 1} {j = 8} (omega (arith, p.few)) in
      omega (arith, top, collected-small)

  putbit_eq : putbit s w ≡ (
      if w.num + 1 == 8
      then record { sink = outbyte collected w.sink; num = 0; bbuf = 0 }
      else record w { bbuf = collected; num = w.num + 1 })
  unfolding putbit
  putbit_eq =
      let next : u8 (w.num + 1) ≡ w.num + 1 = omega (arith, p.few) in
      let sum : bit_or w.bbuf (bit_and s 1 * 2 ^ w.num) ≡ collected =
        unfold collected in
        ap (λ (b : ℕ). bit_or w.bbuf (b * 2 ^ w.num)) (bit_and_low s)
        ∙ bit_or_above w.num w.bbuf (s % 2) p.small in
      let stored : u8 (bit_or w.bbuf (bit_and s 1 * 2 ^ w.num)) ≡ collected =
        omega (arith, sum, collected-byte) in
      ap₂
        (λ n b.
          if n == 8
          then record { sink = outbyte b w.sink; num = 0; bbuf = 0 }
          else record w { bbuf = b; num = n })
        next stored

  low_bits-collected : low_bits (w.num + 1) collected ≡ low_bits w.num w.bbuf ++ (s % 2) ∷ []
  unfolding collected
  low_bits-collected = low_bits-above w.num w.bbuf (s % 2) p.small (omega arith)

  shifted : bits ++ (s % 2) ∷ [] ≡ bits_of p.body ++ low_bits (w.num + 1) collected
  shifted =
      ap (λ b. b ++ (s % 2) ∷ []) p.stream
      ∙ append_assoc (bits_of p.body) (low_bits w.num w.bbuf) ((s % 2) ∷ [])
      ∙ ap (λ b. bits_of p.body ++ b) (sym low_bits-collected)

  pub putbit_lem : Puts base (bits ++ (s % 2) ∷ []) (putbit s w)
  unfolding low_bits
  putbit_lem = elim (ℕ_discrete (w.num + 1) 8) [
    | yes full ↦
        let (out, valid) = outbyte_lem collected w.sink p.sink in
        let byte : u8 collected ≡ collected = omega (arith, collected-byte) in
        subst (Puts base (bits ++ (s % 2) ∷ []))
          (sym (putbit_eq ∙ if-true _ _ ((==_iff (w.num + 1) 8).1 full)))
          (record {
            sink = valid;
            few = omega arith;
            small = omega arith;
            body = p.body ++ collected ∷ [];
            out =
                out
                ∙ ap₂ (λ a b. a ++ b ∷ []) p.out byte
                ∙ append_assoc base p.body (collected ∷ []);
            bytes = All-snoc p.body collected p.bytes collected-byte;
            stream =
                shifted
                ∙ ap (λ n. bits_of p.body ++ low_bits n collected) full
                ∙ bits_of-snoc p.body collected
                ∙ sym (append-nil _);
          })
    | no more ↦
        subst (Puts base (bits ++ (s % 2) ∷ []))
          (sym (putbit_eq ∙ if-false {b = w.num + 1 == 8} _ _ (ground (arith, more))))
          (record {
            sink = p.sink;
            few = omega (arith, p.few, more);
            small = collected-small;
            body = p.body;
            out = p.out;
            bytes = p.bytes;
            stream = shifted;
          })
  ]

pub outsym_lem :
    (k s : ℕ) (base bits : List ℕ) (w : BitWriter)
    → Puts base bits w
    → Puts base (bits ++ low_bits k s) (outsym k s w)
unfolding outsym low_bits
outsym_lem zero s base bits w p = subst (λ b. Puts base b w) (sym (append-nil bits)) p
outsym_lem (suc k) s base bits w p =
    subst (λ b. Puts base b (outsym k (s / 2) (putbit s w)))
      (append_assoc bits ((s % 2) ∷ []) (low_bits k (s / 2)))
      (outsym_lem k (s / 2) base (bits ++ (s % 2) ∷ []) (putbit s w) (putbit_lem base bits s w p))

pub flushbits_lem :
    (base bits : List ℕ) (w : BitWriter)
    → Puts base bits w
    → (body pad : List ℕ) × ((flushbits w).sink.file ≡ base ++ body)
      × (bits_of body ≡ bits ++ pad)
      × (length pad < 8)
      × All IsByte body
unfolding flushbits outflush low_bits
flushbits_lem base bits w p = elim (Bool-cases (w.num == 0)) [
  | inl none_left ↦ rw none_left (
    p.body,
    [],
    p.out,
    sym (
        ap (λ b. b ++ []) p.stream
        ∙ append-nil _
        ∙ ap (λ n. bits_of p.body ++ low_bits n w.bbuf) ((==_iff w.num 0).0 none_left)
        ∙ append-nil _),
    omega arith,
    p.bytes,
  )
  | inr some_left ↦
      let (out, valid) = outbyte_lem w.bbuf w.sink p.sink in
      let (r, front, size) = low_bits-front w.num (8 - w.num) w.bbuf in
      let top : 2 ^ w.num ≤ 2 ^ 8 =
        pow-le-pow_right {n = 2} (omega arith) {i = w.num} {j = 8} (omega (arith, p.few)) in
      let byte : w.bbuf < 256 = omega (arith, top, p.small) in
      let same : u8 w.bbuf ≡ w.bbuf = omega (arith, byte) in
      let left : w.num ≢ 0 = ground (arith, some_left) in
      let width : w.num + (8 - w.num) ≡ 8 = omega (arith, p.few) in
      rw some_left (
        p.body ++ w.bbuf ∷ [],
        r,
        out ∙ ap₂ (λ a b. a ++ b ∷ []) p.out same ∙ append_assoc base p.body (w.bbuf ∷ []),
        sym (bits_of-snoc p.body w.bbuf)
            ∙ ap (λ b. bits_of p.body ++ b) (ap (λ n. low_bits n w.bbuf) (sym width) ∙ front)
            ∙ sym (append_assoc (bits_of p.body) (low_bits w.num w.bbuf) r)
            ∙ ap (λ b. b ++ r) (sym p.stream),
        omega (arith, size, left),
        All-snoc p.body w.bbuf p.bytes byte,
      )
]
