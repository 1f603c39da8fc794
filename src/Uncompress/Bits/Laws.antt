-- ===== src/Uncompress/Bits/Laws.antt =====
-- The bits behind the bit reader of uncompress/uncompress.c, and the numbers that they are digits of.
use fip.Base.{
  ℕ, zero, suc, ◌+◌, ◌-◌, ◌*◌, ◌/◌, ◌%◌, ◌^◌, ◌≤◌, ◌<◌, bit_or, ◌≡◌, refl, sym, ap, ap₂, ◌∙◌, subst,
  ◌≢◌, inl, inr, Bool, true, false, ◌||◌, Option, none, some, List, [], ◌∷◌, ◌++◌, arith, ltb, ◌==◌,
  Bool-cases, le→ltb, ==_iff, length, get_or, take, drop, All, bit_and-one, u16, bit_or_above,
  length-append,
}
use native.Mathlib.Nat.{two-pow-succ, pow-le-pow_right, add-zero, zero-add}
use native.Mathlib.Numerals.{add-one}
use fip.Uncompress.Reader.{Reader, inbyte, pending, IsReading, inbyte_lem, uncons}
use fip.Uncompress.Bits.{BitReader, next_bit, on_byte, getbit, gather, getsym}

-- The lowest `n` bits of a number, lowest first.
unfoldable pub low_bits : ℕ → ℕ → List ℕ
low_bits zero c = []
low_bits (suc n) c = (c % 2) ∷ low_bits n (c / 2)

low_bits-cons : (n c : ℕ) → n ≢ 0 → low_bits n c ≡ (c % 2) ∷ low_bits (n - 1) (c / 2)
unfolding low_bits
low_bits-cons zero c ne = absurd (ne refl)
low_bits-cons (suc n) c ne = ap (λ k. (c % 2) ∷ low_bits k (c / 2)) (omega arith)

unfoldable pub bits_of : List ℕ → List ℕ
unfolding low_bits
bits_of [] = []
bits_of (c ∷ cs) = low_bits 8 c ++ bits_of cs

-- The number with these binary digits, lowest first.
unfoldable pub value : List ℕ → ℕ
value [] = 0
value (b ∷ bs) = b + 2 * value bs

abbrev pub IsByte : ℕ → Type 0
IsByte c = c < 256

pub record IsBitReading (b : BitReader) : Type 0 where
  pub reading : IsReading b.input
  pub bytes : All IsByte (pending b.input)
  pub byte : b.cur < 256
  pub left : b.num ≤ 8

-- The bits that `getbit` has still to hand out.
unfoldable pub stream : BitReader → List ℕ
stream b = low_bits b.num b.cur ++ bits_of (pending b.input)

abbrev pub is_nil : List ℕ → Bool
is_nil [] = true
is_nil (x ∷ xs) = false

uncons-none : (xs ys : List ℕ) → uncons xs ≡ (none, ys) → (xs ≡ []) × (ys ≡ [])
unfolding uncons
uncons-none [] ys e = (refl, ground arith)
uncons-none (x ∷ xs) ys e = absurd (ground arith)

uncons-some : (xs ys : List ℕ) (c : ℕ) → uncons xs ≡ (some c, ys) → xs ≡ c ∷ ys
unfolding uncons
uncons-some [] ys c e = absurd (ground arith)
uncons-some (x ∷ xs) ys c e = ground arith

-- What one step of the bit reader leaves: the bit, the rest and the flag.
pub record Reads (b : BitReader) (x : ℕ) (b' : BitReader) : Type 0 where
  pub valid : IsBitReading b'
  pub small : x ≤ 1
  pub bit : x ≡ get_or (stream b) 0 0
  pub rest : stream b' ≡ drop 1 (stream b)
  pub ended : b'.eof ≡ (b.eof || is_nil (stream b))

or-false : (b : Bool) → b ≡ (b || false)
or-false b = ground arith

or-true : (b : Bool) → true ≡ (b || true)
or-true b = ground arith

-- A byte has bits left, and the next is its lowest.
next_bit_lem : (b : BitReader) → IsBitReading b → b.num ≢ 0 → Reads b (next_bit b).0 (next_bit b).1
unfolding next_bit stream
next_bit_lem b v ne = record {
  valid = record {
    reading = v.reading;
    bytes = v.bytes;
    byte = omega (arith, v.byte);
    left = omega (arith, v.left);
  };
  small = omega (arith, bit_and-one b.cur v.byte);
  bit = bit_and-one b.cur v.byte ∙ ap (λ s. get_or s 0 0) (sym opened);
  rest = ap (λ s. drop 1 s) (sym opened);
  ended = or-false b.eof ∙ ap (λ s. b.eof || is_nil s) (sym opened);
}
  where
    opened :
        low_bits b.num b.cur ++ bits_of (pending b.input)
        ≡ (b.cur % 2) ∷ (low_bits (b.num - 1) (b.cur / 2) ++ bits_of (pending b.input))
    opened = ap (λ s. s ++ bits_of (pending b.input)) (low_bits-cons b.num b.cur ne)

pub stream_dry : (b : BitReader) → b.num ≡ 0 → stream b ≡ bits_of (pending b.input)
unfolding stream low_bits
stream_dry b e = ap (λ n. low_bits n b.cur ++ bits_of (pending b.input)) e

module _ (b : BitReader) (dry : b.num ≡ 0) where
  -- The end of the file: no bit is left.
  on_byte-none :
      (r : Reader)
      → IsReading r
      → uncons (pending b.input) ≡ (none, pending r)
      → Reads b (on_byte b (none, r)).0 (on_byte b (none, r)).1
  unfolding on_byte uncons bits_of
  on_byte-none r v e = record {
    valid = record {
      reading = v;
      bytes = rw (no_more.1) tt;
      byte = omega arith;
      left = omega arith;
    };
    small = omega arith;
    bit = ap (λ s. get_or s 0 0) (sym over);
    rest = stream_dry _ dry ∙ ap bits_of no_more.1 ∙ ap (λ s. drop 1 s) (sym over);
    ended = or-true b.eof ∙ ap (λ s. b.eof || is_nil s) (sym over);
  }
    where
      no_more : (pending b.input ≡ []) × (pending r ≡ [])
      no_more = uncons-none (pending b.input) (pending r) e

      over : stream b ≡ []
      over = stream_dry b dry ∙ ap bits_of no_more.0

  -- The next byte of the file.
  on_byte-some :
      (c : ℕ) (r : Reader)
      → All IsByte (pending b.input)
      → IsReading r
      → uncons (pending b.input) ≡ (some c, pending r)
      → Reads b (on_byte b (some c, r)).0 (on_byte b (some c, r)).1
  unfolding on_byte
  on_byte-some c r bytes v e = record {
    valid = next.valid;
    small = next.small;
    bit = next.bit ∙ ap (λ s. get_or s 0 0) same;
    rest = next.rest ∙ ap (λ s. drop 1 s) same;
    ended = next.ended ∙ ap (λ s. b.eof || is_nil s) same;
  }
    where
      more : pending b.input ≡ c ∷ pending r
      more = uncons-some (pending b.input) (pending r) c e

      fresh : BitReader
      fresh = record b { input = r; cur = c; num = 8 }

      sound : IsByte c × All IsByte (pending r)
      sound = subst (All IsByte) more bytes

      next : Reads fresh (next_bit fresh).0 (next_bit fresh).1
      next =
          next_bit_lem fresh
            (record { reading = v; bytes = sound.1; byte = sound.0; left = omega arith })
            (omega arith)

      same : stream fresh ≡ stream b
      same = unfold stream bits_of in sym (stream_dry b dry ∙ ap bits_of more)

  on_byte_lem :
      (got : Option ℕ × Reader)
      → All IsByte (pending b.input)
      → (uncons (pending b.input) ≡ (got.0, pending got.1)) × IsReading got.1
      → Reads b (on_byte b got).0 (on_byte b got).1
  on_byte_lem (none, r) bytes (e, v) = on_byte-none r v e
  on_byte_lem (some c, r) bytes (e, v) = on_byte-some c r bytes v e

-- `getbit` hands out the bits of the file in order; at its end it returns 0 and sets `eof`.
pub getbit_lem : (b : BitReader) → IsBitReading b → Reads b (getbit b).0 (getbit b).1
unfolding getbit
getbit_lem b v = elim (Bool-cases (b.num == 0)) [
  | inl dry ↦
      rw dry
        (on_byte_lem b ((==_iff _ _).0 dry) (inbyte b.input) v.bytes (inbyte_lem b.input v.reading))
  | inr wet ↦ rw wet (next_bit_lem b v (ground (arith, wet)))
]

-- `getsym` gathers a symbol of `k` bits, and zeros in place of those that are missing.
pub record Gathers (b : BitReader) (k x acc : ℕ) (y : ℕ) (b' : BitReader) : Type 0 where
  pub valid : IsBitReading b'
  pub sum : y ≡ acc + value (take k (stream b)) * 2 ^ x
  pub rest : stream b' ≡ drop k (stream b)
  pub bound : y < 2 ^ (x + k)
  pub ended : b'.eof ≡ (b.eof || ltb (length (stream b)) k)

value-take :
    (k : ℕ) (s : List ℕ) → value (take (suc k) s) ≡ get_or s 0 0 + 2 * value (take k (drop 1 s))
unfolding value
value-take zero [] = refl
value-take (suc k) [] = refl
value-take k (x ∷ s) = refl

ended-step :
    (eof : Bool) (k : ℕ) (s : List ℕ)
    → ((eof || is_nil s) || ltb (length (drop 1 s)) k) ≡ (eof || ltb (length s) (suc k))
ended-step eof k [] = ground arith
ended-step eof k (x ∷ s) = ground arith

drop-drop_one : (k : ℕ) (s : List ℕ) → drop k (drop 1 s) ≡ drop (suc k) s
drop-drop_one zero [] = refl
drop-drop_one (suc k) [] = refl
drop-drop_one k (x ∷ s) = refl

pow-next : (x : ℕ) → 2 ^ (x + 1) ≡ 2 ^ x + 2 ^ x
pow-next x = ap (λ (k : ℕ). 2 ^ k) (add-one x) ∙ two-pow-succ x

-- One more bit on top of the accumulator.
gather-acc :
    (x acc v : ℕ)
    → x < 16
    → acc < 2 ^ x
    → v ≤ 1
    → (u16 (bit_or acc (v * 2 ^ x)) ≡ acc + v * 2 ^ x) × (acc + v * 2 ^ x < 2 ^ (x + 1))
gather-acc x acc v h l w = (ap u16 (bit_or_above x acc v l) ∙ omega (arith, fits, room), fits)
  where
    fits : acc + v * 2 ^ x < 2 ^ (x + 1)
    fits = rw pow-next (grind arith)

    room : 2 ^ (x + 1) ≤ 65536
    room = pow-le-pow_right {n = 2} (omega arith) {i = x + 1} {j = 16} (omega arith)

gather-sum :
    (b : BitReader) (x acc k v : ℕ)
    → v ≡ get_or (stream b) 0 0
    → acc + v * 2 ^ x + value (take k (drop 1 (stream b))) * 2 ^ (x + 1)
      ≡ acc + value (take (suc k) (stream b)) * 2 ^ x
gather-sum b x acc k v e = rw (value-take k (stream b), pow-next x, ← e) (omega arith)

onward : (x k : ℕ) → x + 1 + k ≡ x + suc k
onward x k = omega arith

gather-step :
    (k x acc acc' y : ℕ) (b : BitReader) {b₁ b₂ : BitReader} {v : ℕ}
    → Reads b v b₁
    → acc' ≡ acc + v * 2 ^ x
    → Gathers b₁ k (x + 1) acc' y b₂
    → Gathers b (suc k) x acc y b₂
gather-step k x acc acc' y b {v} first e last = record {
  valid = last.valid;
  sum =
      last.sum
      ∙ ap₂ (λ a s. a + value (take k s) * 2 ^ (x + 1)) e first.rest
      ∙ gather-sum b x acc k v first.bit;
  rest = last.rest ∙ ap (λ s. drop k s) first.rest ∙ drop-drop_one k (stream b);
  bound = subst (λ n. y < 2 ^ n) (onward x k) last.bound;
  ended =
      last.ended
      ∙ ap₂ (λ e s. e || ltb (length s) k) first.ended first.rest
      ∙ ended-step b.eof k (stream b);
}

gather_lem :
    (k x acc : ℕ) (b : BitReader)
    → IsBitReading b
    → x + k ≤ 16
    → acc < 2 ^ x
    → Gathers b k x acc (gather k x acc b).0 (gather k x acc b).1
unfolding gather
gather_lem zero x acc b v h l = record {
  valid = v;
  sum = unfold value in omega arith;
  rest = refl;
  bound = subst (λ n. acc < 2 ^ n) (sym (add-zero x)) l;
  ended = or-false b.eof ∙ ap (λ t. b.eof || t) (sym (le→ltb (length (stream b)) 0 (omega arith)));
}
gather_lem (suc k) x acc b v h l =
    let first = getbit_lem b v in
    let grown = gather-acc x acc (getbit b).0 (omega arith) l first.small in
    let acc' = u16 (bit_or acc ((getbit b).0 * 2 ^ x)) in
    gather-step k x acc acc' _ b first grown.0
      (gather_lem k (x + 1) acc' (getbit b).1 first.valid (omega arith) (rw (grown.0) (grown.1)))

-- From a valid reader, and for `bits` up to 16, `getsym` returns the number whose binary digits
-- are the next `bits` bits of the file, the lowest first, with zeros for those past its end. The
-- number is below `2 ^ bits`, exactly those bits are taken off the file, the reader is valid
-- again, and `eof` is set exactly if it was or one of the bits is past the end.
pub getsym_lem :
    (bits : ℕ) (b : BitReader)
    → IsBitReading b
    → bits ≤ 16
    → let (y, b') = getsym bits b in
      IsBitReading b'
      × (y ≡ value (take bits (stream b)))
      × (y < 2 ^ bits)
      × (stream b' ≡ drop bits (stream b))
      × (b'.eof ≡ (b.eof || ltb (length (stream b)) bits))
unfolding getsym
getsym_lem bits b v h =
    let g = gather_lem bits 0 0 b v (omega arith) (omega arith) in
    (
      g.valid,
      omega (arith, g.sum),
      subst (λ n. (getsym bits b).0 < 2 ^ n) (zero-add bits) g.bound,
      g.rest,
      g.ended,
    )

pub length-low_bits : (n c : ℕ) → length (low_bits n c) ≡ n
unfolding low_bits
length-low_bits zero c = refl
length-low_bits (suc n) c = ap suc (length-low_bits n (c / 2))

-- Where no bit is left, none is left in `c`.
pub stream_end : (b : BitReader) → stream b ≡ [] → b.num ≡ 0
unfolding stream
stream_end b e = omega (
  arith,
  ap length e,
  length-append (low_bits b.num b.cur) (bits_of (pending b.input)),
  length-low_bits b.num b.cur,
)

pub length-bits_of : (cs : List ℕ) → length (bits_of cs) ≡ 8 * length cs
unfolding bits_of
length-bits_of [] = refl
length-bits_of (c ∷ cs) =
    omega (arith, length-append (low_bits 8 c) (bits_of cs), length-low_bits 8 c, length-bits_of cs)
