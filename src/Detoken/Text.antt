-- ===== src/Detoken/Text.antt =====
-- A tokenized program and its text, and that decb/detoken.c turns the one into the other.
use fip.Base.{
  ℕ, zero, suc, ◌+◌, ◌<◌, bit_and, ◌≡◌, refl, inl, inr, Bool, true, false, List, [], ◌∷◌, ◌++◌,
  arith, ltb, leb, ◌==◌, if◌then◌else◌, Bool-cases, ==_iff, length, get_or, every_below,
  every_below_sound,
}
use fip.Detoken.Words.{tokens, second}
use fip.Detoken.{Source, ok, mygetc_err, word, line_loop}

-- What stands in a line: a character, a word of `tokens`, or one of `second`.
pub data Item : Type 0 where
  character keyword function : ℕ → Item

abbrev pub IsItem : Item → Type 0
IsItem (character c) = (0 < c) × (c < 128)
IsItem (keyword t) = t < 121
IsItem (function t) = t < 45

abbrev pub item_bytes : Item → List ℕ
item_bytes (character c) = c ∷ []
item_bytes (keyword t) = (128 + t) ∷ []
item_bytes (function t) = 0xff ∷ (128 + t) ∷ []

abbrev pub item_text : Item → List ℕ
item_text (character c) = c ∷ []
item_text (keyword t) = get_or tokens t []
item_text (function t) = get_or second t []

abbrev pub items_bytes : List Item → List ℕ
items_bytes [] = 0 ∷ []
items_bytes (x ∷ xs) = item_bytes x ++ items_bytes xs

abbrev pub items_text : Bool → List Item → List ℕ
items_text unix [] = (if unix then 10 else 13) ∷ []
items_text unix (x ∷ xs) = item_text x ++ items_text unix xs

word_lem : (ws : List (List ℕ)) (t : ℕ) → t < length ws → word ws t ≡ ok (get_or ws t [])
unfolding word
word_lem [] t l = elim l [ ]
word_lem (w ∷ ws) zero l = refl
word_lem (w ∷ ws) (suc t) l = word_lem ws t (omega arith)

low_bits_table : every_below 128 (λ t. bit_and (128 + t) 0x7f == t) ≡ true
unfolding every_below
low_bits_table = refl

high_bit_table : every_below 256 (λ c. if bit_and c 0x80 == 0 then ltb c 128 else leb 128 c) ≡ true
unfolding every_below
high_bit_table = refl

low_bits_lem : (t : ℕ) → t < 128 → bit_and (128 + t) 0x7f ≡ t
low_bits_lem t l =
    (==_iff _ _).0 (every_below_sound 128 (λ k. bit_and (128 + k) 0x7f == k) t low_bits_table l)

high_bit_clear : (c : ℕ) → c < 128 → (bit_and c 0x80 == 0) ≡ true
high_bit_clear c l = elim (Bool-cases (bit_and c 0x80 == 0)) [
  | inl e ↦ e
  | inr e ↦ ground (
    arith,
    e,
    every_below_sound 256 (λ k. if bit_and k 0x80 == 0 then ltb k 128 else leb 128 k) c
        high_bit_table (omega arith),
  )
]

high_bit_set : (c : ℕ) → 127 < c → c < 256 → (bit_and c 0x80 == 0) ≡ false
high_bit_set c h l = elim (Bool-cases (bit_and c 0x80 == 0)) [
  | inr e ↦ e
  | inl e ↦ ground (
    arith,
    e,
    every_below_sound 256 (λ k. if bit_and k 0x80 == 0 then ltb k 128 else leb 128 k) c
        high_bit_table l,
  )
]

-- One round of the inner loop, for each kind of byte.
module _ (f : ℕ) (unix : Bool) (i i' : Source) (out : List ℕ) where
  pub line_loop-character :
      (c : ℕ)
      → mygetc_err i ≡ ok (c, i')
      → (0 < c) × (c < 128)
      → line_loop (suc f) unix false i out ≡ line_loop f unix false i' (out ++ c ∷ [])
  unfolding line_loop
  line_loop-character c got (above, below) =
      let not_prefix : (c == 0xff) ≡ false = ground arith in
      let not_end : (c == 0) ≡ false = ground arith in
      rw (got, not_prefix, high_bit_clear c below, not_end, line_loop) refl

  pub line_loop-keyword :
      (t : ℕ)
      → mygetc_err i ≡ ok (128 + t, i')
      → t < 121
      → line_loop (suc f) unix false i out ≡ line_loop f unix false i' (out ++ get_or tokens t [])
  unfolding line_loop
  line_loop-keyword t got l =
      let not_prefix : (128 + t == 0xff) ≡ false = ground arith in
      rw
        (
          got,
          not_prefix,
          high_bit_set (128 + t) (omega arith) (omega arith),
          low_bits_lem t (omega arith),
          word_lem tokens t l,
          line_loop,
        )
        refl

  pub line_loop-prefix :
      mygetc_err i ≡ ok (0xff, i')
      → line_loop (suc f) unix false i out ≡ line_loop f unix true i' out
  unfolding line_loop
  line_loop-prefix got = rw (got, line_loop) refl

  pub line_loop-function :
      (t : ℕ)
      → mygetc_err i ≡ ok (128 + t, i')
      → t < 45
      → line_loop (suc f) unix true i out ≡ line_loop f unix false i' (out ++ get_or second t [])
  unfolding line_loop
  line_loop-function t got l =
      rw (got, low_bits_lem t (omega arith), word_lem second t l, line_loop) refl

  pub line_loop-end :
      mygetc_err i ≡ ok (0, i')
      → line_loop (suc f) unix false i out ≡ ok (i', out ++ (if unix then 10 else 13) ∷ [])
  unfolding line_loop
  line_loop-end got = rw (got, line_loop) refl
