-- ===== src/Decb/Commands/Entry.antt =====
-- The bytes of a directory entry that `put` of decb/decb.c has filled, and what is read from them.
use fip.Base.{
  ℕ, zero, suc, ◌+◌, ◌≡◌, refl, sym, ap, ap₂, ◌∙◌, inl, inr, List, [], ◌∷◌, ◌++◌, arith, length,
  get_or, set, take, drop, replicate, ◌==◌, take-append-drop, take-append_le, drop-append_le,
  take_all, append_assoc, length-append, length-drop, length-set, get_or-take, Bool-cases,
}
use fip.Decb.Directory.{Dirent, of_bytes, to_bytes, stringconv, stringconv_from}
use fip.Decb.Commands.{Options, Stored, filled}

length-stringconv_from :
    (name : List ℕ) (d : ℕ) (b : List ℕ) → length (stringconv_from name d b) ≡ length b
unfolding stringconv_from
length-stringconv_from [] d b = refl
length-stringconv_from (c ∷ cs) d b = elim (Bool-cases (c == b'.')) [
  | inl dot ↦ rw dot (length-stringconv_from cs 8 b)
  | inr plain ↦ rw plain (length-stringconv_from cs (d + 1) (set b d c) ∙ length-set b d c)
]

pub length-stringconv : (name : List ℕ) → length (stringconv name) ≡ 11
unfolding stringconv
length-stringconv name = length-stringconv_from name 0 (replicate 11 0x20)

get_or-append_length :
    (xs ys : List ℕ) (i : ℕ) → get_or (xs ++ ys) (length xs + i) 0 ≡ get_or ys i 0
get_or-append_length [] ys i = let same : zero + i ≡ i = omega arith in ap (λ k. get_or ys k 0) same
get_or-append_length (x ∷ xs) ys i =
    let same : suc (length xs) + i ≡ suc (length xs + i) = omega arith in
    ap (λ k. get_or (x ∷ (xs ++ ys)) k 0) same ∙ get_or-append_length xs ys i

-- The bytes of an entry that `put` has filled
module _ (o : Options) (name : List ℕ) (st : Stored) (e : Dirent)
    (size : length e.unused ≡ 16) where
  abbrev pub entry : Dirent
  entry = filled o name st e

  abbrev pub rest : List ℕ
  rest = o.deftype ∷ o.defaflag ∷ st.first ∷ st.hi ∷ st.lo ∷ e.unused

  entry_bytes : to_bytes entry ≡ stringconv name ++ rest
  unfolding to_bytes filled
  entry_bytes =
      sym (append_assoc (take 8 (stringconv name)) (drop 8 (stringconv name)) rest)
      ∙ ap (λ b. b ++ rest) (take-append-drop 8 (stringconv name))

  pub length-entry : length (to_bytes entry) ≡ 32
  length-entry =
      ap length entry_bytes
      ∙ omega (arith, length-append (stringconv name) rest, length-stringconv name, size)

  at : (i : ℕ) → get_or (to_bytes entry) (11 + i) 0 ≡ get_or rest i 0
  at i =
      ap (λ b. get_or b (11 + i) 0) entry_bytes
      ∙ ap (λ k. get_or (stringconv name ++ rest) (k + i) 0) (sym (length-stringconv name))
      ∙ get_or-append_length (stringconv name) rest i

  pub read_first : (of_bytes (to_bytes entry)).first ≡ st.first
  unfolding of_bytes
  read_first = at 2

  pub read_hi : (of_bytes (to_bytes entry)).remainder_hi ≡ st.hi
  unfolding of_bytes
  read_hi = at 3

  pub read_lo : (of_bytes (to_bytes entry)).remainder_lo ≡ st.lo
  unfolding of_bytes
  read_lo = at 4

  pub read_name :
      (of_bytes (to_bytes entry)).name ++ (of_bytes (to_bytes entry)).ext ≡ stringconv name
  unfolding of_bytes
  read_name =
      let b = stringconv name in
      let eleven = length-stringconv name in
      ap₂ (λ x y. x ++ y)
        (ap (take 8) entry_bytes ∙ take-append_le 8 b rest (omega (arith, eleven)))
        (ap (λ c. take 3 (drop 8 c)) entry_bytes
          ∙ ap (take 3) (drop-append_le 8 b rest (omega (arith, eleven)))
          ∙ take-append_le 3 (drop 8 b) rest (omega (arith, eleven, length-drop 8 b))
          ∙ take_all 3 (drop 8 b) (omega (arith, eleven, length-drop 8 b)))
      ∙ take-append-drop 8 b

  pub read_start : get_or (of_bytes (to_bytes entry)).name 0 0 ≡ get_or (stringconv name) 0 0
  unfolding of_bytes
  read_start =
      get_or-take 8 0 (to_bytes entry) 0 (omega arith)
      ∙ ap (λ b. get_or b 0 0) entry_bytes
      ∙ sym (get_or-take 11 0 (stringconv name ++ rest) 0 (omega arith))
      ∙ ap (λ b. get_or b 0 0)
          (take-append_le 11 (stringconv name) rest (omega (arith, length-stringconv name)))
      ∙ get_or-take 11 0 (stringconv name) 0 (omega arith)
