-- ===== src/Detoken.antt =====
-- decb/detoken.c: a tokenized BASIC program as text.
pub mod Words
pub mod Bytes
pub mod Text
pub mod Program
pub mod Tests
use fip.Base.{
  ℕ, zero, suc, ◌+◌, ◌*◌, ◌/◌, ◌%◌, bit_and, Bool, true, false, ◌&&◌, not, Option, none, some, List,
  [], ◌∷◌, ◌++◌, ◌==◌, if◌then◌else◌, length, get_elem?, get_or, take, drop, u16,
}
use fip.Detoken.Words.{tokens, second}

-- The file behind descriptor 0, what `read` has not returned yet, and `buf`, `pos` and `len`.
pub record Source : Type 0 where
  pub whole : List ℕ
  pub rest : List ℕ
  pub buf : List ℕ
  pub pos : ℕ
  pub len : ℕ

-- How a call ends: with a value, by `myerror(1)`, by the exit of `copy`, or by an access outside of
-- the arrays of words. What was printed before is left out where it does not matter; `endless` means
-- that the fuel ran out.
pub data Run (A : Type 0) : Type 0 where
  ok : A → Run A
  premature : Run A
  copied : List ℕ → Run A
  out_of_table endless : Run A

infixl 5 ◌>>=◌
abbrev pub ◌>>=◌ : {A B : Type 0} → Run A → (A → Run B) → Run B
ok a >>= k = k a
premature >>= k = premature
copied out >>= k = copied out
out_of_table >>= k = out_of_table
endless >>= k = endless

-- `pos = 0; len = read(0, buf, MAXBUF);`
unfoldable pub refill : Source → Source
refill i =
    let chunk = take 256 i.rest in
    record i {
      rest = drop 256 i.rest;
      buf = chunk ++ drop (length chunk) i.buf;
      pos = 0;
      len = length chunk;
    }

-- `return buf[pos++];`
unfoldable pub held : Source → Option ℕ × Source
held i = (some (get_or i.buf i.pos 0), record i { pos = i.pos + 1 })

unfoldable pub mygetc : Source → Option ℕ × Source
mygetc i =
    if i.pos == i.len
    then (let i' = refill i in if i'.len == 0 then (none, i') else held i')
    else held i

unfoldable pub mygetc_err : Source → Run (ℕ × Source)
mygetc_err i = let (c, i') = mygetc i in elim c [ none ↦ premature | some b ↦ ok (b, i') ]

unfoldable pub mygetw : Source → Run (ℕ × Source)
mygetw i = do (a, i₁) ← mygetc_err i; (b, i₂) ← mygetc_err i₁; ok (u16 (u16 (a * 256) + b), i₂)

unfoldable pub reset : Source → Source
reset i = record i { rest = i.whole; pos = 0; len = 0 }

-- The loop of `copy`, with the option -l in `unix`.
unfoldable pub copy_loop : ℕ → Bool → Source → List ℕ → Run (List ℕ)
copy_loop zero unix i out = endless
copy_loop (suc f) unix i out =
    let (c, i') = mygetc i in
    elim c [
      | none ↦ ok out
      | some b ↦ copy_loop f unix i' (out ++ (if unix && b == 13 then 10 else b) ∷ [])
    ]

-- `printf` of an unsigned number of 16 bits in decimal, which has at most five digits
unfoldable pub digits : ℕ → ℕ → List ℕ
digits zero n = []
digits (suc f) n =
    let rest = digits f (n / 10) in (if n / 10 == 0 then [] else rest) ++ (48 + n % 10) ∷ []

unfoldable pub word : List (List ℕ) → ℕ → Run (List ℕ)
word ws c = elim (get_elem? ws c) [ none ↦ out_of_table | some w ↦ ok w ]

-- The inner loop of `foo` for one line, with what it prints.
unfoldable pub line_loop : ℕ → Bool → Bool → Source → List ℕ → Run (Source × List ℕ)
line_loop zero unix flag i out = endless
line_loop (suc f) unix flag i out = do
  (c, i') ← mygetc_err i
  let after = λ (w : List ℕ). line_loop f unix false i' (out ++ w)
  let prefixed = line_loop f unix true i' out
  if flag
      then word second (bit_and c 0x7f) >>= after
      else if c == 0xff
      then prefixed
      else if not (bit_and c 0x80 == 0)
      then word tokens (bit_and c 0x7f) >>= after
      else if c == 0
      then ok (i', out ++ (if unix then 10 else 13) ∷ [])
      else after (c ∷ [])

-- The outer loop of `foo`, over the lines.
unfoldable pub lines_loop : ℕ → ℕ → Bool → Source → List ℕ → Run (Source × List ℕ)
lines_loop zero g unix i out = endless
lines_loop (suc f) g unix i out = do
  (link, i₁) ← mygetw i
  let line = mygetw i₁ >>= λ (ln, i₂).
      line_loop g unix false i₂ (out ++ (digits 5 ln ++ 32 ∷ [])) >>= λ (i₃, out').
      lines_loop f g unix i₃ out'
  if link == 0 then ok (i₁, out) else line

-- `copy`, which exits.
unfoldable pub copy : ℕ → Bool → Source → Run (Source × List ℕ)
copy f unix i = copy_loop f unix (reset i) [] >>= λ out. copied out

-- `foo`: it prints only if `pflag` is set.
unfoldable pub foo : ℕ → Bool → Bool → Source → Run (Source × List ℕ)
foo f unix pflag i = do
  (c, i₁) ← mygetc_err (reset i)
  let lines = mygetw i₁ >>= λ (len, i₂).
      lines_loop f f unix i₂ [] >>= λ (i₃, text). ok (i₃, if pflag then text else [])
  if c == 0xff then lines else copy f unix i₁

-- `foo(0); foo(1);` of `main`, on one file
unfoldable pub convert : ℕ → Bool → Source → Run (List ℕ)
convert f unix i = do
  (i₁, quiet) ← foo f unix false i
  (i₂, text) ← foo f unix true i₁
  ok (quiet ++ text)
