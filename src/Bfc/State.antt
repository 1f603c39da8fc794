-- ===== src/Bfc/State.antt =====
-- The globals of bfc/bfc.c and the operations on its two stacks. The arrays have no bounds tests:
-- an access outside of one, or through a null pointer, is the outcome `wild`.
use fip.Base.{ℕ, ◌+◌, ◌%◌, ◌^◌, Option, List, [], ◌∷◌, ◌++◌, ltb, if◌then◌else◌, length}
use fip.Bfc.Output.{Line}

pub record Entry : Type 0 where
  pub name : List ℕ
  pub flags : ℕ
  pub ref : ℕ

-- The entries that the compiler itself compiles, as positions in the dictionary; `none` is NULL.
pub record Runtime : Type 0 where
  pub lit : Option ℕ
  pub zbra : Option ℕ
  pub bra : Option ℕ
  pub slit : Option ℕ
  pub dodoes : Option ℕ
  pub noop : Option ℕ
  pub dofor : Option ℕ
  pub push : Option ℕ

-- `dict` has the `dp` entries that are allocated. The stacks have their top in front.
pub record Compiler : Type 0 where
  pub infile : List ℕ
  pub outfile : List Line
  pub wordb : List ℕ
  pub labeli : ℕ
  pub dict : List Entry
  pub runtime : Runtime
  pub cstack : List ℕ
  pub nstack : List ℕ
  pub state : ℕ

pub data Reason : Type 0 where
  eof_before_delimiter eof_in_string word_not_found : Reason

-- `quite` exits. `unfinished` is a run that its fuel did not suffice for.
pub data Result {ℓ} (A : Type ℓ) : Type ℓ where
  ok : A → Result A
  quite : Reason → Result A
  wild unfinished : Result A

infixl 1 ◌>>=◌
abbrev pub ◌>>=◌ {ℓ κ} : {A : Type ℓ} {B : Type κ} → Result A → (A → Result B) → Result B
ok a >>= f = f a
quite r >>= f = quite r
wild >>= f = wild
unfinished >>= f = unfinished

-- `fprintf` and `fputs`
abbrev pub put_line : Line → Compiler → Compiler
put_line x c = record c { outfile = c.outfile ++ x ∷ [] }

-- `labeli++`
abbrev pub next_label : Compiler → Compiler
next_label c = record c { labeli = (c.labeli + 1) % 2 ^ 32 }

-- A stack of 16 numbers
abbrev pub push_on : ℕ → List ℕ → Result (List ℕ)
push_on i s = if ltb (length s) 16 then ok (i ∷ s) else wild

abbrev pub pull_from : List ℕ → Result (ℕ × List ℕ)
pull_from [] = wild
pull_from (i ∷ s) = ok (i, s)

unfoldable pub push_cntl : ℕ → Compiler → Result Compiler
push_cntl i c = do s ← push_on i c.cstack; ok (record c { cstack = s })

unfoldable pub pull_cntl : Compiler → Result (ℕ × Compiler)
pull_cntl c = do (i, s) ← pull_from c.cstack; ok (i, record c { cstack = s })

unfoldable pub push_number : ℕ → Compiler → Result Compiler
push_number i c = do s ← push_on i c.nstack; ok (record c { nstack = s })

unfoldable pub pull_number : Compiler → Result (ℕ × Compiler)
pull_number c = do (i, s) ← pull_from c.nstack; ok (i, record c { nstack = s })
