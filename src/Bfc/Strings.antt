-- ===== src/Bfc/Strings.antt =====
-- The words of bfc/bfc.c that read on from its input file: definitions, variables, strings, lines of
-- assembler and comments.
pub mod Laws
use fip.Base.{
  ℕ, zero, suc, ◌+◌, ◌^◌, Bool, true, false, none, some, List, [], ◌∷◌, ◌++◌, ltb, if◌then◌else◌,
  length, take, replicate, same_bytes, bytes,
}
use fip.Bfc.Output.{Line, address, decimal, byte, ascii, asciz, copied}
use fip.Bfc.Input.{skip_blanks, take_word, take_until, c_string, fgets, behind_comment}
use fip.Bfc.State.{
  Compiler, Result, ok, quite, wild, eof_before_delimiter, eof_in_string, ◌>>=◌, put_line,
  pull_number,
}
use fip.Bfc.Dictionary.{deref, comp_entry, mkentry}

-- Into the 64 bytes of `wordb`, with the zero behind the string.
abbrev pub into_wordb : List ℕ → List ℕ → Compiler → Result Compiler
into_wordb w rest c = if ltb (length w) 64 then ok (record c { wordb = w; infile = rest }) else wild

abbrev pub at_word : List ℕ → Compiler → Result (Bool × Compiler)
at_word [] c = ok (false, record c { infile = [] })
at_word (x ∷ s) c = do let (w, rest) = take_word (x ∷ s); c₁ ← into_wordb w rest c; ok (true, c₁)

-- `true` is the result 0, a word; at the end of the file `wordb` is as it was.
unfoldable pub word : Compiler → Result (Bool × Compiler)
unfolding skip_blanks take_word
word c = at_word (skip_blanks c.infile) c

abbrev pub at_string : List ℕ → Compiler → Result (ℕ × Compiler)
at_string [] c = quite eof_before_delimiter
at_string (d ∷ s) c = elim (take_until d s) [
  | none ↦ if ltb 64 (length s) then wild else quite eof_in_string
  | some (w, rest) ↦ do c₁ ← into_wordb w rest c; ok (d, c₁)
]

unfoldable pub wordb_str : Compiler → Result (ℕ × Compiler)
unfolding skip_blanks take_until
wordb_str c = at_string (skip_blanks c.infile) c

unfoldable pub dostring : Compiler → Result Compiler
unfolding wordb_str comp_entry c_string
dostring c = do
  (d, c₁) ← wordb_str c
  c₂ ← comp_entry c.runtime.slit c₁
  let s = c_string c₁.wordb
  ok (put_line (ascii d s) (put_line (decimal (length s)) c₂))

unfoldable pub docstring : Compiler → Result Compiler
unfolding wordb_str comp_entry c_string
docstring c = do
  (d, c₁) ← wordb_str c
  c₂ ← comp_entry c.runtime.slit c₁
  let s = c_string c₁.wordb
  ok (put_line (asciz d s) (put_line (decimal (length s + 1)) c₂))

-- The lines that are copied, and what is left; there is no more than one of them for each byte.
unfoldable pub asm_loop : ℕ → List ℕ → List Line × List ℕ
unfolding fgets c_string
asm_loop zero s = ([], s)
asm_loop (suc f) [] = ([], [])
asm_loop (suc f) (x ∷ s) =
    let (buff, rest) = fgets 255 (x ∷ s) in
    let (lines, left) = asm_loop f rest in
    if same_bytes (take 2 buff) (bytes ";p")
    then ([], rest)
    else (copied (c_string buff) ∷ lines, left)

unfoldable pub doasm : Compiler → Compiler
unfolding asm_loop
doasm c =
    let (lines, left) = asm_loop (length c.infile) c.infile in
    record c { infile = left; outfile = c.outfile ++ lines }

-- The result of `word` is not looked at here and below.
unfoldable pub doprim : Compiler → Result Compiler
unfolding word mkentry doasm
doprim c = do (_, c₁) ← word c; c₂ ← mkentry c₁; ok (doasm c₂)

unfoldable pub docolon : Compiler → Result Compiler
unfolding word mkentry
docolon c = do (_, c₁) ← word c; c₂ ← mkentry c₁; ok (record c₂ { state = 1 })

unfoldable pub dodovar : Compiler → Result Compiler
unfolding word mkentry comp_entry pull_number
dodovar c = do
  (_, c₁) ← word c
  c₂ ← mkentry c₁
  c₃ ← comp_entry c₂.runtime.dodoes c₂
  e ← deref c₃.dict c₃.runtime.noop
  (k, c₄) ← pull_number (put_line (address e.ref) c₃)
  ok (put_line (decimal k) c₄)

-- A count below zero is counted down until it overflows.
unfoldable pub doallot : Compiler → Result Compiler
unfolding pull_number
doallot c = do
  (k, c₁) ← pull_number c
  if ltb k (2 ^ 31) then ok (record c₁ { outfile = c₁.outfile ++ replicate k (byte 0) }) else wild

unfoldable pub dolcom : Compiler → Compiler
unfolding behind_comment
dolcom c = record c { infile = behind_comment c.infile }
