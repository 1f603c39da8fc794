-- ===== src/Bfc/Process.antt =====
-- The main loop of bfc/bfc.c: the words that the compiler runs, the words that it compiles, and
-- numbers.
use fip.Base.{
  ℕ, zero, suc, ◌+◌, Option, none, some, List, [], ◌∷◌, ◌==◌, if◌then◌else◌, length, same_bytes,
  bytes,
}
use fip.Bfc.Output.{Line, cell, here}
use fip.Bfc.Number.{number}
use fip.Bfc.State.{
  Compiler, Result, ok, quite, unfinished, word_not_found, ◌>>=◌, put_line, push_number,
}
use fip.Bfc.Dictionary.{findentry, comp_entry, doimm, do_dict}
use fip.Bfc.Control.{
  doif, dothen, dobegin, doagain, dountil, dowhile, dorepeat, doelse, dodofor, donext, dosemi,
  dorbrack,
}
use fip.Bfc.Strings.{word, dostring, docstring, doasm, doprim, docolon, dodovar, doallot, dolcom}

abbrev pub Command : Type 0
Command = Compiler → Result Compiler

-- The tests of `process_file`, in their order.
unfoldable pub host_words : List (List ℕ × Command)
unfolding doprim doasm docolon dosemi doif dothen dobegin doagain dountil dowhile dorepeat doelse
    dostring docstring dodovar dorbrack doallot dodofor donext doimm dolcom
host_words =
    (bytes "p:", doprim)
    ∷ (bytes "a:", λ c. ok (doasm c))
    ∷ (bytes ":", docolon)
    ∷ (bytes ";", dosemi)
    ∷ (bytes "if", doif)
    ∷ (bytes "then", dothen)
    ∷ (bytes "begin", dobegin)
    ∷ (bytes "again", doagain)
    ∷ (bytes "until", dountil)
    ∷ (bytes "while", dowhile)
    ∷ (bytes "repeat", dorepeat)
    ∷ (bytes "else", doelse)
    ∷ (bytes "$", dostring)
    ∷ (bytes "c$", docstring)
    ∷ (bytes "var", dodovar)
    ∷ (bytes "]", dorbrack)
    ∷ (bytes "allot", doallot)
    ∷ (bytes "for", dodofor)
    ∷ (bytes "next", donext)
    ∷ (bytes "imm", doimm)
    ∷ (bytes "#", λ c. ok (dolcom c))
    ∷ []

unfoldable pub host_word : List ℕ → List (List ℕ × Command) → Option Command
host_word w [] = none
host_word w ((n, f) ∷ table) =
    let rest = host_word w table in if same_bytes n w then some f else rest

abbrev pub comp_literal : ℕ → Compiler → Result Compiler
comp_literal k c = do c₁ ← comp_entry c.runtime.lit c; ok (put_line (cell k) c₁)

-- A word that no entry has
unfoldable pub literal : Compiler → Result Compiler
unfolding number comp_entry push_number
literal c = elim (number c.wordb) [
  | none ↦ quite word_not_found
  | some k ↦ if c.state == 0 then push_number k c else comp_literal k c
]

unfoldable pub compile_word : Option ℕ → Compiler → Result Compiler
unfolding literal comp_entry
compile_word none c = literal c
compile_word (some i) c = comp_entry (some i) c

-- A round of the loop, with the word in `wordb`
unfoldable pub interpret : Compiler → Result Compiler
unfolding host_word host_words findentry compile_word
interpret c = elim (host_word c.wordb host_words) [
  | some f ↦ f c
  | none ↦ do e ← findentry c; compile_word e c
]

unfoldable pub process_file : ℕ → Compiler → Result Compiler
unfolding word interpret
process_file zero c = unfinished
process_file (suc f) c = do
  (found, c₁) ← word c
  if found then (interpret c₁ >>= process_file f) else ok c₁

abbrev pub initial : List ℕ → Compiler
initial s = record {
  infile = s;
  outfile = [];
  wordb = [];
  labeli = 0;
  dict = [];
  runtime = record {
    lit = none;
    zbra = none;
    bra = none;
    slit = none;
    dodoes = none;
    noop = none;
    dofor = none;
    push = none;
  };
  cstack = [];
  nstack = [];
  state = 0;
}

-- `main` on a file, up to the output
unfoldable pub compiled : List ℕ → Result (List Line)
unfolding process_file do_dict
compiled s = do c ← process_file (length s + 1) (initial s); ok (put_line here (do_dict c)).outfile
