-- ===== src/Bfc/Tests.antt =====
-- Runs of the model of bfc/bfc.c, and the theorems at concrete inputs.
use fip.Base.{
  ℕ, ◌+◌, ◌-◌, ◌^◌, ◌≡◌, refl, true, false, Option, none, some, List, [], ◌∷◌, arith, ◌==◌,
  if◌then◌else◌, length, drop, bytes, same_bytes, ◌≢◌,
}
use fip.Bfc.Output.{Line, output_text}
use fip.Bfc.Input.{isfblank}
use fip.Bfc.Number.{number}
use fip.Bfc.State.{
  Entry, Compiler, Result, ok, wild, quite, unfinished, eof_in_string, word_not_found,
}
use fip.Bfc.Dictionary.{find_loop, findentry}
use fip.Bfc.Dictionary.Laws.{IsNewest, findentry_lem}
use fip.Bfc.Process.{host_word, host_words, process_file, initial, compiled}
use fip.Bfc.Invariant.Loop.{process_file_ends}
use fip.Bfc.Structures.{
  Source, run, num, seq, if_else, begin_until, Primitives, IsWord, words, labels, depth,
}
use fip.Bfc.Structures.Steps.{spaced}
use fip.Bfc.Structures.Labels.{definitions, between}
use fip.Bfc.Structures.Meaning.{Effects, Steps, in_turn, pushes, first_arm, until_true}
use fip.Bfc.Structures.Whole.{
  IsAccepted, behind_source, process_file-code, process_file-definitions, process_file-runs,
}

abbrev text_of : Result (List Line) → List ℕ
text_of (ok xs) = output_text xs
text_of _ = []

abbrev two_words : List ℕ
two_words = bytes ": x ;\n: y x ;"

compiled_test :
    text_of (compiled two_words)
    ≡ bytes
        "L0\t\t; mkentry: x\n\t\trts\t; exit\nL1\t\t; mkentry: y\n\t\tjsr L0\t; comp: x\n\t\trts\t; exit\nLAB2:\t\t; do_dict: x\n\t\tdw $0\t; compile: #\n\t\tdw L0\n\t\tdb $0\n\t\tdw 1\n\t\t.ascii \"x\"\nLAB3:\t\t; do_dict: y\n\t\tdw LAB2\n\t\tdw L1\n\t\tdb $0\n\t\tdw 1\n\t\t.ascii \"y\"\ndp0 equ LAB3\ncp0 equ *\n"
unfolding compiled output_text same_bytes
compiled_test = refl

-- Errors: a word that nothing knows, a string without an end, a `then` without an `if`
not_found_test : compiled (bytes "nothing") ≡ quite word_not_found
unfolding compiled same_bytes
not_found_test = refl

open_string_test : compiled (bytes "$ \"abc") ≡ quite eof_in_string
unfolding compiled same_bytes
open_string_test = refl

lone_then_test : compiled (bytes "then") ≡ wild
unfolding compiled same_bytes
lone_then_test = refl

number_test : number (bytes "-0x10") ≡ some (2 ^ 32 - 16)
unfolding number
number_test = refl

-- A compiler in a definition, with the runtime in its dictionary
abbrev entry : List ℕ → ℕ → Entry
entry w n = record { name = w; flags = 0; ref = n }

abbrev runtime_words : List Entry
runtime_words =
    entry (bytes "lit") 0
    ∷ entry (bytes "0bra") 1
    ∷ entry (bytes "bra") 2
    ∷ entry (bytes "dofor") 3
    ∷ entry (bytes "push") 4
    ∷ entry (bytes "x") 5
    ∷ []

abbrev in_definition : Compiler
in_definition = record (initial []) {
  wordb = bytes "x";
  labeli = 6;
  dict = runtime_words;
  state = 1;
  runtime = record {
    lit = some 0;
    zbra = some 1;
    bra = some 2;
    slit = none;
    dodoes = none;
    noop = none;
    dofor = some 3;
    push = some 4;
  };
}

abbrev primitives : Primitives
primitives = record {
  lit = entry (bytes "lit") 0;
  zbra = entry (bytes "0bra") 1;
  bra = entry (bytes "bra") 2;
  dofor = entry (bytes "dofor") 3;
  push = entry (bytes "push") 4;
}

-- `7 if begin 1 until else x then`
abbrev source : Source
source =
    seq (num (bytes "7") 7)
      (if_else (begin_until (num (bytes "1") 1)) (run (bytes "x") (entry (bytes "x") 5)))

short-IsWord : (k : ℕ) → isfblank k ≡ false → IsWord (k ∷ [])
short-IsWord k h = record { not_empty = omega arith; fits = omega arith; solid = (h, tt) }

source-IsAccepted : IsAccepted source in_definition primitives
unfolding labels depth find_loop host_word host_words same_bytes number
source-IsAccepted = record {
  ready = record {
    has_lit = refl;
    has_zbra = refl;
    has_bra = refl;
    has_dofor = refl;
    has_push = refl;
  };
  compiling = refl;
  understood = (
    (short-IsWord 55 refl, refl, refl, refl),
    ((short-IsWord 49 refl, refl, refl, refl), (short-IsWord 120 refl, refl, 5, refl, refl)),
  );
  numbered = omega arith;
  few_labels = omega arith;
  shallow = omega arith;
}

process_file-code_example :
    process_file
      (length (words source []) + 9)
      (record in_definition { infile = spaced (words source []) (bytes ";") })
    ≡ process_file 9 (behind_source primitives source (bytes ";") in_definition)
process_file-code_example =
    process_file-code source in_definition primitives source-IsAccepted (bytes ";") 9

process_file-definitions_example :
    (c' : Compiler) × (process_file
        (length (words source []) + 9)
        (record in_definition { infile = spaced (words source []) (bytes ";") })
      ≡ process_file 9 c')
    × ((k : ℕ) → definitions k c'.outfile ≡ definitions k [] + between 6 (c'.labeli - 6) k)
process_file-definitions_example =
    process_file-definitions source in_definition primitives source-IsAccepted (bytes ";") 9

-- A runtime on a stack of numbers
abbrev on_stack : Effects (List ℕ)
on_stack = record {
  does = λ r s s'. s' ≡ r ∷ s;
  loads = λ r k s s'. s' ≡ k ∷ s;
  decides =
      λ r b s s'. if r == 2 then (s ≡ s') × (b ≡ true) else (k : ℕ) × (s ≡ k ∷ s') × ((k == 0) ≡ b);
}

process_file-runs_example :
    (c' : Compiler) × (process_file
        (length (words source []) + 9)
        (record in_definition { infile = spaced (words source []) (bytes ";") })
      ≡ process_file 9 c')
    × Steps on_stack c'.outfile (drop 0 c'.outfile) [] [] []
unfolding definitions
process_file-runs_example =
    process_file-runs source in_definition primitives source-IsAccepted (bytes ";") 9 on_stack [] []
      (λ t. (refl, refl)) (λ k l. refl)
      (in_turn (pushes refl) (first_arm (7, refl, refl) (until_true (pushes refl) (1, refl, refl))))

findentry_lem_example :
    (p : Option ℕ) × (findentry in_definition ≡ ok p) × IsNewest 6 (bytes "x") runtime_words p
findentry_lem_example = findentry_lem in_definition (omega arith) (omega arith) (omega arith)

process_file_ends_example :
    (process_file 14 (initial two_words) ≢ unfinished)
    × ((c : Compiler) → process_file 14 (initial two_words) ≡ ok c → c.infile ≡ [])
process_file_ends_example = process_file_ends 14 two_words (omega arith)
