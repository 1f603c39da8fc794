-- ===== src/Bfc/Invariant/Loop.antt =====
-- The main loop within the bounds, to the end of the input.
use fip.Base.{
  ℕ, zero, suc, ◌-◌, ◌≤◌, ◌<◌, ◌≡◌, ◌≢◌, refl, sym, ◌∙◌, ap, Bool, true, false, Option, none, some,
  List, [], ◌∷◌, arith, leb, ◌==◌, if◌then◌else◌, length, All,
}
use fip.Bfc.Number.{number}
use fip.Bfc.State.{
  Compiler, Result, ok, quite, wild, unfinished, word_not_found, ◌>>=◌, push_number,
}
use fip.Bfc.Dictionary.{comp_entry, findentry}
use fip.Bfc.Strings.{word}
use fip.Bfc.Process.{
  Command, host_words, host_word, literal, comp_literal, compile_word, interpret, process_file,
  initial, initial,
}
use fip.Bfc.Invariant.{IsWithin, Ends, Ends-bind, Ends-if, printed, push_number-IsWithin, Result}
use fip.Bfc.Invariant.Dictionary.{comp_entry-IsWithin, doimm-IsWithin}
use fip.Bfc.Invariant.Control.{
  Keeps, then-Keeps, doif-Keeps, dothen-Keeps, dobegin-Keeps, doagain-Keeps, dountil-Keeps,
  dowhile-Keeps, dorepeat-Keeps, doelse-Keeps, dodofor-Keeps, donext-Keeps, dosemi-Keeps,
  dorbrack-Keeps,
}
use fip.Bfc.Invariant.Strings.{
  WordRead, word-WordRead, dostring-Keeps, docstring-Keeps, doasm-Keeps, doprim-Keeps,
  docolon-Keeps, dodovar-Keeps, doallot-Keeps, dolcom-Keeps,
}

abbrev IsTable : ℕ → List (List ℕ × Command) → Type 0
IsTable n = All (λ r. Keeps n (r.1))

host_words-IsTable : (n : ℕ) → IsTable n host_words
unfolding host_words
host_words-IsTable n = (
  doprim-Keeps n,
  (
    doasm-Keeps n,
    (
      docolon-Keeps n,
      (
        dosemi-Keeps n,
        (
          doif-Keeps n,
          (
            dothen-Keeps n,
            (
              dobegin-Keeps n,
              (
                doagain-Keeps n,
                (
                  dountil-Keeps n,
                  (
                    dowhile-Keeps n,
                    (
                      dorepeat-Keeps n,
                      (
                        doelse-Keeps n,
                        (
                          dostring-Keeps n,
                          (
                            docstring-Keeps n,
                            (
                              dodovar-Keeps n,
                              (
                                dorbrack-Keeps n,
                                (
                                  doallot-Keeps n,
                                  (
                                    dodofor-Keeps n,
                                    (donext-Keeps n, (doimm-IsWithin n, (dolcom-Keeps n, tt))),
                                  ),
                                ),
                              ),
                            ),
                          ),
                        ),
                      ),
                    ),
                  ),
                ),
              ),
            ),
          ),
        ),
      ),
    ),
  ),
)

-- What the table gives, if anything
abbrev GivesKeeping : ℕ → Option Command → Type 0
GivesKeeping n none = Unit
GivesKeeping n (some f) = Keeps n f

GivesKeeping-if :
    (n : ℕ) (b : Bool) (f : Command) (o : Option Command)
    → Keeps n f
    → GivesKeeping n o
    → GivesKeeping n (if b then some f else o)
GivesKeeping-if n true f o h k = h
GivesKeeping-if n false f o h k = k

host_word-GivesKeeping :
    (n : ℕ) (w : List ℕ) (table : List (List ℕ × Command))
    → IsTable n table
    → GivesKeeping n (host_word w table)
unfolding host_word
host_word-GivesKeeping n w [] h = tt
host_word-GivesKeeping n w ((x, f) ∷ table) (h, hs) =
    GivesKeeping-if n _ f _ h (host_word-GivesKeeping n w table hs)

comp_literal-Keeps : (n k : ℕ) → Keeps n (comp_literal k)
comp_literal-Keeps n k c h =
    then-Keeps n (comp_entry c.runtime.lit c) _ (comp_entry-IsWithin n c.runtime.lit c h)
      λ c₁ h₁. printed n c₁ _ c₁.labeli c₁.state h₁

literal-Keeps : (n : ℕ) → Keeps n literal
unfolding literal
literal-Keeps n c h = a_number (number c.wordb)
  where
    a_number :
        (o : Option ℕ)
        → Ends (IsWithin n) (elim o [
          | none ↦ quite word_not_found
          | some k ↦ if c.state == 0 then push_number k c else comp_literal k c
        ])
    a_number none = tt
    a_number (some k) =
        Ends-if (IsWithin n) (c.state == 0) _ _ (λ e. push_number-IsWithin n c h k)
          (λ e. comp_literal-Keeps n k c h)

compile_word-Keeps : (n : ℕ) (p : Option ℕ) → Keeps n (compile_word p)
unfolding compile_word
compile_word-Keeps n none c h = literal-Keeps n c h
compile_word-Keeps n (some i) c h = comp_entry-IsWithin n (some i) c h

interpret-Keeps : (n : ℕ) → Keeps n interpret
unfolding interpret findentry
interpret-Keeps n c h =
    found (host_word c.wordb host_words)
      (host_word-GivesKeeping n c.wordb host_words (host_words-IsTable n))
  where
    found :
        (o : Option Command)
        → GivesKeeping n o
        → Ends (IsWithin n) (elim o [ none ↦ do e ← findentry c; compile_word e c | some f ↦ f c ])
    found none k =
        Ends-bind (λ _. Unit) (IsWithin n) (findentry c) _
          (Ends-if (λ _. Unit) (leb c.labeli 256) _ _ (λ e. tt) (λ e. tt))
          λ e _. compile_word-Keeps n e c h
    found (some f) k = k c h

-- A turn of the loop, before others
turn-IsWithin :
    (f n : ℕ) (r : Bool × Compiler)
    → WordRead n r
    → n < suc f
    → ((m : ℕ) (c : Compiler) → IsWithin m c → m < f → Ends (IsWithin 0) (process_file f c))
    → Ends (IsWithin 0) (if r.0 then (interpret (r.1) >>= process_file f) else ok (r.1))
turn-IsWithin f n (true, c) (m, h) l again =
    Ends-bind (IsWithin (n - 1)) (IsWithin 0) (interpret c) (process_file f)
      (interpret-Keeps (n - 1) c h) λ c₁ h₁. again (n - 1) c₁ h₁ (omega arith)
turn-IsWithin f n (false, c) (h, e) l again =
    let none_left : length c.infile ≤ 0 = omega (arith, ap length e) in
    record {
      entries = h.entries;
      controls = h.controls;
      numbers = h.numbers;
      letters = h.letters;
      pointers = h.pointers;
      left = none_left;
    }

process_file-IsWithin :
    (f n : ℕ) (c : Compiler) → IsWithin n c → n < f → Ends (IsWithin 0) (process_file f c)
unfolding process_file
process_file-IsWithin zero n c h l = absurd (omega arith)
process_file-IsWithin (suc f) n c h l =
    Ends-bind (WordRead n) (IsWithin 0) (word c) _ (word-WordRead n c h)
      λ r w. turn-IsWithin f n r w l (λ m c₁ h₁ l₁. process_file-IsWithin f m c₁ h₁ l₁)

initial-IsWithin : (s : List ℕ) → IsWithin (length s) (initial s)
initial-IsWithin s = record {
  entries = omega arith;
  controls = omega arith;
  numbers = omega arith;
  letters = omega arith;
  pointers = record {
    lit_in = tt;
    zbra_in = tt;
    bra_in = tt;
    slit_in = tt;
    dodoes_in = tt;
    noop_in = tt;
    dofor_in = tt;
    push_in = tt;
  };
  left = omega arith;
}

abbrev IsUsedUp : Result Compiler → Type 0
IsUsedUp r = (r ≢ unfinished) × ((c : Compiler) → r ≡ ok c → c.infile ≡ [])

nothing_left : (s : List ℕ) → length s ≤ 0 → s ≡ []
nothing_left [] h = refl
nothing_left (x ∷ s) h = absurd (omega arith)

Ends-IsUsedUp : (r : Result Compiler) → Ends (IsWithin 0) r → IsUsedUp r
Ends-IsUsedUp unfinished e = absurd e
Ends-IsUsedUp wild e = (λ u. cc, λ c k. cc)
Ends-IsUsedUp (quite reason) e = (λ u. cc, λ c k. cc)
Ends-IsUsedUp (ok result) e = (
  λ u. cc,
  λ c k.
      let same : result ≡ c = cc in
      ap (λ c. c.infile) (sym same) ∙ nothing_left result.infile e.left,
)

-- For any file, and with more rounds than it has bytes, `process_file` from the start of the
-- program does not run out of rounds; and where it returns, it has read the whole file.
pub process_file_ends :
    (f : ℕ) (s : List ℕ)
    → length s < f
    → (process_file f (initial s) ≢ unfinished)
      × ((c : Compiler) → process_file f (initial s) ≡ ok c → c.infile ≡ [])
process_file_ends f s l =
    Ends-IsUsedUp (process_file f (initial s))
      (process_file-IsWithin f (length s) (initial s) (initial-IsWithin s) l)
