-- ===== src/Bfc/Structures.antt =====
-- Structured source for bfc/bfc.c: its words, the labels that it takes, the depth of the control
-- stack that it needs, and the code that stands for it.
pub mod Steps
pub mod Words
pub mod Branches
pub mod Loops
pub mod Counted
pub mod User
pub mod Compiles
pub mod Labels
pub mod Meaning
pub mod Jumps
pub mod Runs
pub mod Whole
use fip.Base.{
  ℕ, ◌+◌, ◌<◌, ◌≡◌, false, none, some, List, [], ◌∷◌, ◌++◌, ltb, if◌then◌else◌, length, get_elem?,
  All, bytes,
}
use fip.Bfc.Output.{Line, label, call, address, cell}
use fip.Bfc.State.{Entry, Runtime, ok}
use fip.Bfc.Dictionary.{spelled, deref, find_loop}
use fip.Bfc.Input.{isfblank}
use fip.Bfc.Number.{number}
use fip.Bfc.Process.{host_word, host_words}

-- A word with the entry or the number that it stands for, and the control structures.
pub data Source : Type 0 where
  nothing : Source
  run : List ℕ → Entry → Source
  num : List ℕ → ℕ → Source
  seq : Source → Source → Source
  if_then : Source → Source
  if_else : Source → Source → Source
  begin_again : Source → Source
  begin_until : Source → Source
  begin_while : Source → Source → Source
  for_next : Source → Source

-- The entries of the runtime that these structures call.
pub record Primitives : Type 0 where
  pub lit : Entry
  pub zbra : Entry
  pub bra : Entry
  pub dofor : Entry
  pub push : Entry

pub record IsReady (d : List Entry) (r : Runtime) (p : Primitives) : Type 0 where
  pub has_lit : deref d r.lit ≡ ok p.lit
  pub has_zbra : deref d r.zbra ≡ ok p.zbra
  pub has_bra : deref d r.bra ≡ ok p.bra
  pub has_dofor : deref d r.dofor ≡ ok p.dofor
  pub has_push : deref d r.push ≡ ok p.push

-- The words of the source, in front of others.
unfoldable pub words : Source → List (List ℕ) → List (List ℕ)
words nothing ws = ws
words (run w _) ws = w ∷ ws
words (num w _) ws = w ∷ ws
words (seq a b) ws = words a (words b ws)
words (if_then a) ws = bytes "if" ∷ words a (bytes "then" ∷ ws)
words (if_else a b) ws = bytes "if" ∷ words a (bytes "else" ∷ words b (bytes "then" ∷ ws))
words (begin_again a) ws = bytes "begin" ∷ words a (bytes "again" ∷ ws)
words (begin_until a) ws = bytes "begin" ∷ words a (bytes "until" ∷ ws)
words (begin_while a b) ws = bytes "begin" ∷ words a (bytes "while" ∷ words b (bytes "repeat" ∷ ws))
words (for_next a) ws = bytes "for" ∷ words a (bytes "next" ∷ ws)

unfoldable pub last_word : Source → List ℕ → List ℕ
last_word nothing w = w
last_word (run w _) _ = w
last_word (num w _) _ = w
last_word (seq a b) w = last_word b (last_word a w)
last_word (if_then a) _ = bytes "then"
last_word (if_else a b) _ = bytes "then"
last_word (begin_again a) _ = bytes "again"
last_word (begin_until a) _ = bytes "until"
last_word (begin_while a b) _ = bytes "repeat"
last_word (for_next a) _ = bytes "next"

unfoldable pub labels : Source → ℕ
labels nothing = 0
labels (run _ _) = 0
labels (num _ _) = 0
labels (seq a b) = labels a + labels b
labels (if_then a) = 1 + labels a
labels (if_else a b) = 1 + labels a + (1 + labels b)
labels (begin_again a) = 1 + labels a
labels (begin_until a) = 1 + labels a
labels (begin_while a b) = 1 + labels a + (1 + labels b)
labels (for_next a) = 2 + labels a

abbrev larger : ℕ → ℕ → ℕ
larger a b = if ltb a b then b else a

unfoldable pub depth : Source → ℕ
depth nothing = 0
depth (run _ _) = 0
depth (num _ _) = 0
depth (seq a b) = larger (depth a) (depth b)
depth (if_then a) = 1 + depth a
depth (if_else a b) = 1 + larger (depth a) (depth b)
depth (begin_again a) = 1 + depth a
depth (begin_until a) = 1 + depth a
depth (begin_while a b) = 2 + larger (depth a) (depth b)
depth (for_next a) = 2 + depth a

abbrev pub called : Entry → Line
called e = call e.ref (spelled e)

module _ (p : Primitives) where
  -- The code, whose labels are numbered from `n` on.
  unfoldable pub code : ℕ → Source → List Line
  unfolding labels
  code n nothing = []
  code n (run _ e) = called e ∷ []
  code n (num _ k) = called p.lit ∷ cell k ∷ []
  code n (seq a b) = code n a ++ code (n + labels a) b
  code n (if_then a) = called p.zbra ∷ address n ∷ (code (n + 1) a ++ label n ∷ [])
  code n (if_else a b) =
      let m = n + 1 + labels a in
      called p.zbra
      ∷ address n
      ∷ (code (n + 1) a ++ called p.bra ∷ address m ∷ label n ∷ (code (m + 1) b ++ label m ∷ []))
  code n (begin_again a) = label n ∷ (code (n + 1) a ++ called p.bra ∷ address n ∷ [])
  code n (begin_until a) = label n ∷ (code (n + 1) a ++ called p.zbra ∷ address n ∷ [])
  code n (begin_while a b) =
      let m = n + 1 + labels a in
      label n
      ∷ (code (n + 1) a
          ++ called p.zbra
            ∷ address m
            ∷ (code (m + 1) b ++ called p.bra ∷ address n ∷ label m ∷ []))
  code n (for_next a) =
      called p.push
      ∷ label n
      ∷ called p.dofor
      ∷ address (n + 1)
      ∷ (code (n + 2) a ++ called p.bra ∷ address n ∷ label (n + 1) ∷ [])

-- Text that is one word: no blanks, and it fits into `wordb`.
pub record IsWord (w : List ℕ) : Type 0 where
  pub not_empty : 0 < length w
  pub fits : length w < 64
  pub solid : All (λ c. isfblank c ≡ false) w

-- Each word of the source means what it says: no word of the compiler itself, but the newest entry
-- with that name, or a number that is no entry.
abbrev pub IsUnderstood : List Entry → Source → Type 0
IsUnderstood d nothing = Unit
IsUnderstood d (run w e) =
    IsWord w
    × (host_word w host_words ≡ none)
    × (i : ℕ) × (find_loop (length d) w d ≡ some i)
    × (get_elem? d i ≡ some e)
IsUnderstood d (num w k) =
    IsWord w
    × (host_word w host_words ≡ none)
    × (find_loop (length d) w d ≡ none)
    × (number w ≡ some k)
IsUnderstood d (seq a b) = IsUnderstood d a × IsUnderstood d b
IsUnderstood d (if_then a) = IsUnderstood d a
IsUnderstood d (if_else a b) = IsUnderstood d a × IsUnderstood d b
IsUnderstood d (begin_again a) = IsUnderstood d a
IsUnderstood d (begin_until a) = IsUnderstood d a
IsUnderstood d (begin_while a b) = IsUnderstood d a × IsUnderstood d b
IsUnderstood d (for_next a) = IsUnderstood d a
