-- ===== src/Bfc/Input.antt =====
-- The reading of bfc/bfc.c from its input file, whose bytes are a list: the blanks of Forth, words,
-- delimited strings, lines of assembler and comments. `char` is signed, as on the hosts it is built on.
use fip.Base.{ℕ, zero, suc, Bool, ◌||◌, Option, none, some, List, [], ◌∷◌, leb, ◌==◌, if◌then◌else◌}

abbrev pub isfblank : ℕ → Bool
isfblank c = leb c 32 || leb 128 c

-- What is left behind leading blanks.
unfoldable pub skip_blanks : List ℕ → List ℕ
skip_blanks [] = []
skip_blanks (c ∷ s) = if isfblank c then skip_blanks s else c ∷ s

-- A word up to a blank, which is read too, or to the end of the file.
unfoldable pub take_word : List ℕ → List ℕ × List ℕ
take_word [] = ([], [])
take_word (c ∷ s) = let (w, rest) = take_word s in if isfblank c then ([], s) else (c ∷ w, rest)

-- A string up to its delimiter, if there is one.
unfoldable pub take_until : ℕ → List ℕ → Option (List ℕ × List ℕ)
take_until d [] = none
take_until d (c ∷ s) =
    let rest = take_until d s in
    if c == d then some ([], s) else elim rest [ none ↦ none | some (t, r) ↦ some (c ∷ t, r) ]

-- The part of a buffer that is a string in C.
unfoldable pub c_string : List ℕ → List ℕ
c_string [] = []
c_string (c ∷ s) = if c == 0 then [] else c ∷ c_string s

-- `fgets` for at most `n` bytes, of a file that is not at its end.
unfoldable pub fgets : ℕ → List ℕ → List ℕ × List ℕ
fgets zero s = ([], s)
fgets (suc n) [] = ([], [])
fgets (suc n) (c ∷ s) =
    let (line, rest) = fgets n s in if c == 10 then (c ∷ [], s) else (c ∷ line, rest)

-- What is left behind a comment: a newline ends it, and so does the byte 255, a `char` that is -1.
unfoldable pub behind_comment : List ℕ → List ℕ
behind_comment [] = []
behind_comment (c ∷ s) = if c == 10 || c == 255 then s else behind_comment s
