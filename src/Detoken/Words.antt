-- ===== src/Detoken/Words.antt =====
-- The words of decb/detoken.c: its arrays `tokens` and `second`, as lists of bytes.
use fip.Base.{ℕ, List, [], ◌∷◌}

abbrev pub tokens : List (List ℕ)
tokens =
    (b'F' ∷ b'O' ∷ b'R' ∷ [])
    ∷ (b'G' ∷ b'O' ∷ [])
    ∷ (b'R' ∷ b'E' ∷ b'M' ∷ [])
    ∷ (0x27 ∷ [])
    ∷ (b'E' ∷ b'L' ∷ b'S' ∷ b'E' ∷ [])
    ∷ (b'I' ∷ b'F' ∷ [])
    ∷ (b'D' ∷ b'A' ∷ b'T' ∷ b'A' ∷ [])
    ∷ (b'P' ∷ b'R' ∷ b'I' ∷ b'N' ∷ b'T' ∷ [])
    ∷ (b'O' ∷ b'N' ∷ [])
    ∷ (b'I' ∷ b'N' ∷ b'P' ∷ b'U' ∷ b'T' ∷ [])
    ∷ (b'E' ∷ b'N' ∷ b'D' ∷ [])
    ∷ (b'N' ∷ b'E' ∷ b'X' ∷ b'T' ∷ [])
    ∷ (b'D' ∷ b'I' ∷ b'M' ∷ [])
    ∷ (b'R' ∷ b'E' ∷ b'A' ∷ b'D' ∷ [])
    ∷ (b'R' ∷ b'U' ∷ b'N' ∷ [])
    ∷ (b'R' ∷ b'E' ∷ b'S' ∷ b'T' ∷ b'O' ∷ b'R' ∷ [])
    ∷ (b'R' ∷ b'E' ∷ b'T' ∷ b'U' ∷ b'R' ∷ b'N' ∷ [])
    ∷ (b'S' ∷ b'T' ∷ b'O' ∷ b'P' ∷ [])
    ∷ (b'P' ∷ b'O' ∷ b'K' ∷ b'E' ∷ [])
    ∷ (b'C' ∷ b'O' ∷ b'N' ∷ b'T' ∷ [])
    ∷ (b'L' ∷ b'I' ∷ b'S' ∷ b'T' ∷ [])
    ∷ (b'C' ∷ b'L' ∷ b'E' ∷ b'A' ∷ b'R' ∷ [])
    ∷ (b'N' ∷ b'E' ∷ b'W' ∷ [])
    ∷ (b'C' ∷ b'L' ∷ b'O' ∷ b'A' ∷ b'D' ∷ [])
    ∷ (b'C' ∷ b'S' ∷ b'A' ∷ b'V' ∷ b'E' ∷ [])
    ∷ (b'O' ∷ b'P' ∷ b'E' ∷ b'N' ∷ [])
    ∷ (b'C' ∷ b'L' ∷ b'O' ∷ b'S' ∷ b'E' ∷ [])
    ∷ (b'L' ∷ b'L' ∷ b'I' ∷ b'S' ∷ b'T' ∷ [])
    ∷ (b'S' ∷ b'E' ∷ b'T' ∷ [])
    ∷ (b'R' ∷ b'E' ∷ b'S' ∷ b'E' ∷ b'T' ∷ [])
    ∷ (b'C' ∷ b'L' ∷ b'S' ∷ [])
    ∷ (b'M' ∷ b'O' ∷ b'T' ∷ b'O' ∷ b'R' ∷ [])
    ∷ (b'S' ∷ b'O' ∷ b'U' ∷ b'N' ∷ b'D' ∷ [])
    ∷ (b'A' ∷ b'U' ∷ b'D' ∷ b'I' ∷ b'O' ∷ [])
    ∷ (b'E' ∷ b'X' ∷ b'E' ∷ b'C' ∷ [])
    ∷ (b'S' ∷ b'K' ∷ b'I' ∷ b'P' ∷ b'F' ∷ [])
    ∷ (b'T' ∷ b'A' ∷ b'B' ∷ b'(' ∷ [])
    ∷ (b'T' ∷ b'O' ∷ [])
    ∷ (b'S' ∷ b'U' ∷ b'B' ∷ [])
    ∷ (b'T' ∷ b'H' ∷ b'E' ∷ b'N' ∷ [])
    ∷ (b'N' ∷ b'O' ∷ b'T' ∷ [])
    ∷ (b'S' ∷ b'T' ∷ b'E' ∷ b'P' ∷ [])
    ∷ (b'O' ∷ b'F' ∷ b'F' ∷ [])
    ∷ (b'+' ∷ [])
    ∷ (b'-' ∷ [])
    ∷ (b'*' ∷ [])
    ∷ (b'/' ∷ [])
    ∷ (b'^' ∷ [])
    ∷ (b'A' ∷ b'N' ∷ b'D' ∷ [])
    ∷ (b'O' ∷ b'R' ∷ [])
    ∷ (b'>' ∷ [])
    ∷ (b'=' ∷ [])
    ∷ (b'<' ∷ [])
    ∷ (b'D' ∷ b'E' ∷ b'L' ∷ [])
    ∷ (b'E' ∷ b'D' ∷ b'I' ∷ b'T' ∷ [])
    ∷ (b'T' ∷ b'R' ∷ b'O' ∷ b'N' ∷ [])
    ∷ (b'T' ∷ b'R' ∷ b'O' ∷ b'F' ∷ [])
    ∷ (b'D' ∷ b'E' ∷ b'F' ∷ [])
    ∷ (b'L' ∷ b'E' ∷ b'T' ∷ [])
    ∷ (b'L' ∷ b'I' ∷ b'N' ∷ b'E' ∷ [])
    ∷ (b'P' ∷ b'C' ∷ b'L' ∷ b'S' ∷ [])
    ∷ (b'P' ∷ b'S' ∷ b'E' ∷ b'T' ∷ [])
    ∷ (b'P' ∷ b'R' ∷ b'E' ∷ b'S' ∷ b'E' ∷ b'T' ∷ [])
    ∷ (b'S' ∷ b'C' ∷ b'R' ∷ b'E' ∷ b'E' ∷ b'N' ∷ [])
    ∷ (b'P' ∷ b'C' ∷ b'L' ∷ b'E' ∷ b'A' ∷ b'R' ∷ [])
    ∷ (b'C' ∷ b'O' ∷ b'L' ∷ b'O' ∷ b'R' ∷ [])
    ∷ (b'C' ∷ b'I' ∷ b'R' ∷ b'C' ∷ b'L' ∷ b'E' ∷ [])
    ∷ (b'P' ∷ b'A' ∷ b'I' ∷ b'N' ∷ b'T' ∷ [])
    ∷ (b'G' ∷ b'E' ∷ b'T' ∷ [])
    ∷ (b'P' ∷ b'U' ∷ b'T' ∷ [])
    ∷ (b'D' ∷ b'R' ∷ b'A' ∷ b'W' ∷ [])
    ∷ (b'P' ∷ b'C' ∷ b'O' ∷ b'P' ∷ b'Y' ∷ [])
    ∷ (b'P' ∷ b'M' ∷ b'O' ∷ b'D' ∷ b'E' ∷ [])
    ∷ (b'P' ∷ b'L' ∷ b'A' ∷ b'Y' ∷ [])
    ∷ (b'D' ∷ b'L' ∷ b'O' ∷ b'A' ∷ b'D' ∷ [])
    ∷ (b'R' ∷ b'E' ∷ b'N' ∷ b'U' ∷ b'M' ∷ [])
    ∷ (b'F' ∷ b'N' ∷ [])
    ∷ (b'U' ∷ b'S' ∷ b'I' ∷ b'N' ∷ b'G' ∷ [])
    ∷ (b'D' ∷ b'I' ∷ b'R' ∷ [])
    ∷ (b'D' ∷ b'R' ∷ b'I' ∷ b'V' ∷ b'E' ∷ [])
    ∷ (b'F' ∷ b'I' ∷ b'E' ∷ b'L' ∷ b'D' ∷ [])
    ∷ (b'F' ∷ b'I' ∷ b'L' ∷ b'E' ∷ b'S' ∷ [])
    ∷ (b'K' ∷ b'I' ∷ b'L' ∷ b'L' ∷ [])
    ∷ (b'L' ∷ b'O' ∷ b'A' ∷ b'D' ∷ [])
    ∷ (b'L' ∷ b'S' ∷ b'E' ∷ b'T' ∷ [])
    ∷ (b'M' ∷ b'E' ∷ b'R' ∷ b'G' ∷ b'E' ∷ [])
    ∷ (b'R' ∷ b'E' ∷ b'N' ∷ b'A' ∷ b'M' ∷ b'E' ∷ [])
    ∷ (b'R' ∷ b'S' ∷ b'E' ∷ b'T' ∷ [])
    ∷ (b'S' ∷ b'A' ∷ b'V' ∷ b'E' ∷ [])
    ∷ (b'W' ∷ b'R' ∷ b'I' ∷ b'T' ∷ b'E' ∷ [])
    ∷ (b'V' ∷ b'E' ∷ b'R' ∷ b'I' ∷ b'F' ∷ b'Y' ∷ [])
    ∷ (b'U' ∷ b'N' ∷ b'L' ∷ b'O' ∷ b'A' ∷ b'D' ∷ [])
    ∷ (b'D' ∷ b'S' ∷ b'K' ∷ b'I' ∷ b'N' ∷ b'I' ∷ [])
    ∷ (b'B' ∷ b'A' ∷ b'C' ∷ b'K' ∷ b'U' ∷ b'P' ∷ [])
    ∷ (b'C' ∷ b'O' ∷ b'P' ∷ b'Y' ∷ [])
    ∷ (b'D' ∷ b'S' ∷ b'K' ∷ b'I' ∷ b'$' ∷ [])
    ∷ (b'D' ∷ b'S' ∷ b'K' ∷ b'O' ∷ b'$' ∷ [])
    ∷ (b'D' ∷ b'O' ∷ b'S' ∷ [])
    ∷ (b'W' ∷ b'I' ∷ b'D' ∷ b'T' ∷ b'H' ∷ [])
    ∷ (b'P' ∷ b'A' ∷ b'L' ∷ b'E' ∷ b'T' ∷ b'T' ∷ b'E' ∷ [])
    ∷ (b'H' ∷ b'S' ∷ b'C' ∷ b'R' ∷ b'E' ∷ b'E' ∷ b'N' ∷ [])
    ∷ (b'L' ∷ b'P' ∷ b'O' ∷ b'K' ∷ b'E' ∷ [])
    ∷ (b'H' ∷ b'C' ∷ b'L' ∷ b'S' ∷ [])
    ∷ (b'H' ∷ b'C' ∷ b'O' ∷ b'L' ∷ b'O' ∷ b'R' ∷ [])
    ∷ (b'H' ∷ b'P' ∷ b'A' ∷ b'I' ∷ b'N' ∷ b'T' ∷ [])
    ∷ (b'H' ∷ b'C' ∷ b'I' ∷ b'R' ∷ b'C' ∷ b'L' ∷ b'E' ∷ [])
    ∷ (b'H' ∷ b'L' ∷ b'I' ∷ b'N' ∷ b'E' ∷ [])
    ∷ (b'H' ∷ b'G' ∷ b'E' ∷ b'T' ∷ [])
    ∷ (b'H' ∷ b'P' ∷ b'U' ∷ b'T' ∷ [])
    ∷ (b'H' ∷ b'B' ∷ b'U' ∷ b'F' ∷ b'F' ∷ [])
    ∷ (b'H' ∷ b'P' ∷ b'R' ∷ b'I' ∷ b'N' ∷ b'T' ∷ [])
    ∷ (b'E' ∷ b'R' ∷ b'R' ∷ [])
    ∷ (b'B' ∷ b'R' ∷ b'K' ∷ [])
    ∷ (b'L' ∷ b'O' ∷ b'C' ∷ b'A' ∷ b'T' ∷ b'E' ∷ [])
    ∷ (b'H' ∷ b'S' ∷ b'T' ∷ b'A' ∷ b'T' ∷ [])
    ∷ (b'H' ∷ b'S' ∷ b'E' ∷ b'T' ∷ [])
    ∷ (b'H' ∷ b'R' ∷ b'E' ∷ b'S' ∷ b'E' ∷ b'T' ∷ [])
    ∷ (b'H' ∷ b'D' ∷ b'R' ∷ b'A' ∷ b'W' ∷ [])
    ∷ (b'C' ∷ b'M' ∷ b'P' ∷ [])
    ∷ (b'R' ∷ b'G' ∷ b'B' ∷ [])
    ∷ (b'A' ∷ b'T' ∷ b'T' ∷ b'R' ∷ [])
    ∷ []

abbrev pub second : List (List ℕ)
second =
    (b'S' ∷ b'G' ∷ b'N' ∷ [])
    ∷ (b'I' ∷ b'N' ∷ b'T' ∷ [])
    ∷ (b'A' ∷ b'B' ∷ b'S' ∷ [])
    ∷ (b'U' ∷ b'S' ∷ b'R' ∷ [])
    ∷ (b'R' ∷ b'N' ∷ b'D' ∷ [])
    ∷ (b'S' ∷ b'I' ∷ b'N' ∷ [])
    ∷ (b'P' ∷ b'E' ∷ b'E' ∷ b'K' ∷ [])
    ∷ (b'L' ∷ b'E' ∷ b'N' ∷ [])
    ∷ (b'S' ∷ b'T' ∷ b'R' ∷ b'$' ∷ [])
    ∷ (b'V' ∷ b'A' ∷ b'L' ∷ [])
    ∷ (b'A' ∷ b'S' ∷ b'C' ∷ [])
    ∷ (b'C' ∷ b'H' ∷ b'R' ∷ b'$' ∷ [])
    ∷ (b'E' ∷ b'O' ∷ b'F' ∷ [])
    ∷ (b'J' ∷ b'O' ∷ b'Y' ∷ b'S' ∷ b'T' ∷ b'K' ∷ [])
    ∷ (b'L' ∷ b'E' ∷ b'F' ∷ b'T' ∷ b'$' ∷ [])
    ∷ (b'R' ∷ b'I' ∷ b'G' ∷ b'H' ∷ b'T' ∷ b'$' ∷ [])
    ∷ (b'M' ∷ b'I' ∷ b'D' ∷ b'$' ∷ [])
    ∷ (b'P' ∷ b'O' ∷ b'I' ∷ b'N' ∷ b'T' ∷ [])
    ∷ (b'I' ∷ b'N' ∷ b'K' ∷ b'E' ∷ b'Y' ∷ b'$' ∷ [])
    ∷ (b'M' ∷ b'E' ∷ b'M' ∷ [])
    ∷ (b'A' ∷ b'T' ∷ b'N' ∷ [])
    ∷ (b'C' ∷ b'O' ∷ b'S' ∷ [])
    ∷ (b'T' ∷ b'A' ∷ b'N' ∷ [])
    ∷ (b'E' ∷ b'X' ∷ b'P' ∷ [])
    ∷ (b'F' ∷ b'I' ∷ b'X' ∷ [])
    ∷ (b'L' ∷ b'O' ∷ b'G' ∷ [])
    ∷ (b'P' ∷ b'O' ∷ b'S' ∷ [])
    ∷ (b'S' ∷ b'Q' ∷ b'R' ∷ [])
    ∷ (b'H' ∷ b'E' ∷ b'X' ∷ b'$' ∷ [])
    ∷ (b'V' ∷ b'A' ∷ b'R' ∷ b'P' ∷ b'T' ∷ b'R' ∷ [])
    ∷ (b'I' ∷ b'N' ∷ b'S' ∷ b'T' ∷ b'R' ∷ [])
    ∷ (b'T' ∷ b'I' ∷ b'M' ∷ b'E' ∷ b'R' ∷ [])
    ∷ (b'P' ∷ b'P' ∷ b'O' ∷ b'I' ∷ b'N' ∷ b'T' ∷ [])
    ∷ (b'S' ∷ b'T' ∷ b'R' ∷ b'I' ∷ b'N' ∷ b'G' ∷ b'$' ∷ [])
    ∷ (b'C' ∷ b'V' ∷ b'N' ∷ [])
    ∷ (b'F' ∷ b'R' ∷ b'E' ∷ b'E' ∷ [])
    ∷ (b'L' ∷ b'O' ∷ b'C' ∷ [])
    ∷ (b'L' ∷ b'O' ∷ b'F' ∷ [])
    ∷ (b'M' ∷ b'K' ∷ b'N' ∷ b'$' ∷ [])
    ∷ (b'A' ∷ b'S' ∷ [])
    ∷ (b'L' ∷ b'P' ∷ b'E' ∷ b'E' ∷ b'K' ∷ [])
    ∷ (b'B' ∷ b'U' ∷ b'T' ∷ b'T' ∷ b'O' ∷ b'N' ∷ [])
    ∷ (b'H' ∷ b'P' ∷ b'O' ∷ b'I' ∷ b'N' ∷ b'T' ∷ [])
    ∷ (b'E' ∷ b'R' ∷ b'R' ∷ b'N' ∷ b'O' ∷ [])
    ∷ (b'E' ∷ b'R' ∷ b'L' ∷ b'I' ∷ b'N' ∷ [])
    ∷ []
