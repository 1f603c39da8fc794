-- ===== src/Bfc/Output.antt =====
-- The lines that bfc/bfc.c prints to its output file, one constructor for each format of `fprintf`
-- and `fputs`, and their text. A number is the 32 bits of an `int`.
use fip.Base.{ℕ, zero, suc, ◌+◌, ◌-◌, ◌/◌, ◌%◌, ◌^◌, List, [], ◌∷◌, ◌++◌, ltb, if◌then◌else◌, bytes}

pub data Line : Type 0 where
  label : ℕ → Line
  entry_label : ℕ → List ℕ → Line
  call : ℕ → List ℕ → Line
  address : ℕ → Line
  cell : ℕ → Line
  byte : ℕ → Line
  decimal : ℕ → Line
  ascii asciz : ℕ → List ℕ → Line
  exit : Line
  copied : List ℕ → Line
  dict_label : ℕ → List ℕ → Line
  link : ℕ → Line
  flags_byte : ℕ → Line
  last_entry : ℕ → Line
  here : Line

-- The digits of a number of at most `n` places.
unfoldable pub digits : ℕ → ℕ → ℕ → List ℕ
digits base zero k = []
digits base (suc n) k =
    let front = digits base n (k / base) in
    let d = k % base in
    (if ltb k base then [] else front) ++ (if ltb d 10 then d + 48 else d + 87) ∷ []

-- `%x`
unfoldable pub hex : ℕ → List ℕ
unfolding digits
hex k = digits 16 8 k

-- `%d`
unfoldable pub signed : ℕ → List ℕ
unfolding digits
signed k = if ltb k (2 ^ 31) then digits 10 10 k else 45 ∷ digits 10 10 (2 ^ 32 - k)

abbrev pub tabs : List ℕ
tabs = 9 ∷ 9 ∷ []

abbrev pub newline : List ℕ
newline = 10 ∷ []

unfoldable pub shown : Line → List ℕ
unfolding hex signed
shown (label n) = bytes "L" ++ hex n ++ newline
shown (entry_label n s) = bytes "L" ++ hex n ++ tabs ++ bytes "; mkentry: " ++ s ++ newline
shown (call n s) = tabs ++ bytes "jsr L" ++ hex n ++ 9 ∷ bytes "; comp: " ++ s ++ newline
shown (address n) = tabs ++ bytes "dw L" ++ hex n ++ newline
shown (cell n) = tabs ++ bytes "dw $" ++ hex n ++ 9 ∷ bytes "; compile: #" ++ newline
shown (byte n) = tabs ++ bytes "db $" ++ hex n ++ 9 ∷ bytes "; compile: #" ++ newline
shown (decimal n) = tabs ++ bytes "dw " ++ signed n ++ newline
shown (ascii d s) = tabs ++ bytes ".ascii " ++ d ∷ s ++ d ∷ newline
shown (asciz d s) = tabs ++ bytes ".asciz " ++ d ∷ s ++ d ∷ newline
shown exit = tabs ++ bytes "rts" ++ 9 ∷ bytes "; exit" ++ newline
shown (copied s) = s
shown (dict_label n s) = bytes "LAB" ++ hex n ++ 58 ∷ tabs ++ bytes "; do_dict: " ++ s ++ newline
shown (link n) = tabs ++ bytes "dw LAB" ++ hex n ++ newline
shown (flags_byte n) = tabs ++ bytes "db $" ++ hex n ++ newline
shown (last_entry n) = bytes "dp0 equ LAB" ++ hex n ++ newline
shown here = bytes "cp0 equ *" ++ newline

unfoldable pub output_text : List Line → List ℕ
unfolding shown
output_text [] = []
output_text (x ∷ xs) = shown x ++ output_text xs
