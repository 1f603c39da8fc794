-- ===== src/Detoken/Tests.antt =====
-- `detoken` on a program of one line.
use Prim.{tt}
use fip.Base.{ℕ, ◌≡◌, refl, true, List, [], ◌∷◌, ◌++◌, arith, replicate}
use fip.Detoken.{Source, ok, digits, foo}
use fip.Detoken.Bytes.{IsSource}
use fip.Detoken.Text.{character, keyword, function}
use fip.Detoken.Program.{Line, IsLine, program_bytes, program_text, foo_lem}

-- 10 PRINT SGN1
abbrev line : Line
line = record {
  link_hi = 0x26;
  link_lo = 0x0a;
  number_hi = 0;
  number_lo = 10;
  items = keyword 7 ∷ character 32 ∷ function 0 ∷ character b'1' ∷ [];
}

line-IsLine : IsLine line
line-IsLine = record {
  linked = omega arith;
  bytes = (omega arith, omega arith, omega arith, omega arith);
  items =
      (omega arith, ((omega arith, omega arith), (omega arith, ((omega arith, omega arith), tt))));
}

abbrev file : List ℕ
file = 0xff ∷ 0 ∷ 12 ∷ (program_bytes (line ∷ []) ++ [])

abbrev source : Source
source = record { whole = file; rest = file; buf = replicate 256 0; pos = 0; len = 0 }

source-IsSource : IsSource source
source-IsSource = record { within = omega arith; filled = omega arith; size = refl }

text-line :
    program_text true (line ∷ [])
    ≡ b'1' ∷ b'0' ∷ b' ' ∷ b'P' ∷ b'R' ∷ b'I' ∷ b'N' ∷ b'T' ∷ b' ' ∷ b'S' ∷ b'G' ∷ b'N' ∷ b'1' ∷ 10
      ∷ []
unfolding digits
text-line = refl

foo_example :
    (i' : Source) × (foo 12 true true source ≡ ok (i', program_text true (line ∷ []))) × IsSource i'
foo_example =
    foo_lem true 12 0 12 true source (line ∷ []) [] (omega arith, omega arith) (line-IsLine, tt)
      source-IsSource refl (omega arith)
