-- ===== src/Compress/Encode.antt =====
-- The loop of uncompress/compress.c: `compress`, and `myexit` behind it.
pub mod Loop
use fip.Base.{
  ℕ, zero, suc, ◌+◌, ◌-◌, ◌*◌, ◌/◌, ◌%◌, ◌^◌, ◌≤◌, ◌<◌, min, bit_and, bit_or, ◌≡◌, refl, sym, ap,
  ap₂, ◌∙◌, subst, ◌≢◌, ◌↔◌, ◌⊎◌, inl, inr, Bool, true, false, ◌&&◌, ◌||◌, not, Option, none, some,
  List, [], ◌∷◌, ◌++◌, append-nil, append_assoc, arith, ltb, leb, ◌==◌, if◌then◌else◌, Bool-cases,
  Option-cases, ltb→lt, lt→ltb, le→ltb, ==_iff, compare_cases, length, get_elem?, get_or, set, take,
  drop, replicate, All,
}
use fip.Uncompress.Reader.{Reader, inbyte}
use fip.Uncompress.Writer.{Writer}
use fip.Uncompress.Table.{Table, clear, cleardict}
use fip.Compress.Bits.{BitWriter, outsym, flushbits}
use fip.Compress.Dictionary.{adddict, Found, at, missing, overrun, exist}

-- The globals, and the local `w`.
pub record Encoder : Type 0 where
  pub input : Reader
  pub table : Table
  pub sink : BitWriter
  pub w : ℕ

-- `outside` is a write in front of a buffer; `unfinished` means that the model's fuel ran out.
pub data Coded : Type 0 where
  ended : Encoder → Coded
  outside unfinished : Coded

-- What follows a string that the dictionary does not have: CLEAR, where it is full, or the symbol
-- `w`, with the code width behind `adddict`.
unfoldable pub extended : ℕ → Bool × Table → Encoder → Encoder
extended ch (true, t) e = record e { sink = outsym t.bits clear e.sink; table = cleardict t }
extended ch (false, t) e = record e { sink = outsym t.bits e.w e.sink; table = t; w = ch }

-- The body of the loop
unfoldable pub accept : ℕ → Encoder → Option Encoder
accept ch e = elim (exist e.w ch e.table) [
  | at n ↦ some (record e { w = n })
  | missing ↦ some (extended ch (adddict e.w ch e.table) e)
  | overrun ↦ none
]

-- The loop, and the symbol behind it.
unfoldable pub encode_loop : ℕ → Encoder → Coded
encode_loop zero e = unfinished
encode_loop (suc f) e =
    let (ch, input) = inbyte e.input in
    let e' = record e { input = input } in
    elim ch [
      | none ↦ ended (record e' { sink = outsym e'.table.bits e'.w e'.sink })
      | some b ↦ elim (accept b e') [ none ↦ outside | some e'' ↦ encode_loop f e'' ]
    ]

-- The three bytes of the header are written straight to the file.
unfoldable pub with_header : Encoder → Encoder
with_header e = record e {
  input = record (e.input) { ipos = 0; isize = 0 };
  sink = record (e.sink) {
    sink = record (e.sink.sink) {
      file = e.sink.sink.file ++ 0x1f ∷ 0x9d ∷ bit_or e.table.mymaxbits 0x80 ∷ [];
      opos = 0;
    };
  };
  table = cleardict e.table;
}

-- The first byte is `w`; at the end of the file that is -1 on 16 bits.
unfoldable pub compress : ℕ → Encoder → Coded
compress fuel e₀ =
    let e = with_header e₀ in
    let (w, input) = inbyte e.input in
    encode_loop fuel (record e { input = input; w = elim w [ none ↦ 0xffff | some b ↦ b ] })

-- `compress` and `myexit`
unfoldable pub program : ℕ → Encoder → Coded
program fuel e = elim (compress fuel e) [
  | ended e' ↦ ended (record e' { sink = flushbits e'.sink })
  | outside ↦ outside
  | unfinished ↦ unfinished
]
