-- ===== src/Compress/Whole.antt =====
-- All of uncompress/compress.c, and what uncompress/uncompress.c makes of its file.
use fip.Base.{
  ℕ, ◌+◌, ◌*◌, ◌≤◌, ◌<◌, bit_or, ◌≡◌, refl, sym, ap, ◌∙◌, subst, Option, none, some, List, [], ◌∷◌,
  ◌++◌, append-nil, arith, length, All, length-append,
}
use fip.Uncompress.Reader.{bufz, Reader, IsReading, pending, pending_drained, uncons}
use fip.Uncompress.Writer.{written}
use fip.Uncompress.Bits.Laws.{IsByte, bits_of, low_bits, length-low_bits}
use fip.Uncompress.Decode.{Decoder, done, decompress}
use fip.Uncompress.Lzw.{finished, decode, initial, rounds}
use fip.Uncompress.Refine.Dictionary.{cleardict-Holds}
use fip.Uncompress.Refine.Link.{Meets}
use fip.Uncompress.Refine.Whole.{IsReady, decompress_lem}
use fip.Compress.Bits.{flushbits}
use fip.Compress.Bits.Laws.{flushbits_lem}
use fip.Compress.Codes.{codes}
use fip.Compress.Codes.Found.{code_bits, spell-byte}
use fip.Compress.Codes.Decodes.{codes_lem}
use fip.Compress.Encode.{
  Encoder, Coded, ended, outside, unfinished, encode_loop, with_header, compress, program,
}
use fip.Compress.Encode.Loop.{Codes, reads, encode_loop_lem}

-- What `main` hands to `compress`, behind `myalloc`.
pub record IsFresh (e : Encoder) : Type 0 where
  pub limit : e.table.mymaxbits ≡ 9
  pub ibuf : length e.input.ibuf ≡ bufz
  pub obuf : length e.sink.sink.obuf ≡ bufz
  pub num : e.sink.num ≡ 0
  pub bbuf : e.sink.bbuf ≡ 0

-- A decoder with this file to read.
abbrev pub fed : List ℕ → Decoder → Decoder
fed file d = record d {
  source = record (d.source) { input = record (d.source.input) { file = file } };
}

fed-IsReady : (max : ℕ) (file : List ℕ) (d : Decoder) → IsReady max d → IsReady max (fed file d)
fed-IsReady max file d v = record {
  limit = v.limit;
  ibuf = v.ibuf;
  obuf = v.obuf;
  no_bits = v.no_bits;
  byte = v.byte;
}

length-code_bits : (cs : List ℕ) → length (code_bits cs) ≡ 9 * length cs
unfolding code_bits
length-code_bits [] = omega arith
length-code_bits (c ∷ cs) =
    omega
      (arith, length-append (low_bits 9 c) (code_bits cs), length-low_bits 9 c, length-code_bits cs)

-- `myexit`
abbrev stopped : Coded → Coded
stopped c = elim c [
  | ended e ↦ ended (record e { sink = flushbits e.sink })
  | outside ↦ outside
  | unfinished ↦ unfinished
]

module _ (e : Encoder) (fresh : IsFresh e) (x : ℕ) (xs : List ℕ) (file : e.input.file ≡ x ∷ xs)
    (bytes : All IsByte (x ∷ xs)) where
  base : List ℕ
  base = e.sink.sink.file ++ 0x1f ∷ 0x9d ∷ 0x89 ∷ []

  -- Behind the first byte.
  started :
      (r : Reader)
      → IsReading r
      → pending r ≡ xs
      → Codes base [] [] (x ∷ []) (record (with_header e) { input = r; w = x })
  unfolding with_header base bits_of low_bits
  started r v rest = record {
    reading = v;
    bytes = subst (All IsByte) (sym rest) bytes.1;
    table = cleardict-Holds 9 (omega arith) (omega arith) e.table fresh.limit;
    short = λ i s none_there. cc;
    code = spell-byte [] x bytes.0;
    size = omega arith;
    sink = record {
      sink = record { whole = fresh.obuf; room = omega arith };
      few = omega (arith, fresh.num);
      small = rw (fresh.num, fresh.bbuf) (omega arith);
      body = [];
      out =
          append-nil _
          ∙ ap (λ (n : ℕ). e.sink.sink.file ++ 0x1f ∷ 0x9d ∷ bit_or n 0x80 ∷ []) fresh.limit
          ∙ sym (append-nil _);
      bytes = tt;
      stream = ap (λ n. low_bits n e.sink.bbuf) (sym fresh.num);
    };
  }

  begun : IsReading (with_header e).input
  unfolding with_header
  begun = record { whole = fresh.ibuf; filled = omega arith; within = λ ne. absurd (ne refl) }

  abbrev begins : Option ℕ × Reader → Encoder
  begins c = record (with_header e) { input = c.1; w = elim c.0 [ none ↦ 0xffff | some b ↦ b ] }

  -- The file, whose body is the codes and less than eight bits more.
  program_lem :
      (f : ℕ)
      → length (codes [] x (x ∷ []) xs) ≤ 256
      → length xs < f
      → (e' : Encoder) × (body pad : List ℕ) × (program f e ≡ ended e')
        × (e'.sink.sink.file ≡ base ++ body)
        × (bits_of body ≡ code_bits (codes [] x (x ∷ []) xs) ++ pad)
        × (length pad < 8)
        × All IsByte body
  unfolding program compress uncons
  program_lem f room fuel =
      let drained : pending (with_header e).input ≡ x ∷ xs =
        unfold with_header in pending_drained (with_header e).input refl ∙ file in
      let (r, eq, rest, v) = reads (with_header e).input (x ∷ xs) begun drained in
      let (e', ends, out) =
        encode_loop_lem xs f base [] [] (x ∷ []) (record (with_header e) { input = r; w = x })
          (started r v rest) rest (omega (arith, room)) fuel in
      let (body, pad, written, bits, few, a) =
        flushbits_lem base (code_bits (codes [] x (x ∷ []) xs)) e'.sink out in
      (
        record e' { sink = flushbits e'.sink },
        body,
        pad,
        ap (λ c. stopped (encode_loop f (begins c))) eq ∙ ap stopped ends,
        written,
        bits,
        few,
        a,
      )

  -- Let `compress` be handed codes of nine bits, as `myalloc` leaves it, buffers of their size,
  -- no bit left over, an empty output file, and an input of one or more bytes that the
  -- specification cuts into at most 256 strings. With as many rounds as the input has bytes,
  -- `compress` and the `flushbits` of `myexit` end, without a write in front of a buffer.
  -- `decompress` with memory for codes of 9 to 14 bits, buffers of their size and no bit left
  -- over then returns for that file, in some number of rounds, with exactly the input added to
  -- its output.
  pub compress-decompress :
      (f max : ℕ) (d : Decoder)
      → e.sink.sink.file ≡ []
      → length (codes [] x (x ∷ []) xs) ≤ 256
      → length xs < f
      → (9 ≤ max) × (max ≤ 14)
      → IsReady max d
      → (e' : Encoder) × (n : ℕ) × (d' : Decoder) × (program f e ≡ ended e')
        × (decompress n (fed e'.sink.sink.file d) ≡ done d')
        × (d'.sink.file ≡ d.sink.file ++ x ∷ xs)
  unfolding base
  compress-decompress f max d new room fuel (low, high) v =
      let (e', body, pad, ends, put, bits, few, a) = program_lem f room fuel in
      let d₁ = fed e'.sink.sink.file d in
      let cs = codes [] x (x ∷ []) xs in
      let n = rounds (bits_of body) in
      let whole : e'.sink.sink.file ≡ 0x1f ∷ 0x9d ∷ 0x89 ∷ body =
        put ∙ ap (λ l. (l ++ 0x1f ∷ 0x9d ∷ 0x89 ∷ []) ++ body) new in
      let sizes : length (bits_of body) ≡ 9 * length cs + length pad =
        omega (arith, ap length bits, length-append (code_bits cs) pad, length-code_bits cs) in
      let decoded : decode max n (initial (bits_of body) d.sink.file)
          ≡ finished (d.sink.file ++ x ∷ xs) =
        ap (λ b. decode max n (initial b d.sink.file)) bits
        ∙ codes_lem max low high pad few x xs n d.sink.file bytes room (omega (arith, sizes)) in
      let (d', returns, out, _) =
        subst (λ r. Meets r (decompress n d₁)) decoded
          (decompress_lem max d₁ (fed-IsReady max e'.sink.sink.file d v) 0x89 body whole (low, high)
            (omega (arith, low)) a).1 in
      (e', n, d', ends, returns, out)
