-- ===== src/Uncompress/Tests.antt =====
-- `uncompress` on small inputs: runs of the model, and the theorems applied to them.
use Prim.{tt}
use fip.Base.{
  ℕ, ◌^◌, ◌<◌, ◌≡◌, refl, ◌≢◌, false, ◌||◌, some, List, [], ◌∷◌, arith, ltb, length, take, drop,
  replicate, All,
}
use fip.Uncompress.Reader.{inbyte, refill, next_byte, pending}
use fip.Uncompress.Writer.{Writer, outflush, outbyte, written, IsWriting}
use fip.Uncompress.Bits.{BitReader, getsym, getbit, gather, next_bit, on_byte}
use fip.Uncompress.Bits.Laws.{IsBitReading, value, stream, bits_of, low_bits, getsym_lem, IsByte}
use fip.Uncompress.Table.{Table, printsym, first, adddict, cleardict}
use fip.Uncompress.Table.Laws.{Spells, literal, extended, printsym_lem}
use fip.Uncompress.Decode.{
  run, step, start, turn, extend, emit, flushed, behind_header, bad_header, reset, endless,
  unfinished, Decoder, Outcome, done, abort, decompress,
}
use fip.Uncompress.Lzw.{
  next, opening, follow, width_from, spell, string_of, finished, width, learn, decode, initial,
  out_of_fuel,
}
use fip.Uncompress.Refine.Dictionary.{Holds, cleardict-Holds, adddict-Holds}
use fip.Uncompress.Refine.Whole.{IsReady, decompress_lem}

-- The symbols 65 and 257 in nine bits each: A, and the entry that is learnt from it.
abbrev body : List ℕ
body = 0x41 ∷ 0x02 ∷ 0x02 ∷ []

abbrev source_of : List ℕ → BitReader
source_of file = record {
  input = record { file = file; ibuf = replicate 512 0; ipos = 0; isize = 0 };
  num = 0;
  cur = 0;
  eof = false;
}

abbrev table : Table
table = record { ref = λ i. 0; app = λ i. 0; nexti = 257; bits = 9; mymaxbits = 12 }

abbrev sink : Writer
sink = record { file = []; obuf = replicate 512 0; opos = 0 }

abbrev decoder : List ℕ → Decoder
decoder file = record { source = source_of file; table = table; sink = sink; maxbits = 0 }

abbrev put_out : Outcome → List ℕ
put_out (done d) = d.sink.file
put_out (abort m d) = []
put_out endless = []
put_out unfinished = []

decompress-body : put_out (decompress 26 (decoder (0x1f ∷ 0x9d ∷ 0x8c ∷ body))) ≡ 65 ∷ 65 ∷ 65 ∷ []
unfolding decompress run step start turn extend emit flushed behind_header bad_header reset getsym
    gather getbit next_bit on_byte inbyte refill next_byte printsym first adddict cleardict outbyte
    outflush
decompress-body = refl

decode-body : decode 12 26 (initial (bits_of body) []) ≡ finished (65 ∷ 65 ∷ 65 ∷ [])
unfolding decode next opening follow width width_from spell learn string_of bits_of low_bits value
decode-body = refl

body-bytes : All IsByte body
body-bytes = (omega arith, (omega arith, (omega arith, tt)))

source-IsBitReading : IsBitReading (source_of body)
unfolding pending
source-IsBitReading = record {
  reading = record { whole = refl; filled = omega arith; within = λ ne. absurd (ne refl) };
  bytes = body-bytes;
  byte = omega arith;
  left = omega arith;
}

sink-IsWriting : IsWriting sink
sink-IsWriting = record { whole = refl; room = omega arith }

decoder-IsReady : (file : List ℕ) → IsReady 12 (decoder file)
decoder-IsReady file = record {
  limit = refl;
  ibuf = refl;
  obuf = refl;
  no_bits = refl;
  byte = omega arith;
}

-- The theorems at these inputs.
decompress_example :
    (decode 12 26 (initial (bits_of body) []) ≢ out_of_fuel)
    × ((d : Decoder) × (decompress 26 (decoder (0x1f ∷ 0x9d ∷ 0x8c ∷ body)) ≡ done d)
        × (d.sink.file ≡ 65 ∷ 65 ∷ 65 ∷ [])
        × (d.source.num ≡ 0))
unfolding decode next opening follow width width_from spell learn string_of bits_of low_bits value
decompress_example =
    decompress_lem 12 (decoder (0x1f ∷ 0x9d ∷ 0x8c ∷ body)) (decoder-IsReady _) 0x8c body refl
      (omega arith, omega arith) (omega arith) body-bytes

getsym_example :
    let (y, b') = getsym 9 (source_of body) in
    IsBitReading b'
    × (y ≡ value (take 9 (stream (source_of body))))
    × (y < 2 ^ 9)
    × (stream b' ≡ drop 9 (stream (source_of body)))
    × (b'.eof ≡ (false || ltb (length (stream (source_of body))) 9))
getsym_example = getsym_lem 9 (source_of body) source-IsBitReading (omega arith)

getsym-body : (getsym 9 (source_of body)).0 ≡ 65
unfolding getsym gather getbit next_bit on_byte inbyte refill next_byte
getsym-body = refl

-- The symbol 257 is AB.
abbrev learnt : Table
learnt = record table { ref = λ i. 65; app = λ i. 66; nexti = 258 }

learnt-Spells : Spells learnt 257 (65 ∷ 66 ∷ [])
learnt-Spells = extended (omega arith) (omega arith) (omega arith) (literal (omega arith) refl) refl

printsym_example :
    (w : Writer) × (printsym 258 learnt 257 sink ≡ some w)
    × (written w ≡ 65 ∷ 66 ∷ [])
    × IsWriting w
printsym_example = printsym_lem 258 learnt sink learnt-Spells (omega arith) sink-IsWriting

adddict-Holds_example : Holds 12 (adddict 65 66 table) (learn (width 12 []) (65 ∷ []) (66 ∷ []) [])
unfolding cleardict
adddict-Holds_example =
    adddict-Holds 12 (omega arith) (omega arith) {t = table} {es = []}
      (cleardict-Holds 12 (omega arith) (omega arith) table refl) 65 66 (omega arith)
      (literal (omega arith) refl) refl (omega arith)
