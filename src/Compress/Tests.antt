-- ===== src/Compress/Tests.antt =====
-- Runs of the model of uncompress/compress.c, and its theorems at concrete states.
use fip.Base.{same_bytes, ℕ, ◌≡◌, refl, false, List, [], ◌∷◌, arith, replicate}
use fip.Uncompress.Reader.{refill, next_byte, inbyte}
use fip.Uncompress.Writer.{outflush, outbyte}
use fip.Uncompress.Table.{cleardict}
use fip.Uncompress.Decode.{Decoder, done, decompress}
use fip.Uncompress.Refine.Whole.{IsReady}
use fip.Compress.Bits.{putbit, outsym, flushbits}
use fip.Compress.Dictionary.{adddict, buildstr, exist_from, exist}
use fip.Compress.Codes.{find_from, codes}
use fip.Compress.Encode.{
  Encoder, Coded, ended, outside, unfinished, extended, accept, encode_loop, with_header, compress,
  program,
}
use fip.Compress.Whole.{IsFresh, fed, compress-decompress}

abbrev encoder : List ℕ → Encoder
encoder file = record {
  input = record { file = file; ibuf = replicate 512 0; ipos = 0; isize = 0 };
  table = record { ref = λ i. 0; app = λ i. 0; nexti = 0; bits = 0; mymaxbits = 9 };
  sink = record {
    sink = record { file = []; obuf = replicate 512 0; opos = 0 };
    num = 0;
    bbuf = 0;
  };
  w = 0;
}

abbrev decoder : Decoder
decoder = record {
  source = record {
    input = record { file = []; ibuf = replicate 512 0; ipos = 0; isize = 0 };
    num = 0;
    cur = 0;
    eof = false;
  };
  table = record { ref = λ i. 0; app = λ i. 0; nexti = 257; bits = 9; mymaxbits = 12 };
  sink = record { file = []; obuf = replicate 512 0; opos = 0 };
  maxbits = 0;
}

abbrev put_out : Coded → List ℕ
put_out (ended e) = e.sink.sink.file
put_out outside = []
put_out unfinished = []

-- A, A and AA: the symbols 65 and 257 in nine bits each.
program-run :
    put_out (program 3 (encoder (65 ∷ 65 ∷ 65 ∷ []))) ≡ 0x1f ∷ 0x9d ∷ 0x89 ∷ 0x41 ∷ 0x02 ∷ 0x02 ∷ []
unfolding program compress with_header encode_loop accept extended exist exist_from buildstr adddict
    same_bytes putbit outsym flushbits outbyte outflush inbyte refill next_byte cleardict
program-run = refl

encoder-IsFresh : (file : List ℕ) → IsFresh (encoder file)
encoder-IsFresh file = record { limit = refl; ibuf = refl; obuf = refl; num = refl; bbuf = refl }

decoder-IsReady : IsReady 12 decoder
decoder-IsReady = record {
  limit = refl;
  ibuf = refl;
  obuf = refl;
  no_bits = refl;
  byte = omega arith;
}

compress-decompress_example :
    (e' : Encoder) × (n : ℕ) × (d' : Decoder) × (program 5 (encoder (65 ∷ 66 ∷ 65 ∷ 66 ∷ 65 ∷ []))
      ≡ ended e')
    × (decompress n (fed e'.sink.sink.file decoder) ≡ done d')
    × (d'.sink.file ≡ 65 ∷ 66 ∷ 65 ∷ 66 ∷ 65 ∷ [])
unfolding codes find_from same_bytes
compress-decompress_example =
    compress-decompress (encoder (65 ∷ 66 ∷ 65 ∷ 66 ∷ 65 ∷ []))
      (encoder-IsFresh (65 ∷ 66 ∷ 65 ∷ 66 ∷ 65 ∷ [])) 65 (66 ∷ 65 ∷ 66 ∷ 65 ∷ []) refl
      (ground arith) 5 12 decoder refl (omega arith) (omega arith) (omega arith, omega arith)
      decoder-IsReady
