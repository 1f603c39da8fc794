-- ===== src/Uncompress/Refine/Whole.antt =====
-- All of `decompress`: the header, and the specification on what follows it.
use mathlib.Core.Bool.{false≢true}
use fip.Base.{
  if-true, if-false, ℕ, ◌≤◌, ◌<◌, bit_and, ◌≡◌, refl, sym, ap, ◌∙◌, subst, ◌≢◌, true, none, List,
  [], ◌∷◌, append-nil, arith, ltb, if◌then◌else◌, lt→ltb, le→ltb, length, take, drop, All,
}
use fip.Uncompress.Reader.{bufz, pending, pending_drained}
use fip.Uncompress.Writer.{outflush}
use fip.Uncompress.Bits.Laws.{IsByte, bits_of, stream_dry}
use fip.Uncompress.Table.{cleardict}
use fip.Uncompress.Decode.{
  Decoder, abort, bad_id, out_of_memory, flushed, reset, run, decompress, bad_header, behind_header,
}
use fip.Uncompress.Lzw.{out_of_fuel, decode, initial, rounds}
use fip.Uncompress.Lzw.Total.{decode-total}
use fip.Uncompress.Refine.Dictionary.{cleardict-Holds}
use fip.Uncompress.Refine.Link.{Linked, Meets}
use fip.Uncompress.Refine.Loop.{decode_lem}

-- What `main` hands to `decompress`: buffers of their size, and no bit left over in `num`, which
-- `decompress` does not reset.
pub record IsReady (max : ℕ) (d : Decoder) : Type 0 where
  pub limit : d.table.mymaxbits ≡ max
  pub ibuf : length d.source.input.ibuf ≡ bufz
  pub obuf : length d.sink.obuf ≡ bufz
  pub no_bits : d.source.num ≡ 0
  pub byte : IsByte d.source.cur

module _ (f : ℕ) (d : Decoder) where
  refused :
      bad_header (take 3 d.source.input.file) ≡ true
      → decompress f d ≡ abort bad_id (flushed (behind_header (reset d)))
  unfolding decompress reset
  refused e = rw (e, decompress) refl

  module _ (h : ℕ) (header : take 3 d.source.input.file ≡ 0x1f ∷ 0x9d ∷ h ∷ []) where
    -- The decoder behind a good header.
    begun : Decoder
    begun = record (behind_header (reset d)) { maxbits = bit_and h 0x1f }

    decompress_header : decompress f d ≡ (
        if ltb d.table.mymaxbits (bit_and h 0x1f)
        then abort out_of_memory (flushed begun)
        else run f none (record begun { table = cleardict d.table }))
    unfolding decompress reset behind_header begun bad_header
    decompress_header = rw (header, decompress) refl

module _ (max : ℕ) (d : Decoder) (v : IsReady max d) where
  module _ (h : ℕ) (body : List ℕ) (file : d.source.input.file ≡ 0x1f ∷ 0x9d ∷ h ∷ body) where
    header : take 3 d.source.input.file ≡ 0x1f ∷ 0x9d ∷ h ∷ []
    header = ap (λ l. take 3 l) file

    -- Of a file that begins by 1f 9d h, with `h & 0x1f` above the width `max` that the memory
    -- allows, `decompress` with buffers of their size and no bit left over says `out_of_memory`,
    -- and puts nothing out.
    pub decompress_out_of_memory :
        (f : ℕ)
        → max < bit_and h 0x1f
        → (d' : Decoder) × (decompress f d ≡ abort out_of_memory d') × (d'.sink.file ≡ d.sink.file)
    unfolding flushed outflush reset behind_header begun
    decompress_out_of_memory f l = (
      flushed (begun f d h header),
      decompress_header f d h header
          ∙ if-true _ _ (lt→ltb d.table.mymaxbits (bit_and h 0x1f) (omega (arith, v.limit))),
      append-nil _,
    )

    -- Behind the header.
    begun_at : Decoder
    begun_at = record (begun 0 d h header) { table = cleardict d.table }

    pending_begun : pending begun_at.source.input ≡ body
    unfolding begun_at begun behind_header reset
    pending_begun = pending_drained _ refl ∙ ap (λ l. drop 3 l) file

    start_Linked : All IsByte body → Linked begun_at (initial (bits_of body) d.sink.file)
    unfolding begun_at begun behind_header reset
    start_Linked bytes = record {
      valid = record {
        reading = record { whole = v.ibuf; filled = omega arith; within = λ ne. absurd (ne refl) };
        bytes = subst (All IsByte) (sym pending_begun) bytes;
        byte = v.byte;
        left = omega (arith, v.no_bits);
      };
      bits = stream_dry _ v.no_bits ∙ ap bits_of pending_begun;
      over = λ e. absurd (false≢true e);
      sink = record { whole = v.obuf; room = omega arith };
      out = append-nil _;
    }

    begins : (f : ℕ) → bit_and h 0x1f ≤ max → decompress f d ≡ run f none begun_at
    unfolding begun_at begun behind_header reset
    begins f fits =
        decompress_header f d h header
        ∙ if-false _ _ (le→ltb d.table.mymaxbits _ (omega (arith, v.limit)))

    -- Let `decompress` be handed buffers of their size, no bit left over in `num`, memory for
    -- codes of `max` bits, from 9 to 14, and the bytes 1f 9d h and then `body`, with `h & 0x1f`
    -- at most `max`. In a round for each bit of `body` and two more the specification ends, and
    -- `decompress` meets it: where the specification finishes, it returns, with exactly those
    -- bytes in the output file and no bit left over in `num`; where the stream is corrupt, it
    -- aborts with `bad_stream`, with the bytes up to there in the output file. A stream for which
    -- the specification gives no result (its first symbol, or the first after a clear, is no
    -- byte) is left open.
    pub decompress_lem :
        (9 ≤ max) × (max ≤ 14)
        → bit_and h 0x1f ≤ max
        → All IsByte body
        → let bits = bits_of body in
          (decode max (rounds bits) (initial bits d.sink.file) ≢ out_of_fuel)
          × Meets (decode max (rounds bits) (initial bits d.sink.file)) (decompress (rounds bits) d)
    decompress_lem (low, high) fits bytes =
        let f = rounds (bits_of body) in
        (
          decode-total max (bits_of body) d.sink.file,
          subst (Meets (decode max f (initial (bits_of body) d.sink.file))) (sym (begins f fits)) (
              decode_lem max low high f none begun_at _ (start_Linked bytes)
                (refl, unfold begun_at in cleardict-Holds max low high d.table v.limit)),
        )
