-- ===== src/Uncompress/Refine/Link.antt =====
-- The relation between a state of the decoder and a state of the specification.
use fip.Base.{
  ℕ, ◌≤◌, ◌<◌, ◌≡◌, refl, sym, ap, ◌∙◌, Bool, true, false, ◌||◌, Option, none, some, List, [], ◌++◌,
  arith, ltb, ltb→lt, length, take, drop, drop_all, ◌^◌,
}
use fip.Uncompress.Writer.{written, IsWriting, outflush_lem}
use fip.Uncompress.Bits.{getsym}
use fip.Uncompress.Bits.Laws.{IsBitReading, stream, value, getsym_lem, stream_end}
use fip.Uncompress.Table.{depth}
use fip.Uncompress.Table.Laws.{Spells, printsym_lem}
use fip.Uncompress.Decode.{
  Decoder, Step, go, stop, Outcome, done, abort, unfinished, bad_stream, flushed, emit,
}
use fip.Uncompress.Lzw.{Lzw, Result, finished, corrupt, unspecified, out_of_fuel, Next, more, final}
use fip.Uncompress.Refine.Dictionary.{Holds}

pub record Linked (d : Decoder) (z : Lzw) : Type 0 where
  pub valid : IsBitReading d.source
  pub bits : stream d.source ≡ z.bits
  pub over : d.source.eof ≡ true → z.bits ≡ []
  pub sink : IsWriting d.sink
  pub out : written d.sink ≡ z.out

-- The two places of the loop: the label `again`, and the test of the loop behind a symbol.
abbrev pub Place : ℕ → Option ℕ → Decoder → Lzw → Type 0
Place max none d z = (z.prev ≡ none) × Holds max d.table []
Place max (some p) d z =
    (s : List ℕ) × (z.prev ≡ some s)
    × Spells d.table p s
    × (p < d.table.nexti)
    × Holds max d.table z.entries

-- A run ends as the specification does: with the bytes that it wants in the output file, and, at the
-- end of the input, with no bit left over in the static `num`.
abbrev pub Meets : Result → Outcome → Type 0
Meets (finished out) o = (d : Decoder) × (o ≡ done d) × (d.sink.file ≡ out) × (d.source.num ≡ 0)
Meets (corrupt out) o = (d : Decoder) × (o ≡ abort bad_stream d) × (d.sink.file ≡ out)
Meets unspecified o = Unit
Meets out_of_fuel o = o ≡ unfinished

abbrev pub Agrees : ℕ → Next → Step → Type 0
Agrees max (more z) s =
    (at : Option ℕ) × (d : Decoder) × (s ≡ go at d) × Linked d z × Place max at d z
Agrees max (final unspecified) s = Unit
Agrees max (final r) s = (o : Outcome) × (s ≡ stop o) × Meets r o

over_drop :
    (eof : Bool) (k : ℕ) (s : List ℕ)
    → (eof ≡ true → s ≡ [])
    → (eof || ltb (length s) k) ≡ true
    → drop k s ≡ []
over_drop true k s h e = drop_all k s (omega (arith, ap length (h refl)))
over_drop false k s h e = drop_all k s (omega (arith, ltb→lt (length s) k e))

-- Reading a symbol on both sides.
pub read_lem :
    (k : ℕ) (d : Decoder) (z : Lzw)
    → Linked d z
    → k ≤ 16
    → let (c, b) = getsym k d.source in
      (c ≡ value (take k z.bits))
      × (c < 2 ^ k)
      × Linked (record d { source = b }) (record z { bits = drop k z.bits })
      × (b.eof ≡ (d.source.eof || ltb (length z.bits) k))
read_lem k d z l h =
    let (v, y, bound, rest, ended) = getsym_lem k d.source l.valid h in
    let at_end = ended ∙ ap (λ s. d.source.eof || ltb (length s) k) l.bits in
    (
      y ∙ ap (λ s. value (take k s)) l.bits,
      bound,
      record {
        valid = v;
        bits = rest ∙ ap (λ s. drop k s) l.bits;
        over = λ e. over_drop d.source.eof k z.bits l.over (sym at_end ∙ e);
        sink = l.sink;
        out = l.out;
      },
      at_end,
    )

-- `printsym` of a symbol that spells `t`.
pub emit_lem :
    (max c : ℕ) {t : List ℕ} (d : Decoder) (z z' : Lzw)
    → Linked d z
    → Spells d.table c t
    → (c < d.table.nexti) × (d.table.nexti ≤ depth)
    → (z'.bits ≡ z.bits) × (z'.out ≡ z.out ++ t) × (z'.prev ≡ some t)
    → Holds max d.table z'.entries
    → Agrees max (more z') (emit c d)
unfolding emit
emit_lem max c {t} d z z' l sp (below, small) (same_bits, grown, here) h =
    let (w, p, q, v) = printsym_lem depth d.table d.sink sp (omega arith) l.sink in
    (
      some c,
      record d { sink = w },
      rw (p, emit) refl,
      record {
        valid = l.valid;
        bits = l.bits ∙ sym same_bits;
        over = λ e. same_bits ∙ l.over e;
        sink = v;
        out = q ∙ ap (λ s. s ++ t) l.out ∙ sym grown;
      },
      (t, here, sp, below, h),
    )

-- The end of the stream.
pub flushed_done :
    (d : Decoder) (z : Lzw) → Linked d z → z.bits ≡ [] → Meets (finished z.out) (done (flushed d))
unfolding flushed
flushed_done d z l e =
    (flushed d, refl, (outflush_lem d.sink l.sink).0 ∙ l.out, stream_end d.source (l.bits ∙ e))

pub flushed_abort :
    (d : Decoder) (z : Lzw) → Linked d z → Meets (corrupt z.out) (abort bad_stream (flushed d))
unfolding flushed
flushed_abort d z l = (flushed d, refl, (outflush_lem d.sink l.sink).0 ∙ l.out)
