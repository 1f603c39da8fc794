-- ===== src/Uncompress/Refine/Turn.antt =====
-- Which branch one turn of the decoding loop takes, and which one step of the specification.
use fip.Base.{ℕ, ◌≡◌, true, false, none, some, List, [], ◌++◌, arith, ltb, ◌==◌, length, take, drop}
use fip.Uncompress.Bits.{getsym}
use fip.Uncompress.Bits.Laws.{value}
use fip.Uncompress.Table.{clear, cleardict}
use fip.Uncompress.Decode.{Decoder, go, stop, done, abort, bad_stream, flushed, extend, turn}
use fip.Uncompress.Lzw.{
  Lzw, finished, corrupt, more, final, learn, string_of, symbols, width, follow,
}

-- Which branch each side takes.
module _ (max : ℕ) (p : List ℕ) (z : Lzw) where
  pub follow_short :
      ltb (length z.bits) (width max z.entries) ≡ true → follow max p z ≡ final (finished z.out)
  unfolding follow
  follow_short e = ground arith

  module _ (long : ltb (length z.bits) (width max z.entries) ≡ false) where
    pub follow_corrupt :
        ltb (symbols z.entries) (value (take (width max z.entries) z.bits)) ≡ true
        → follow max p z ≡ final (corrupt z.out)
    unfolding follow
    follow_corrupt e = ground arith

module _ (prev : ℕ) (d : Decoder) where
  pub turn_over : d.source.eof ≡ true → turn prev d ≡ stop (done (flushed d))
  unfolding turn
  turn_over e = ground arith

  module _ (open_still : d.source.eof ≡ false) where
    abbrev pub read : Decoder
    read = record d { source = (getsym d.table.bits d.source).1 }

    pub turn_end : read.source.eof ≡ true → turn prev d ≡ stop (done (flushed read))
    unfolding turn
    turn_end e = ground arith

    module _ (more_bits : read.source.eof ≡ false) where
      pub turn_corrupt :
          ltb d.table.nexti (getsym d.table.bits d.source).0 ≡ true
          → turn prev d ≡ stop (abort bad_stream (flushed read))
      unfolding turn
      turn_corrupt e = ground arith

      module _ (known : ltb d.table.nexti (getsym d.table.bits d.source).0 ≡ false) where
        pub turn-clear :
            ((getsym d.table.bits d.source).0 == clear) ≡ true
            → turn prev d ≡ go none (record read { table = cleardict d.table })
        unfolding turn
        turn-clear e = ground arith

        pub turn-extend :
            ((getsym d.table.bits d.source).0 == clear) ≡ false
            → turn prev d ≡ extend prev (getsym d.table.bits d.source).0 read
        unfolding turn
        turn-extend e = ground arith

module _ (max : ℕ) (p : List ℕ) (z : Lzw) where
  abbrev pub rest : List ℕ
  rest = drop (width max z.entries) z.bits

  abbrev pub code : ℕ
  code = value (take (width max z.entries) z.bits)

  abbrev pub learned : List ℕ → Lzw
  learned t = record {
    entries = learn (width max z.entries) p t z.entries;
    prev = some t;
    bits = rest;
    out = z.out ++ t;
  }

  module _ (long : ltb (length z.bits) (width max z.entries) ≡ false)
      (known : ltb (symbols z.entries) code ≡ false) where
    pub follow_clear :
        (code == 256) ≡ true
        → follow max p z ≡ more (record z { entries = []; prev = none; bits = rest })
    unfolding follow
    follow_clear e = ground arith

    pub follow_string :
        {t : List ℕ}
        → (code == 256) ≡ false
        → string_of z.entries p code ≡ some t
        → follow max p z ≡ more (learned t)
    unfolding follow
    follow_string e f = ground arith
