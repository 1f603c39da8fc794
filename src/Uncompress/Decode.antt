-- ===== src/Uncompress/Decode.antt =====
-- The decoding loop of uncompress/uncompress.c: `decompress`, one turn of its loop as a step.
use fip.Base.{
  ltb, length, get_or, take, drop, not, ◌||◌, bit_and, ℕ, zero, suc, sym, false, Option, none, some,
  ◌==◌, if◌then◌else◌, List, Bool,
}
use fip.Uncompress.Writer.{Writer, outflush}
use fip.Uncompress.Bits.{BitReader, getsym}
use fip.Uncompress.Table.{Table, clear, depth, cleardict, adddict, printsym, first}

-- The globals, and the largest code width that the header states.
pub record Decoder : Type 0 where
  pub source : BitReader
  pub table : Table
  pub sink : Writer
  pub maxbits : ℕ

-- The messages of `myabort`.
pub data Message : Type 0 where
  bad_id out_of_memory bad_stream : Message

-- `endless` is a recursion through the dictionary that does not end; `unfinished` means that the
-- model's fuel ran out.
pub data Outcome : Type 0 where
  done : Decoder → Outcome
  abort : Message → Decoder → Outcome
  endless unfinished : Outcome

pub data Step : Type 0 where
  go : Option ℕ → Decoder → Step
  stop : Outcome → Step

unfoldable pub flushed : Decoder → Decoder
flushed d = record d { sink = outflush d.sink }

-- `printsym(sym); prev = sym;` and on to the test of the loop
unfoldable pub emit : ℕ → Decoder → Step
emit sym d = elim (printsym depth d.table sym d.sink) [
  | none ↦ stop endless
  | some w ↦ go (some sym) (record d { sink = w })
]

-- From the label `again` to the loop.
unfoldable pub start : Decoder → Step
start d = let (prev, b) = getsym d.table.bits d.source in emit prev (record d { source = b })

-- The two calls of `adddict`, and `printsym(cur)`.
unfoldable pub extend : ℕ → ℕ → Decoder → Step
extend prev cur d = elim (first depth d.table (if cur == d.table.nexti then prev else cur)) [
  | none ↦ stop endless
  | some x ↦ emit cur (record d { table = adddict prev x d.table })
]

-- One turn of `while (!eof)`.
unfoldable pub turn : ℕ → Decoder → Step
turn prev d =
    if d.source.eof
    then stop (done (flushed d))
    else (let (cur, b) = getsym d.table.bits d.source in
        let d' = record d { source = b } in
        if b.eof
        then stop (done (flushed d'))
        else if ltb d.table.nexti cur
        then stop (abort bad_stream (flushed d'))
        else if cur == clear
        then go none (record d' { table = cleardict d.table })
        else extend prev cur d')

-- `none` stands at the label `again`, `some prev` at the test of the loop.
unfoldable pub step : Option ℕ → Decoder → Step
step none d = start d
step (some prev) d = turn prev d

unfoldable pub run : ℕ → Option ℕ → Decoder → Outcome
run zero at d = unfinished
run (suc f) at d = elim (step at d) [ go at' d' ↦ run f at' d' | stop o ↦ o ]

-- What `decompress` resets; the static `num` of `getbit` is not among it.
unfoldable pub reset : Decoder → Decoder
reset d = record d {
  source = record (d.source) {
    input = record (d.source.input) { ipos = 0; isize = 0 };
    eof = false;
  };
  sink = record (d.sink) { opos = 0 };
}

-- `ret < 3 || header[0] != 0x1f || header[1] != 0x9d`, where `ret` bytes of the header were read
unfoldable pub bad_header : List ℕ → Bool
bad_header h = ltb (length h) 3 || not (get_or h 0 0 == 0x1f) || not (get_or h 1 0 == 0x9d)

-- `read(in, &header, 3)`, past the buffer
unfoldable pub behind_header : Decoder → Decoder
behind_header d =
    let input = d.source.input in
    record d { source = record (d.source) { input = record input { file = drop 3 (input.file) } } }

unfoldable pub decompress : ℕ → Decoder → Outcome
decompress fuel d₀ =
    let header = take 3 (reset d₀).source.input.file in
    let d = behind_header (reset d₀) in
    let limit = bit_and (get_or header 2 0) 0x1f in
    let d' = record d { maxbits = limit } in
    if bad_header header
    then abort bad_id (flushed d)
    else if ltb d.table.mymaxbits limit
    then abort out_of_memory (flushed d')
    else run fuel none (record d' { table = cleardict d.table })
