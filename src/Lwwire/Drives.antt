-- ===== src/Lwwire/Drives.antt =====
-- The drives of lwwire/lwwire.c: `lwwire_fetch_drive_fp`, `lwwire_fetch_sector` and
-- `lwwire_save_sector`. A file on the host is an image; `fopen` with "r+" opens one that exists,
-- unless it is locked, and with "w+" makes an empty one. A faulty file fails each `fread` and
-- `fwrite` behind the first `part` bytes, 255 at most, which sets the error flag of its stream.
pub mod Laws
pub mod Sectors
use fip.Base.{
  ℕ, zero, suc, ◌+◌, ◌-◌, ◌*◌, ◌/◌, ◌%◌, ◌^◌, ◌≤◌, ◌<◌, min, bit_and, bit_or, ◌≡◌, refl, sym, ap,
  ap₂, ◌∙◌, subst, ◌≢◌, ◌↔◌, ◌⊎◌, inl, inr, Bool, true, false, ◌&&◌, ◌||◌, not, Option, none, some,
  List, [], ◌∷◌, ◌++◌, append-nil, append_assoc, arith, ltb, leb, ◌==◌, if◌then◌else◌, Bool-cases,
  Option-cases, ltb→lt, lt→ltb, le→ltb, ==_iff, compare_cases, length, get_elem?, get_or, set, take,
  drop, replicate, All,
}
use fip.Decb.Image.{Image, read_at, write_at}

abbrev pub checksum_error : ℕ
checksum_error = 0xf3

abbrev pub write_error : ℕ
write_error = 0xf5

abbrev pub not_ready : ℕ
not_ready = 0xf6

-- The field `fp`: NULL, or a stream with its error flag
pub data Stream : Type 0 where
  closed : Stream
  opened : Bool → Stream

-- `struct lwwire_driveinfo`, with the file at its path.
pub record Drive : Type 0 where
  pub path : Bool
  pub isconst : Bool
  pub fp : Stream
  pub file : Option Image
  pub locked : Bool
  pub faulty : Bool
  pub part : ℕ

abbrev pub empty : Image
empty = record { byte = λ q. 0; size = 0; zeros = λ q l. refl }

-- The two `fopen`
unfoldable pub reopen : Drive → Option Image × Drive
reopen d = if d.locked then (none, record d { fp = closed }) else elim d.file [
  | some img ↦ (some img, record d { fp = opened false })
  | none ↦
      if d.isconst
      then (none, record d { fp = closed })
      else (some empty, record d { fp = opened false; file = some empty })
]

-- `lwwire_fetch_drive_fp`: the file behind the stream, where it is not NULL
unfoldable pub fetch_drive_fp : Drive → Option Image × Drive
fetch_drive_fp d =
    if not d.path
    then (none, d)
    else elim d.fp [ closed ↦ reopen d | opened true ↦ reopen d | opened false ↦ (d.file, d) ]

-- `lsn * 256` on 32 bits
abbrev pub seek : ℕ → ℕ
seek lsn = lsn * 256 % 2 ^ 32

-- The `fread` into 256 bytes, and the zeros behind what it read
unfoldable pub read_sector : ℕ → Image → Drive → List ℕ × Drive
read_sector lsn img d =
    let got = read_at img (seek lsn) 256 in
    let sector = if d.faulty then take (min d.part 255) got else got in
    (
      sector ++ replicate (256 - length sector) 0,
      if ltb (length sector) 256 && d.faulty then record d { fp = opened true } else d,
    )

-- What follows `lwwire_fetch_drive_fp` in `lwwire_fetch_sector`
unfoldable pub load_sector : ℕ → Option Image × Drive → ℕ × (List ℕ × Drive)
load_sector lsn (none, d) = (not_ready, ([], d))
load_sector lsn (some img, d) = (0, read_sector lsn img d)

-- `lwwire_fetch_sector`: its result, and the sector where that is 0
unfoldable pub fetch_sector : ℕ → Drive → ℕ × (List ℕ × Drive)
fetch_sector lsn d = load_sector lsn (fetch_drive_fp d)

-- The `fwrite`
unfoldable pub write_sector : ℕ → List ℕ → Image → Drive → ℕ × Drive
write_sector lsn sector img d =
    if d.faulty
    then (
      write_error,
      record d {
        fp = opened true;
        file = some (write_at img (seek lsn) (take (min d.part 255) sector));
      },
    )
    else (0, record d { file = some (write_at img (seek lsn) sector) })

-- What follows `lwwire_fetch_drive_fp` in `lwwire_save_sector`
unfoldable pub store_sector : ℕ → List ℕ → Option Image × Drive → ℕ × Drive
store_sector lsn sector (none, d) = (not_ready, d)
store_sector lsn sector (some img, d) =
    if d.isconst then (write_error, d) else write_sector lsn sector img d

-- `lwwire_save_sector`
unfoldable pub save_sector : ℕ → List ℕ → Drive → ℕ × Drive
save_sector lsn sector d =
    if d.isconst then (write_error, d) else store_sector lsn sector (fetch_drive_fp d)
