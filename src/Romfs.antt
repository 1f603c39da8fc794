-- ===== src/Romfs.antt =====
-- decb/romfs.c: a disk image of 630 sectors as a ROM image, with a map of the sectors in front. An
-- image, `read_at` and `write_at` are those of decb.
pub mod Sectors
pub mod Stored
pub mod Whole
pub mod Tests
use fip.Base.{
  ℕ, zero, suc, ◌+◌, ◌*◌, ◌%◌, ◌||◌, List, ◌++◌, ltb, ◌==◌, if◌then◌else◌, length, set, take, drop,
  replicate, same_bytes, u8, refl,
}
use fip.Decb.Image.{Image, secz, read_at, write_at}

-- `outpos`, `buf`, `lsns` and the file behind `out`.
pub record Rom : Type 0 where
  pub outpos : ℕ
  pub buf : List ℕ
  pub lsns : List ℕ
  pub out : Image

-- The exits by an error: the number of banks, and a ROM that is too small, whose file is removed.
pub data Converted : Type 0 where
  rom : Image → Converted
  bad_banks cannot_fit : Converted

abbrev pub ones : List ℕ
ones = replicate 256 0xff

abbrev pub zeros : List ℕ
zeros = replicate 256 0

-- `load` returns before it tests how much it read: what a short read leaves of `buf` stays.
unfoldable pub load : Image → ℕ → List ℕ → List ℕ
load img sec buf = let got = read_at img (sec * secz) secz in got ++ drop (length got) buf

unfoldable pub save : Image → List ℕ → ℕ → Image
save img buf sec = write_at img (sec * secz) buf

-- `save(buf, outpos++); if (outpos % 64 == 63) save(ones, outpos++);`
unfoldable pub append : Rom → Rom
append r =
    let out = save r.out r.buf r.outpos in
    if (r.outpos + 1) % 64 == 63
    then record r { out = save out ones (r.outpos + 1); outpos = r.outpos + 2 }
    else record r { out = out; outpos = r.outpos + 1 }

-- One round of the loop.
unfoldable pub convert_sector : Image → ℕ → Rom → Rom
convert_sector img i r₀ =
    let r = record r₀ { buf = load img i r₀.buf } in
    if same_bytes r.buf ones
    then record r { lsns = set r.lsns i 0 }
    else if same_bytes r.buf zeros
    then record r { lsns = set r.lsns i 1 }
    else append (record r { lsns = set r.lsns i (u8 r.outpos) })

unfoldable pub convert_from : Image → ℕ → ℕ → Rom → Rom
convert_from img zero i r = r
convert_from img (suc k) i r = convert_from img k (i + 1) (convert_sector img i r)

-- Nothing of `buf` is read before it is loaded, unless the image is empty: it starts as zeros.
abbrev pub blank_rom : Rom
blank_rom = record {
  outpos = 3;
  buf = zeros;
  lsns = replicate 768 0;
  out = record { byte = λ q. 0; size = 0; zeros = λ q l. refl };
}

-- The three `save` of the map.
unfoldable pub save_map : Rom → Image
save_map r =
    save (save (save r.out (take 256 r.lsns) 0) (take 256 (drop 256 r.lsns)) 1)
      (take 256 (drop 512 r.lsns)) 2

-- What follows the loop of `main`. The test of the banks stands in front of it, and the loop
-- writes only to the file.
unfoldable pub finish : ℕ → Rom → Converted
finish banks r =
    if ltb banks 1 || ltb 4 banks
    then bad_banks
    else if ltb (banks * 64) r.outpos
    then cannot_fit
    else rom (save_map r)

-- `main`, with the option -s in `banks`.
unfoldable pub romfs : ℕ → Image → Converted
romfs banks img = finish banks (convert_from img 630 0 blank_rom)
