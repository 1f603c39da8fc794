-- ===== src/Decb/Commands/Fresh.antt =====
-- A disk that `mkfs` of decb/decb.c has just made.
use fip.Base.{
  ℕ, ◌+◌, ◌*◌, ◌≤◌, ◌<◌, ◌≡◌, refl, sym, ap, ◌∙◌, inr, true, false, List, arith, length, get_or,
  replicate, get_or-replicate,
}
use fip.Decb.Image.{
  Image, fatz, fatst, dirst, read_at, byte-write_at_in, byte-write_at_out, size-write_at,
}
use fip.Decb.Store.{ok, Store}
use fip.Decb.Directory.{
  saveentry, Scan, getentry, rewound, of_bytes, find, find_loop, vacant_loop, start_scan,
}
use fip.Decb.Commands.{
  Options, loadfat, savefat, mkfs, blank_from, protect, store_file, put, Stored, filled,
}
use fip.Decb.Commands.Blank.{length-replicate, read_at_whole, blank_byte, blank_size, protect_lem}

-- The table of an image
pub loadfat_lem :
    (o : Options) (img : Image) (fat : List ℕ)
    → length fat ≡ fatz
    → fatst + o.offset + fatz ≤ img.size
    → ((i : ℕ) → i < fatz → img.byte (fatst + o.offset + i) ≡ get_or fat i 0)
    → loadfat o img ≡ ok (record { img = img; fat = fat })
unfolding loadfat
loadfat_lem o img fat size l h =
    let got : read_at img (fatst + o.offset) fatz ≡ fat =
      ap (read_at img (fatst + o.offset)) (sym size)
      ∙ read_at_whole img (fatst + o.offset) fat (omega (arith, size, l))
          (λ i li. h i (omega (arith, size, li))) in
    rw (got, size) refl

-- What `getentry` finds first in a directory that begins by 32 bytes of 0xff
abbrev pub first_scan : ℕ → Scan → Scan
first_scan offset d = record d {
  estate = 1;
  count = 1;
  pos = dirst + offset + 32;
  entry_off = dirst + offset;
  entry = of_bytes (replicate 32 0xff);
}

module _ (offset : ℕ) (img : Image) (size : dirst + offset + 32 ≤ img.size)
    (unused : (i : ℕ) → i < 32 → img.byte (dirst + offset + i) ≡ 0xff) where
  getentry_first :
      (d : Scan) → getentry offset img (record d { estate = 0 }) ≡ ok (true, first_scan offset d)
  unfolding getentry rewound
  getentry_first d =
      let got : read_at img (dirst + offset) 32 ≡ replicate 32 0xff =
        read_at_whole img (dirst + offset) (replicate 32 0xff) size
          (λ i l. unused i l ∙ sym (get_or-replicate 32 0xff i l)) in
      rw got refl

  pub find_first :
      (name : List ℕ) → find offset img name start_scan ≡ ok (false, first_scan offset start_scan)
  unfolding find find_loop of_bytes
  find_first name = rw (getentry_first start_scan) refl

  pub vacant_first :
      (d : Scan) → vacant_loop offset img 74 (record d { estate = 0 }) ≡ ok (first_scan offset d)
  unfolding vacant_loop of_bytes
  vacant_first d = rw (getentry_first d) refl

-- What `put` leaves where it ends well
abbrev pub put_image : Options → List ℕ → Stored → Scan → Image
put_image o name st d = savefat o (record (st.store) {
  img = saveentry (st.store.img) (record d { entry = filled o name st d.entry });
})

pub put_runs :
    (o : Options) (src name : List ℕ) (img : Image) (s : Store) (st : Stored) (d d' : Scan)
    → loadfat o img ≡ ok s
    → find o.offset s.img name start_scan ≡ ok (false, d)
    → vacant_loop o.offset s.img 74 (record d { estate = 0 }) ≡ ok d'
    → store_file o.offset o.trans src s ≡ ok st
    → put o src name img ≡ ok (put_image o name st d')
unfolding put
put_runs o src name img s st d d' loaded found vacant stored =
    rw (loaded, found, vacant, stored) refl

module _ (o : Options) (img : Image) where
  abbrev pub table : List ℕ
  table = protect o (replicate fatz 0xff)

  pub length-table : length table ≡ fatz
  length-table = (protect_lem o o.mbr o.boot refl refl).0

  -- The image that `mkfs` leaves
  abbrev pub blank : Image
  blank = blank_from o 70 o.offset img

  abbrev pub made : Image
  made = savefat o (record { img = blank; fat = table })

  blank-size : o.offset + 35 * 18 * 256 ≤ blank.size
  blank-size = omega (arith, blank_size o 69 o.offset img)

  pub made-size : o.offset + 35 * 18 * 256 ≤ made.size
  unfolding savefat
  made-size = omega (arith, blank-size, size-write_at blank (fatst + o.offset) table)

  pub mkfs-made : mkfs o img ≡ ok made
  unfolding mkfs
  mkfs-made =
      let loaded : loadfat o blank ≡ ok (record { img = blank; fat = replicate fatz 0xff }) =
        loadfat_lem o blank (replicate fatz 0xff) (length-replicate fatz 0xff)
          (omega (arith, blank-size))
          (λ i l.
            blank_byte o 70 o.offset img (fatst + o.offset + i) (omega arith) (omega arith)
            ∙ sym (get_or-replicate fatz 0xff i l)) in
      rw loaded refl

  pub loadfat-made : loadfat o made ≡ ok (record { img = made; fat = table })
  unfolding savefat
  loadfat-made =
      loadfat_lem o made table length-table (omega (arith, made-size))
        (λ i l. byte-write_at_in blank (fatst + o.offset) table i (omega (arith, length-table)))

  pub unused : (i : ℕ) → i < 32 → made.byte (dirst + o.offset + i) ≡ 0xff
  unfolding savefat
  unused i l =
      byte-write_at_out blank (fatst + o.offset) table (dirst + o.offset + i)
        (inr (omega (arith, length-table)))
      ∙ blank_byte o 70 o.offset img (dirst + o.offset + i) (omega arith) (omega arith)
