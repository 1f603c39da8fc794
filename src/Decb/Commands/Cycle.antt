-- ===== src/Decb/Commands/Cycle.antt =====
-- `get` behind `put`, through the directory and the table of decb/decb.c.
use fip.Base.{ℕ, ◌+◌, ◌*◌, ◌≤◌, ◌≡◌, List, length}
use fip.Decb.Image.{Image, fatz, fatst, dirst, write_at}
use fip.Decb.Store.{Store}
use fip.Decb.Directory.{Scan, of_bytes, to_bytes, start_scan}
use fip.Decb.Commands.{Options, Stored}
use fip.Decb.Commands.Fresh.{table, unused}
use fip.Decb.Commands.Entry.{entry}

-- An image behind `put`, whose table and whose first entry are written over one with a whole disk
module _ (o : Options) (name : List ℕ) (st : Stored) (d : Scan)
    (unused : length d.entry.unused ≡ 16) (place : d.entry_off ≡ dirst + o.offset)
    (table : length st.store.fat ≡ fatz) (size : o.offset + 35 * 18 * 256 ≤ st.store.img.size) where
  abbrev block : List ℕ
  block = to_bytes (entry o name st d.entry unused)

  abbrev listed : Image
  listed = write_at (st.store.img) (dirst + o.offset) block

  abbrev after : Image
  after = write_at listed (fatst + o.offset) (st.store.fat)

  abbrev found_scan : Scan
  found_scan = record start_scan {
    estate = 1;
    count = 1;
    pos = dirst + o.offset + 32;
    entry_off = dirst + o.offset;
    entry = of_bytes block;
  }
