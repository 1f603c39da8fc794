-- ===== src/Decb/Commands.antt =====
-- The commands of decb/decb.c on an image: put, get, rm, putboot, getboot, mkfs and label, with
-- `loadfat`, `savefat` and `openimg`. The host's files are the lists of their bytes.
pub mod RoundTrip
pub mod Full
pub mod Blank
pub mod Fresh
pub mod Entry
pub mod Cycle
use fip.Base.{
  ℕ, zero, suc, ◌+◌, ◌-◌, ◌*◌, ◌/◌, ◌%◌, bit_or, Bool, false, ◌||◌, not, List, [], ◌++◌, ltb, ◌==◌,
  if◌then◌else◌, length, get_or, set, take, drop, replicate, u8,
}
use fip.Decb.Image.{Image, secz, granz, fatz, fatst, label_at, read_at, write_at}
use fip.Decb.Fat.{findgran, gran_byte, fat_set, seekgran, delchain, is_last}
use fip.Decb.Store.{
  Result, ok, fail, fault, endless, ◌>>=◌, in_table, Store, put_loop, get_loop, image_too_small,
  read_error, no_file, file_exists,
}
use fip.Decb.Directory.{
  Dirent, Scan, getentry, find, vacant_loop, stringconv, saveentry, start_scan,
}

-- The options: `offset`, `trans`, `deftype`, `defaflag`, `mbr` and `boot`.
pub record Options : Type 0 where
  pub offset : ℕ
  pub trans : Bool
  pub deftype : ℕ
  pub defaflag : ℕ
  pub mbr : Bool
  pub boot : Bool

-- A file that is stored: its first granule, its two bytes of `remainder`, and the image.
pub record Stored : Type 0 where
  pub first : ℕ
  pub hi : ℕ
  pub lo : ℕ
  pub store : Store

-- The code of a last granule with `n` bytes: `0xc0 | ((size + SECZ-1) / SECZ)`.
abbrev pub last_code : ℕ → ℕ
last_code n = bit_or 0xc0 ((n + secz - 1) / secz)

-- `put` from `x = entry.first = findgran()` to the write of the last granule's code. The test
-- `entry.first < 0` is on a byte and never holds.
unfoldable pub store_file : ℕ → Bool → List ℕ → Store → Result Stored
store_file offset trans src s =
    let (g, fat) = findgran s.fat in
    put_loop offset trans (length src + 1) (gran_byte g) src (record s { fat = fat }) >>= λ e.
    in_table (fat_set (e.store.fat) e.gran (last_code e.size)) >>= λ fat'. ok (record {
      first = gran_byte g;
      hi = u8 (e.size % secz / 256);
      lo = u8 (e.size % secz % 256);
      store = record { img = e.store.img; fat = fat' };
    })

module _ (o : Options) where
  open o use {offset, trans, deftype, defaflag, mbr, boot}

  unfoldable pub loadfat : Image → Result Store
  loadfat img =
      let got = read_at img (fatst + offset) fatz in
      if length got == 0
      then fail image_too_small img
      else if length got == fatz
      then ok (record { img = img; fat = got })
      else fail read_error img

  unfoldable pub savefat : Store → Image
  savefat s = write_at s.img (fatst + offset) s.fat

  -- The new entry of `put`.
  unfoldable pub filled : List ℕ → Stored → Dirent → Dirent
  filled name st e =
      let b = stringconv name in
      record e {
        name = take 8 b;
        ext = drop 8 b;
        kind = deftype;
        aflag = defaflag;
        first = st.first;
        remainder_hi = st.hi;
        remainder_lo = st.lo;
      }

  unfoldable pub put : List ℕ → List ℕ → Image → Result Image
  put src name img₀ = do
    s ← loadfat img₀
    (found, d) ← find offset s.img name start_scan
    let rest = vacant_loop offset s.img 74 (record d { estate = 0 }) >>= λ d'.
        store_file offset trans src s >>= λ st.
        let img = saveentry (st.store.img) (record d' { entry = filled name st d'.entry }) in
        ok (savefat (record (st.store) { img = img }))
    if found then fail file_exists img₀ else rest

  unfoldable pub get : List ℕ → Image → Result (List ℕ)
  get name img = do
    s ← loadfat img
    (found, d) ← find offset s.img name start_scan
    let e = d.entry
    let rest = get_loop offset trans 70 e.first (e.remainder_hi * 256 + e.remainder_lo) s []
    if found then rest else fail no_file img

  unfoldable pub rm : List ℕ → Image → Result Image
  rm name img = do
    s ← loadfat img
    (found, d) ← find offset s.img name start_scan
    let e = d.entry
    let rest = in_table (delchain e.first s.fat) >>= λ fat.
        let img' = savefat (record s { fat = fat }) in
        ok (saveentry img' (record d { entry = record e { name = set (e.name) 0 0 } }))
    if found then rest else fail no_file img

  -- The loop of `mkfs`: `k` granules of 0xff from `pos` on.
  unfoldable pub blank_from : ℕ → ℕ → Image → Image
  blank_from zero pos img = img
  blank_from (suc k) pos img = blank_from k (pos + granz) (write_at img pos (replicate granz 0xff))

  -- The table that `mkfs` protects track 0 and the boot track in.
  unfoldable pub protect : List ℕ → List ℕ
  protect fat =
      let fat' = if mbr then set fat 0 0xc0 else fat in
      if boot then set (set fat' (fatz - 1) 0xc0) (fatz - 2) 0xc0 else fat'

  unfoldable pub mkfs : Image → Result Image
  unfolding blank_from protect
  mkfs img = do
    s ← loadfat (blank_from 70 offset img)
    ok (savefat (record s { fat = protect s.fat }))

  -- The loop of `putboot` that writes the first granules of the file to the last two of the table.
  unfoldable pub boot_from : ℕ → ℕ → List ℕ → Image → Image
  boot_from zero x src img = img
  boot_from (suc k) x src img =
      boot_from k (x + 1) (drop granz src) (write_at img (seekgran offset x) (take granz src))

  -- Does the chain from `x` on reach the boot track? A chain that does not end is `endless`.
  unfoldable pub reaches_boot : ℕ → ℕ → List ℕ → Result Bool
  reaches_boot zero x fat = endless
  reaches_boot (suc f) x fat =
      let here = x == fatz - 2 || x == fatz - 1 in
      let rest = reaches_boot f (get_or fat x 0) fat >>= λ b. ok (here || b) in
      if is_last x then ok false else if ltb x fatz then rest else fault

  -- The scan of `putboot` for files on the boot track. It prints an error, and goes on.
  unfoldable pub boot_used : ℕ → Store → Scan → Result Bool
  unfolding reaches_boot
  boot_used zero s d = endless
  boot_used (suc f) s d = do
    (more, d') ← getentry offset s.img d
    let e = d'.entry
    let rest = boot_used f s d'
    let chain = reaches_boot 70 e.first s.fat >>= λ b. rest >>= λ r. ok (b || r)
    if not more
        then ok false
        else if get_or (e.name) 0 0 == 0xff
        then ok false
        else if get_or (e.name) 0 0 == 0
        then rest
        else chain

  -- `putb`, with whether it printed the error.
  unfoldable pub putb : List ℕ → Image → Result (Bool × Image)
  unfolding boot_used boot_from
  putb src img = do
    s ← loadfat img
    used ← boot_used 74 s start_scan
    let img' = boot_from 2 (fatz - 2) src s.img
    let fat = set (set s.fat (fatz - 1) 0xc0) (fatz - 2) 0xc0
    ok (used, savefat (record { img = img'; fat = fat }))

  unfoldable pub getb_from : ℕ → ℕ → Image → List ℕ → Result (List ℕ)
  getb_from zero x img dst = ok dst
  getb_from (suc k) x img dst =
      let got = read_at img (seekgran offset x) granz in
      let rest = getb_from k (x + 1) img (dst ++ got) in
      if ltb (length got) granz then fail read_error img else rest

  unfoldable pub getb : Image → Result (List ℕ)
  unfolding getb_from
  getb img = do s ← loadfat img; getb_from 2 (fatz - 2) s.img []

  -- `strncpy` of the label into a sector of zeros, at most 255 bytes of it.
  unfoldable pub label : List ℕ → Image → Result Image
  label text img = do
    s ← loadfat img
    let t = take (secz - 1) text
    ok (write_at s.img (label_at + offset) (t ++ replicate (secz - length t) 0))
