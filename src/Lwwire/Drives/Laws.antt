-- ===== src/Lwwire/Drives/Laws.antt =====
-- The drives of lwwire/lwwire.c as arrays of sectors: what a fetch and a save leave of one.
use fip.Base.{
  ℕ, zero, suc, ◌+◌, ◌-◌, ◌*◌, ◌^◌, ◌≤◌, ◌<◌, min, ◌≡◌, refl, sym, ap, ap₂, ◌∙◌, subst, ◌≢◌, ◌⊎◌,
  inl, inr, true, false, ◌&&◌, Option, none, some, List, ◌∷◌, ◌++◌, arith, ltb, if◌then◌else◌,
  Bool-cases, Option-cases, length, replicate, if-false, if-true, get_or, take, length-take,
  get_or-take,
}
use fip.Decb.Image.{
  Image, bytes, read_at, write_at, length-bytes, byte-write_at_in, byte-write_at_out,
}
use fip.Lwwire.Drives.{
  Drive, Stream, closed, opened, empty, reopen, fetch_drive_fp, seek, read_sector, write_sector,
  save_sector, store_sector,
}

-- What a call leaves of a drive: its settings.
pub record Settings (d d' : Drive) : Type 0 where
  pub path : d'.path ≡ d.path
  pub isconst : d'.isconst ≡ d.isconst
  pub locked : d'.locked ≡ d.locked
  pub faulty : d'.faulty ≡ d.faulty
  pub part : d'.part ≡ d.part

Settings-refl : (d : Drive) → Settings d d
Settings-refl d = record { path = refl; isconst = refl; locked = refl; faulty = refl; part = refl }

-- The stream is ready on `img`, the file at the path or a new one.
pub record Ready (d : Drive) (img : Image) (d' : Drive) : Type 0 where
  pub settings : Settings d d'
  pub file : d'.file ≡ some img
  pub fp : d'.fp ≡ opened false
  pub path : d'.path ≡ true
  pub origin : (d.file ≡ some img) ⊎ ((d.file ≡ none) × (d.isconst ≡ false) × (img ≡ empty))

abbrev pub Fetches : Drive → Option Image × Drive → Type 0
Fetches d (none, d') = Settings d d' × (d'.file ≡ d.file)
Fetches d (some img, d') = Ready d img d'

reopen-Fetches : (d : Drive) → d.path ≡ true → Fetches d (reopen d)
unfolding reopen
reopen-Fetches d p = ground (arith, Option-cases d.file, p)

-- The states of a stream.
Stream-cases : (s : Stream) → (s ≡ closed) ⊎ ((s ≡ opened true) ⊎ (s ≡ opened false))
Stream-cases closed = inl refl
Stream-cases (opened true) = inr (inl refl)
Stream-cases (opened false) = inr (inr refl)

fetch_drive_fp-reopen :
    (d : Drive) (s : Stream)
    → d.path ≡ true
    → d.fp ≡ s
    → s ≢ opened false
    → reopen d ≡ fetch_drive_fp d
unfolding fetch_drive_fp
fetch_drive_fp-reopen d closed p e ne = ground (arith, p, e)
fetch_drive_fp-reopen d (opened true) p e ne = ground (arith, p, e)
fetch_drive_fp-reopen d (opened false) p e ne = absurd (ne refl)

pub fetch_drive_fp-Fetches : (d : Drive) → Fetches d (fetch_drive_fp d)
unfolding fetch_drive_fp
fetch_drive_fp-Fetches d = elim (Bool-cases d.path) [
  | inr no_path ↦ rw no_path (ground arith)
  | inl p ↦ elim (Stream-cases d.fp) [
    | inl e ↦ subst (Fetches d) (fetch_drive_fp-reopen d closed p e (λ b. cc)) (reopen-Fetches d p)
    | inr (inl e) ↦
        subst (Fetches d) (fetch_drive_fp-reopen d (opened true) p e (λ b. cc)) (reopen-Fetches d p)
    | inr (inr e) ↦ ground (arith, Option-cases d.file, p, e)
  ]
]

-- The bytes of sector `lsn`, whose place does not wrap around on 32 bits.
abbrev pub sector_of : Image → ℕ → List ℕ
sector_of img lsn = bytes img.byte (lsn * 256) 256

bytes-pad :
    (f : ℕ → ℕ) (pos m k n : ℕ)
    → m + k ≡ n
    → ((q : ℕ) → pos + m ≤ q → q < pos + n → f q ≡ 0)
    → bytes f pos m ++ replicate k 0 ≡ bytes f pos n
unfolding bytes
bytes-pad f pos zero zero zero e z = refl
bytes-pad f pos zero zero (suc n) e z = absurd (omega (arith, e))
bytes-pad f pos zero (suc k) zero e z = absurd (omega (arith, e))
bytes-pad f pos zero (suc k) (suc n) e z =
    ap₂ (λ b bs. b ∷ bs) (sym (z pos (omega arith) (omega arith)))
      (bytes-pad f (pos + 1) zero k n (omega (arith, e)) (λ q l r. z q (omega arith) (omega arith)))
bytes-pad f pos (suc m) k zero e z = absurd (omega (arith, e))
bytes-pad f pos (suc m) k (suc n) e z =
    ap (λ bs. f pos ∷ bs)
      (bytes-pad f (pos + 1) m k n (omega (arith, e)) (λ q l r. z q (omega arith) (omega arith)))

module _ (lsn : ℕ) (img : Image) (d : Drive) (l : lsn < 2 ^ 24) where
  at_lsn : seek lsn ≡ lsn * 256
  at_lsn = omega arith

  padded :
      let got = read_at img (lsn * 256) 256 in
      got ++ replicate (256 - length got) 0 ≡ sector_of img lsn
  unfolding read_at
  padded =
      let m = min 256 (img.size - lsn * 256) in
      let size = length-bytes img.byte (lsn * 256) m in
      bytes-pad img.byte (lsn * 256) m (256 - length (bytes img.byte (lsn * 256) m)) 256
        (omega (arith, size)) (λ q lq below. img.zeros q (omega arith))

  pub read_sector_lem : d.faulty ≡ false → read_sector lsn img d ≡ (sector_of img lsn, d)
  unfolding read_sector
  read_sector_lem sound =
      let whole : read_at img (seek lsn) 256 ≡ read_at img (lsn * 256) 256 =
        ap (λ p. read_at img p 256) at_lsn in
      ap
        (λ (xs : List ℕ). (
          xs ++ replicate (256 - length xs) 0,
          if ltb (length xs) 256 && d.faulty then record d { fp = opened true } else d,
        ))
        (if-false _ _ sound ∙ whole)
      ∙ ap₂ (λ a b. (a, b)) padded
          (if-false {b = ltb (length (read_at img (lsn * 256) 256)) 256 && d.faulty} _ _
            (ground (arith, sound)))

-- A drive that a sector was saved to.
pub record Saves (lsn : ℕ) (sector : List ℕ) (d d' : Drive) : Type 0 where
  pub settings : Settings d d'
  pub fp : d'.fp ≡ opened false
  pub path : d'.path ≡ true
  pub sound : d'.faulty ≡ false
  pub writable : d.isconst ≡ false
  pub img : Image
  pub before : (fetch_drive_fp d).0 ≡ some img
  pub origin : (d.file ≡ some img) ⊎ (img ≡ empty)
  pub file : d'.file ≡ some (write_at img (seek lsn) sector)

-- A drive whose `fwrite` broke off: the first `count` bytes of the sector are written.
pub record Breaks (lsn : ℕ) (sector : List ℕ) (d d' : Drive) : Type 0 where
  pub fp : d'.fp ≡ opened true
  pub faulty : d.faulty ≡ true
  pub writable : d.isconst ≡ false
  pub img : Image
  pub before : (fetch_drive_fp d).0 ≡ some img
  pub origin : (d.file ≡ some img) ⊎ ((d.file ≡ none) × (img ≡ empty))
  pub count : ℕ
  pub short : count < 256
  pub img' : Image
  pub file : d'.file ≡ some img'
  pub written :
      (i : ℕ) → i < count → i < length sector → img'.byte (seek lsn + i) ≡ get_or sector i 0
  pub kept : (q : ℕ) → (q < seek lsn) ⊎ (seek lsn + count ≤ q) → img'.byte q ≡ img.byte q
  pub size : img'.size ≤ seek lsn + count ⊎ (img'.size ≡ img.size)

-- What `save_sector` comes to: the sector is written; or nothing is done to the file; or `fwrite`
-- broke off.
abbrev pub Saved : ℕ → List ℕ → Drive → ℕ × Drive → Type 0
Saved lsn sector d (code, d') =
    ((code ≡ 0) × Saves lsn sector d d')
    ⊎ ((code ≢ 0) × Settings d d' × ((d'.file ≡ d.file) ⊎ Breaks lsn sector d d'))

-- The first `n` bytes of a list are written.
module _ (img : Image) (pos n : ℕ) (xs : List ℕ) where
  part_written :
      (i : ℕ)
      → i < n
      → i < length xs
      → (write_at img pos (take n xs)).byte (pos + i) ≡ get_or xs i 0
  part_written i l lx =
      byte-write_at_in img pos (take n xs) i (ground (arith, length-take n xs, l, lx))
      ∙ get_or-take n i xs 0 l

  part_kept :
      (q : ℕ) → (q < pos) ⊎ (pos + n ≤ q) → (write_at img pos (take n xs)).byte q ≡ img.byte q
  part_kept q out = byte-write_at_out img pos (take n xs) q (ground (arith, length-take n xs, out))

  part_size :
      ((write_at img pos (take n xs)).size ≤ pos + n)
      ⊎ ((write_at img pos (take n xs)).size ≡ img.size)
  unfolding write_at
  part_size = ground (arith, length-take n xs)

write_sector-Saved :
    (lsn : ℕ) (sector : List ℕ) (d : Drive) (img : Image) (d' : Drive)
    → (fetch_drive_fp d).0 ≡ some img
    → d.isconst ≡ false
    → Ready d img d'
    → Saved lsn sector d (write_sector lsn sector img d')
unfolding write_sector
write_sector-Saved lsn sector d img d' e w r = elim (Bool-cases d'.faulty) [
  | inl faulty ↦ subst (Saved lsn sector d) (sym (if-true _ _ faulty)) (
      inr (
        λ z. absurd (omega (arith, z)),
        record {
          path = r.settings.path;
          isconst = r.settings.isconst;
          locked = r.settings.locked;
          faulty = r.settings.faulty;
          part = r.settings.part;
        },
        inr (record {
          fp = refl;
          faulty = sym r.settings.faulty ∙ faulty;
          writable = w;
          img = img;
          before = e;
          origin = elim r.origin [
            | inl there ↦ inl there
            | inr (missing, _, new) ↦ inr (missing, new)
          ];
          count = min d'.part 255;
          short = ground arith;
          img' = write_at img (seek lsn) (take (min d'.part 255) sector);
          file = refl;
          written = λ i l ls. part_written img (seek lsn) (min d'.part 255) sector i l ls;
          kept = λ q out. part_kept img (seek lsn) (min d'.part 255) sector q out;
          size = part_size img (seek lsn) (min d'.part 255) sector;
        }),
      ))
  | inr sound ↦ subst (Saved lsn sector d) (sym (if-false _ _ sound)) (
      inl (
        refl,
        record {
          settings = record {
            path = r.settings.path;
            isconst = r.settings.isconst;
            locked = r.settings.locked;
            faulty = r.settings.faulty;
            part = r.settings.part;
          };
          fp = r.fp;
          path = r.path;
          sound = sound;
          writable = w;
          img = img;
          before = e;
          origin = elim r.origin [ inl there ↦ inl there | inr (_, _, new) ↦ inr new ];
          file = refl;
        },
      ))
]

store_sector-Saved :
    (lsn : ℕ) (sector : List ℕ) (d : Drive) (r : Option Image × Drive)
    → (fetch_drive_fp d).0 ≡ r.0
    → d.isconst ≡ false
    → Fetches d r
    → Saved lsn sector d (store_sector lsn sector r)
unfolding store_sector
store_sector-Saved lsn sector d (none, d') e w (same, kept) =
    inr (λ z. absurd (omega (arith, z)), same, inl kept)
store_sector-Saved lsn sector d (some img, d') e w r =
    subst (Saved lsn sector d) (sym (if-false _ _ (r.settings.isconst ∙ w)))
      (write_sector-Saved lsn sector d img d' e w r)

-- Either `save_sector` says 0: then the drive can be written to, and its file is the one that
-- `fetch_drive_fp` opened, with the sector written into it. Or it says an error: then the file is
-- as it was, or the drive can be written to and `fwrite` failed behind some bytes of the sector,
-- fewer than 256. In the second case the stream keeps its error flag, and in the file that
-- `fetch_drive_fp` opened, which may be new, those bytes of the sector are at its place, each
-- other byte is as before, and the size is as before or ends with those bytes at most. The
-- settings of the drive are kept.
pub save_sector_lem :
    (lsn : ℕ) (sector : List ℕ) (d : Drive) → Saved lsn sector d (save_sector lsn sector d)
unfolding save_sector
save_sector_lem lsn sector d = elim (Bool-cases d.isconst) [
  | inl const ↦
      subst (Saved lsn sector d) (sym (if-true _ _ const))
        (inr (λ z. absurd (omega (arith, z)), Settings-refl d, inl refl))
  | inr writable ↦
      subst (Saved lsn sector d) (sym (if-false _ _ writable)) (
        store_sector-Saved lsn sector d (fetch_drive_fp d) refl writable (fetch_drive_fp-Fetches d))
]
