-- ===== src/Decb/Store/Layout.antt =====
-- A file's data on the image: where the granules of decb/decb.c are.
use fip.Base.{
  ℕ, ◌+◌, ◌*◌, ◌≤◌, ◌<◌, ◌≡◌, refl, sym, ◌≢◌, ◌⊎◌, List, arith, length, get_or, take, drop, inl,
  ◌/◌, ◌%◌, inr, ◌-◌,
}
use fip.Decb.Image.{Image, granz, fatz, write_at, byte-write_at_in, byte-write_at_out}
use fip.Decb.Fat.{free, seekgran}

-- No byte of a granule stands inside of another granule.
pub seekgran_apart :
    (offset x y i : ℕ)
    → x ≢ y
    → i < granz
    → (seekgran offset y + i < seekgran offset x)
      ⊎ (seekgran offset x + granz ≤ seekgran offset y + i)
unfolding seekgran
seekgran_apart offset x y i ne l = ground arith

-- No granule of the table has a byte in common with track 17, which holds the table and the
-- directory.
pub seekgran_track :
    (offset x : ℕ)
    → x < fatz
    → (seekgran offset x + granz ≤ offset + 17 * 18 * 256)
      ⊎ (offset + 18 * 18 * 256 ≤ seekgran offset x)
unfolding seekgran
seekgran_track offset x l = ground arith

-- The place of a byte, as a granule of the table and a byte in it
abbrev pub IsPlace : ℕ → ℕ → ℕ → ℕ → Type 0
IsPlace offset p x i = (x < fatz) × (i < granz) × (offset + p ≡ seekgran offset x + i)

-- On the 35 tracks of a disk: each byte outside of track 17 is a byte of a granule of the table;
-- no byte of track 17, which holds the table and the directory, is one; and no byte stands in two
-- granules, or at two places in one.
pub seekgran_tiles :
    (offset p : ℕ)
    → p < 35 * 18 * 256
    → (((p < 17 * 18 * 256) ⊎ (18 * 18 * 256 ≤ p)) → (x : ℕ) × (i : ℕ) × IsPlace offset p x i)
      × ((x i : ℕ) → IsPlace offset p x i → (p < 17 * 18 * 256) ⊎ (18 * 18 * 256 ≤ p))
      × ((x i y j : ℕ) → IsPlace offset p x i → IsPlace offset p y j → (x ≡ y) × (i ≡ j))
unfolding seekgran
seekgran_tiles offset p l = (
  λ h. elim h [
    | inl low ↦ (p / granz, p % granz, ground arith)
    | inr high ↦ ((p - 18 * 256) / granz, (p - 18 * 256) % granz, ground arith)
  ],
  λ x i h. ground (arith, h),
  λ x i y j h k. ground (arith, h, k),
)

-- The last granule ends at the end of a disk of 35 tracks.
pub seekgran-le : (offset x : ℕ) → x < fatz → seekgran offset x + granz ≤ offset + 35 * 18 * 256
unfolding seekgran
seekgran-le offset x l = ground arith

-- The image holds `chunk` at the start of granule `x`.
abbrev pub Region : ℕ → Image → ℕ → List ℕ → Type 0
Region offset img x chunk =
    (i : ℕ) → i < length chunk → img.byte (seekgran offset x + i) ≡ get_or chunk i 0

-- The file `src` is stored from granule `x` on; `y` is its last granule, with `n` bytes of it.
pub data Written (offset : ℕ) (img : Image) (fat : List ℕ) : List ℕ → ℕ → ℕ → ℕ → Type 0 where
  tail :
      {src : List ℕ} {x n : ℕ}
      → length src < granz
      → n ≡ length src
      → x < fatz
      → Region offset img x src
      → Written offset img fat src x x n
  more :
      {src : List ℕ} {x y n : ℕ}
      → granz ≤ length src
      → x < fatz
      → get_or fat x 0 < fatz
      → Region offset img x (take granz src)
      → Written offset img fat (drop granz src) (get_or fat x 0) y n
      → Written offset img fat src x y n

-- Every granule in use but `x` keeps its code and its bytes.
abbrev pub Keeps : ℕ → ℕ → Image → List ℕ → Image → List ℕ → Type 0
Keeps offset x img fat img' fat' =
    (w : ℕ)
    → w < fatz
    → w ≢ x
    → get_or fat w 0 ≢ free
    → (get_or fat' w 0 ≡ get_or fat w 0)
      × ((i : ℕ) → i < granz → img'.byte (seekgran offset w + i) ≡ img.byte (seekgran offset w + i))

-- One write into granule `x`.
pub write_at-Region :
    (offset x : ℕ) (img : Image) (chunk : List ℕ)
    → Region offset (write_at img (seekgran offset x) chunk) x chunk
write_at-Region offset x img chunk i l = byte-write_at_in img (seekgran offset x) chunk i l

pub write_at-Keeps :
    (offset x : ℕ) (img : Image) (fat chunk : List ℕ)
    → length chunk ≤ granz
    → Keeps offset x img fat (write_at img (seekgran offset x) chunk) fat
write_at-Keeps offset x img fat chunk h w l ne used = (
  refl,
  λ i li.
      byte-write_at_out img (seekgran offset x) chunk (seekgran offset w + i)
        (omega (arith, seekgran_apart offset x w i (λ e. ne (sym e)) li)),
)
