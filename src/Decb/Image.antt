-- ===== src/Decb/Image.antt =====
-- The image file behind `fd` in decb/decb.c, and where its parts stand. `byte` is the file's content,
-- `size` its length; behind its end `byte` is 0, as a gap is that a `write` leaves. A `read` returns the bytes up to the end of the file; `lseek` and `write` do not
-- fail.
use fip.Base.{
  ℕ, zero, suc, ◌+◌, ◌-◌, ◌*◌, ◌≤◌, ◌<◌, min, ◌≡◌, refl, ap, ◌∙◌, ◌⊎◌, ◌&&◌, List, [], ◌∷◌, arith,
  ltb, leb, if◌then◌else◌, length, get_or, if-true, not, ◌==◌,
}

abbrev pub secz : ℕ
secz = 256

abbrev pub granz : ℕ
granz = 2304

abbrev pub fatz : ℕ
fatz = 68

abbrev pub fatst : ℕ
fatst = 307 * 256

abbrev pub dirst : ℕ
dirst = 308 * 256

abbrev pub label_at : ℕ
label_at = 322 * 256

pub record Image : Type 0 where
  pub byte : ℕ → ℕ
  pub size : ℕ
  pub zeros : (q : ℕ) → size ≤ q → byte q ≡ 0

-- The `n` bytes from `pos` on.
unfoldable pub bytes : (ℕ → ℕ) → ℕ → ℕ → List ℕ
bytes f pos zero = []
bytes f pos (suc n) = f pos ∷ bytes f (pos + 1) n

-- `lseek(fd, pos, SEEK_SET)` and `read(fd, ..., n)`
unfoldable pub read_at : Image → ℕ → ℕ → List ℕ
read_at img pos n = bytes img.byte pos (min n (img.size - pos))

-- What a write leaves of each byte, and of the size
abbrev pub byte_behind : Image → ℕ → List ℕ → ℕ → ℕ
byte_behind img pos xs q =
    if leb pos q && ltb q (pos + length xs) then get_or xs (q - pos) 0 else img.byte q

abbrev pub size_behind : Image → ℕ → List ℕ → ℕ
size_behind img pos xs =
    if ltb img.size (pos + length xs) && not (length xs == 0) then pos + length xs else img.size

pub zeros_behind :
    (img : Image) (pos : ℕ) (xs : List ℕ) (q : ℕ)
    → size_behind img pos xs ≤ q
    → byte_behind img pos xs q ≡ 0
zeros_behind img pos xs q l = ground (arith, img.zeros q)

-- `lseek(fd, pos, SEEK_SET)` and `write(fd, ..., n)`
unfoldable pub write_at : Image → ℕ → List ℕ → Image
write_at img pos xs = record {
  byte = byte_behind img pos xs;
  size = size_behind img pos xs;
  zeros = zeros_behind img pos xs;
}

pub length-bytes : (f : ℕ → ℕ) (pos n : ℕ) → length (bytes f pos n) ≡ n
unfolding bytes
length-bytes f pos zero = refl
length-bytes f pos (suc n) = ap suc (length-bytes f (pos + 1) n)

pub get_or-bytes : (f : ℕ → ℕ) (pos n i : ℕ) → i < n → get_or (bytes f pos n) i 0 ≡ f (pos + i)
unfolding bytes
get_or-bytes f pos zero i l = elim l [ ]
get_or-bytes f pos (suc n) zero l = ap f (omega arith)
get_or-bytes f pos (suc n) (suc i) l =
    get_or-bytes f (pos + 1) n i (omega arith) ∙ ap f (omega arith)

-- What a write leaves: its bytes where it was, and the old ones elsewhere.
pub byte-write_at_in :
    (img : Image) (pos : ℕ) (xs : List ℕ) (i : ℕ)
    → i < length xs
    → (write_at img pos xs).byte (pos + i) ≡ get_or xs i 0
unfolding write_at
byte-write_at_in img pos xs i l =
    let back : pos + i - pos ≡ i = omega arith in
    if-true {b = leb pos (pos + i) && ltb (pos + i) (pos + length xs)} _ _ (ground arith)
    ∙ ap (λ k. get_or xs k 0) back

pub byte-write_at_out :
    (img : Image) (pos : ℕ) (xs : List ℕ) (q : ℕ)
    → (q < pos) ⊎ (pos + length xs ≤ q)
    → (write_at img pos xs).byte q ≡ img.byte q
unfolding write_at
byte-write_at_out img pos xs q h = ground (arith, h)

pub size-write_at : (img : Image) (pos : ℕ) (xs : List ℕ) → img.size ≤ (write_at img pos xs).size
unfolding write_at
size-write_at img pos xs = ground arith
