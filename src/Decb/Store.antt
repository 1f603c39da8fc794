-- ===== src/Decb/Store.antt =====
-- How decb/decb.c keeps a file's data: the loops of `put` and `get` over the granules of one file.
pub mod Layout
pub mod Put
pub mod Get
use fip.Base.{
  ℕ, zero, suc, ◌+◌, ◌-◌, ◌*◌, bit_and, Bool, ◌||◌, Option, none, some, List, [], ◌∷◌, ◌++◌, ltb,
  ◌==◌, if◌then◌else◌, length, take, drop,
}
use fip.Decb.Image.{Image, secz, granz, read_at, write_at}
use fip.Decb.Fat.{is_last, fat_get, fat_set, findgran, gran_byte, seekgran}

-- The ways in which a command calls `exit(1)`.
pub data Failure : Type 0 where
  image_too_small read_error no_file file_exists no_entry : Failure

-- `fail` is such an exit, with the image as it is then; `fault` is an access outside of an array, or
-- a `write` of a negative count; `endless` means that the loop took more rounds than the fuel.
pub data Result (A : Type 0) : Type 0 where
  ok : A → Result A
  fail : Failure → Image → Result A
  fault endless : Result A

infixl 5 ◌>>=◌
abbrev pub ◌>>=◌ : {A B : Type 0} → Result A → (A → Result B) → Result B
ok a >>= k = k a
fail e img >>= k = fail e img
fault >>= k = fault
endless >>= k = endless

abbrev pub in_table : {A : Type 0} → Option A → Result A
in_table none = fault
in_table (some a) = ok a

-- The image with the copy of the table in memory.
pub record Store : Type 0 where
  pub img : Image
  pub fat : List ℕ

-- `nl2cr` and `cr2nl`, under the option -l
unfoldable pub nl2cr : List ℕ → List ℕ
nl2cr [] = []
nl2cr (b ∷ bs) = (if b == 10 then 13 else b) ∷ nl2cr bs

unfoldable pub cr2nl : List ℕ → List ℕ
cr2nl [] = []
cr2nl (b ∷ bs) = (if b == 13 then 10 else b) ∷ cr2nl bs

-- Where the loop of `put` ends: the last granule, and the bytes in it.
pub record End : Type 0 where
  pub gran : ℕ
  pub size : ℕ
  pub store : Store

module _ (offset : ℕ) (trans : Bool) where
  -- The loop of `put` at granule `x`, with `src` still to read. What `findgran` returns is stored in
  -- a byte before `x` has it, so that the test `x < 0` behind it never holds.
  unfoldable pub put_loop : ℕ → ℕ → List ℕ → Store → Result End
  put_loop zero x src s = endless
  put_loop (suc f) x src s =
      let chunk = take granz src in
      let img = write_at s.img (seekgran offset x) (if trans then nl2cr chunk else chunk) in
      let (y, fat) = findgran s.fat in
      let next = λ (fat' : List ℕ).
        put_loop f (gran_byte y) (drop granz src) (record { img = img; fat = fat' }) in
      if ltb (length chunk) granz
      then ok (record { gran = x; size = length chunk; store = record s { img = img } })
      else in_table (fat_set fat x (gran_byte y)) >>= next

  -- `loadgran`
  unfoldable pub loadgran : Image → ℕ → Result (List ℕ)
  loadgran img gran =
      let got = read_at img (seekgran offset gran) granz in
      if length got == 0
      then fail image_too_small img
      else if length got == granz
      then ok got
      else fail read_error img

  -- `size` in the last granule of a file: `code & ~0xc0` sectors, the last with `r` bytes.
  unfoldable pub last_size : ℕ → ℕ → Result ℕ
  last_size code r =
      let total = bit_and code 0x3f * secz + r in
      if ltb total secz || ltb granz (total - secz) then fault else ok (total - secz)

  -- The loop of `get` at granule `gran`, with `dst` already written and `r` in `remainder`.
  unfoldable pub get_loop : ℕ → ℕ → ℕ → Store → List ℕ → Result (List ℕ)
  get_loop zero gran r s dst = endless
  get_loop (suc f) gran r s dst = do
    code ← in_table (fat_get s.fat gran)
    size ← if is_last code then last_size code r else ok granz
    got ← loadgran s.img (bit_and gran 0x7f)
    let out = dst ++ take size (if trans then cr2nl got else got)
    let rest = get_loop f code r s out
    if size == granz then rest else ok out
