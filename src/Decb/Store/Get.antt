-- ===== src/Decb/Store/Get.antt =====
-- The loop of `get`: it reads back what the loop of `put` wrote.
use fip.Base.{
  ℕ, zero, suc, ◌+◌, ◌-◌, ◌*◌, ◌≤◌, ◌<◌, min, bit_and, ◌≡◌, refl, sym, ap, ◌∙◌, true, false, ◌&&◌,
  some, List, ◌++◌, append_assoc, arith, ◌==◌, lt→ltb, le→ltb, ==_iff, length, get_or, set, take,
  drop, every_below, get_or_ext, length-take, get_or-take, every_below_sound, take_all,
  get_or-set_ne, get_or-set_self, length-drop, take-take, take-add,
}
use fip.Decb.Image.{Image, secz, granz, fatz, read_at, bytes, length-bytes, get_or-bytes}
use fip.Decb.Fat.{is_last, fat_get, seekgran}
use fip.Decb.Chain.{is_last_lem}
use fip.Decb.Store.{Store, ok, loadgran, last_size, get_loop}
use fip.Decb.Store.Layout.{Region, Written, tail, more}

mask_table : every_below 128 (λ g. bit_and g 0x7f == g) ≡ true
unfolding every_below
mask_table = refl

sectors_table : every_below 16 (λ k. (bit_and (0xc0 + k) 0x3f == k) && is_last (0xc0 + k)) ≡ true
unfolding every_below is_last
sectors_table = refl

-- The bytes of a granule, or the first of them.
take-read :
    (offset x : ℕ) (img : Image) (chunk : List ℕ)
    → length chunk ≤ granz
    → Region offset img x chunk
    → take (length chunk) (bytes img.byte (seekgran offset x) granz) ≡ chunk
take-read offset x img chunk l region =
    get_or_ext _ chunk 0
      (omega (
        arith,
        length-take (length chunk) (bytes img.byte (seekgran offset x) granz),
        length-bytes img.byte (seekgran offset x) granz,
      ))
      (λ i li.
        let less : i < length chunk =
          omega
            (arith, li, length-take (length chunk) (bytes img.byte (seekgran offset x) granz)) in
        get_or-take (length chunk) i (bytes img.byte (seekgran offset x) granz) 0 less
        ∙ get_or-bytes img.byte (seekgran offset x) granz i (omega (arith, less))
        ∙ region i less)

loadgran_lem :
    (offset x : ℕ) (img : Image)
    → seekgran offset x + granz ≤ img.size
    → loadgran offset false img x ≡ ok (bytes img.byte (seekgran offset x) granz)
unfolding loadgran read_at
loadgran_lem offset x img h =
    let whole : min granz (img.size - seekgran offset x) ≡ granz = omega arith in
    rw (whole, length-bytes img.byte (seekgran offset x) granz) refl

table : (k : ℕ) → k < 10 → ((bit_and (0xc0 + k) 0x3f == k) && is_last (0xc0 + k)) ≡ true
table k l =
    every_below_sound 16 (λ n. (bit_and (0xc0 + n) 0x3f == n) && is_last (0xc0 + n)) k sectors_table
      (omega arith)

fat_get_lem : (fat : List ℕ) (x : ℕ) → x < fatz → fat_get fat x ≡ some (get_or fat x 0)
unfolding fat_get
fat_get_lem fat x l = rw (lt→ltb x fatz l, fat_get) refl

mask : (x : ℕ) → x < fatz → bit_and x 0x7f ≡ x
mask x l =
    (==_iff _ _).0 (every_below_sound 128 (λ g. bit_and g 0x7f == g) x mask_table (omega arith))

-- The size that the last granule's code and the remainder give.
last_size_lem :
    (offset m r : ℕ)
    → m < granz
    → r < 256
    → (k : ℕ) → k < 10
    → (k * secz + r ≡ m + secz)
    → last_size offset false (0xc0 + k) r ≡ ok m
unfolding last_size
last_size_lem offset m r lm lr k lk e =
    let sectors : bit_and (0xc0 + k) 0x3f ≡ k = ground (arith, table k lk) in
    let exact : k * secz + r - secz ≡ m = omega arith in
    rw (sectors, le→ltb (k * secz + r) secz (omega arith), exact, le→ltb granz m (omega arith)) refl

module _ (offset f x r : ℕ) (s : Store) (dst : List ℕ) where
  get_loop-last :
      (code m : ℕ)
      → x < fatz
      → get_or s.fat x 0 ≡ code
      → is_last code ≡ true
      → last_size offset false code r ≡ ok m
      → m < granz
      → seekgran offset x + granz ≤ s.img.size
      → get_loop offset false (suc f) x r s dst
        ≡ ok (dst ++ take m (bytes s.img.byte (seekgran offset x) granz))
  unfolding get_loop
  get_loop-last code m lx e last sized small h =
      let shorter : (m == granz) ≡ false = ground (arith, small) in
      rw (fat_get_lem s.fat x lx, mask x lx, loadgran_lem offset x s.img h, e, last, sized, shorter)
        refl

  get_loop-more :
      (y : ℕ)
      → x < fatz
      → y < fatz
      → get_or s.fat x 0 ≡ y
      → seekgran offset x + granz ≤ s.img.size
      → get_loop offset false (suc f) x r s dst
        ≡ get_loop offset false f y r s (dst ++ bytes s.img.byte (seekgran offset x) granz)
  unfolding get_loop
  get_loop-more y lx ly e h =
      let linked : is_last y ≡ false = is_last_lem y (omega arith) ∙ (ground (arith, ly)) in
      let all : take granz (bytes s.img.byte (seekgran offset x) granz)
          ≡ bytes s.img.byte (seekgran offset x) granz =
        take_all granz (bytes s.img.byte (seekgran offset x) granz)
          (omega (arith, length-bytes s.img.byte (seekgran offset x) granz)) in
      rw (fat_get_lem s.fat x lx, mask x lx, loadgran_lem offset x s.img h, e, linked, all) refl

Written-size :
    {offset : ℕ} {img : Image} {fat src : List ℕ} {x y n : ℕ}
    → Written offset img fat src x y n
    → n ≤ length src
Written-size (tail l e lx reg) = omega arith
Written-size (more {src = src} l lx ly reg w) = omega (arith, Written-size w, length-drop granz src)

-- What the loop of `get` needs of the image, the table and the last granule's code: `k` sectors and
-- the remainder `r` make `m` bytes.
module _ (offset : ℕ) (img : Image) (fat : List ℕ) (y k r m : ℕ) (ly : y < length fat)
    (last : get_or fat y 0 ≡ 0xc0) (small : m < granz) (lr : r < 256) (lk : k < 10)
    (count : k * secz + r ≡ m + secz)
    (whole : (w : ℕ) → w < fatz → seekgran offset w + granz ≤ img.size) where
  abbrev closed : Store
  closed = record { img = img; fat = set fat y (0xc0 + k) }

  at_last : get_or closed.fat y 0 ≡ 0xc0 + k
  at_last = get_or-set_self fat y (0xc0 + k) 0 ly

  is_last-code : is_last (0xc0 + k) ≡ true
  is_last-code = ground (arith, table k lk)

  before : (x : ℕ) → get_or fat x 0 < fatz → get_or closed.fat x 0 ≡ get_or fat x 0
  before x l =
      get_or-set_ne fat y x (0xc0 + k) 0
        (λ e. absurd (omega (arith, ap (λ w. get_or fat w 0) e, last)))

  pub get_loop_lem :
      (f x n : ℕ) (src dst : List ℕ)
      → Written offset img fat src x y n
      → m ≤ n
      → length src < f * granz
      → get_loop offset false f x r closed dst ≡ ok (dst ++ take (length src - n + m) src)
  get_loop_lem zero x n src dst w le l = elim l [ ]
  get_loop_lem (suc f) x n src dst (tail sl e lx reg) le l =
      let sized : m ≡ length src - n + m = omega arith in
      get_loop-last offset f x r closed dst (0xc0 + k) m lx at_last is_last-code
        (last_size_lem offset m r small lr k lk count) small (whole x lx)
      ∙ ap (λ t. ok (dst ++ t))
          (sym (take-take m (length src) (bytes img.byte (seekgran offset x) granz) (omega arith))
            ∙ ap (λ t. take m t) (take-read offset x img src (omega arith) reg)
            ∙ ap (λ c. take c src) sized)
  get_loop_lem (suc f) x n src dst (more sl lx lz reg w) le l =
      let chunk : length (take granz src) ≡ granz = omega (arith, length-take granz src) in
      let got : bytes img.byte (seekgran offset x) granz ≡ take granz src =
        sym (
          take_all granz (bytes img.byte (seekgran offset x) granz)
            (omega (arith, length-bytes img.byte (seekgran offset x) granz)))
        ∙ ap (λ c. take c (bytes img.byte (seekgran offset x) granz)) (sym chunk)
        ∙ take-read offset x img (take granz src) (omega arith) reg in
      let sized : granz + (length (drop granz src) - n + m) ≡ length src - n + m =
        omega (arith, length-drop granz src, Written-size w) in
      get_loop-more offset f x r closed dst (get_or fat x 0) lx lz (before x lz) (whole x lx)
      ∙ get_loop_lem f (get_or fat x 0) n (drop granz src) _ w le
          (omega (arith, length-drop granz src))
      ∙ ap ok (
          append_assoc dst _ _
          ∙ ap (λ t. dst ++ (t ++ take (length (drop granz src) - n + m) (drop granz src))) got
          ∙ ap (λ t. dst ++ t)
              (take-add granz (length (drop granz src) - n + m) src ∙ ap (λ c. take c src) sized))
