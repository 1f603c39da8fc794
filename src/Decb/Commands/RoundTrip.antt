-- ===== src/Decb/Commands/RoundTrip.antt =====
-- `put` of decb/decb.c, and `get` behind it.
use native.Mathlib.Nat.{mod-eq_of_lt}
use fip.Base.{
  if-true, ℕ, ◌+◌, ◌-◌, ◌*◌, ◌/◌, ◌%◌, ◌≤◌, ◌<◌, bit_or, ◌≡◌, refl, sym, ap, ◌∙◌, subst, ◌≢◌, inl,
  inr, true, false, some, List, [], arith, ◌==◌, lt→ltb, ==_iff, length, get_or, set, take,
  every_below, every_below_sound, length-drop, length-take, length-set, u8, get_or-set_self,
  take_all,
}
use fip.Decb.Image.{Image, secz, granz, fatz}
use fip.Decb.Fat.{seekgran, free, findgran, fat_set, granfree}
use fip.Decb.Fat.Laws.{findgran_lem, granfree-set, none-granfree}
use fip.Decb.Store.{ok, Store, End, put_loop, get_loop}
use fip.Decb.Store.Layout.{Written, tail, more, seekgran-le}
use fip.Decb.Store.Put.{Put, put_loop_lem}
use fip.Decb.Store.Get.{get_loop_lem}
use fip.Decb.Commands.{Stored, last_code, store_file}

Written-mod :
    {offset : ℕ} {img : Image} {fat src : List ℕ} {x y n : ℕ}
    → Written offset img fat src x y n
    → n ≡ length src % granz
Written-mod (tail l e lx reg) = omega arith
Written-mod (more {src = src} l lx ly reg w) = omega (arith, Written-mod w, length-drop granz src)

-- Two images with the same granules
abbrev pub Agree : ℕ → Image → Image → Type 0
Agree offset img img' =
    (w i : ℕ)
    → w < fatz
    → i < granz
    → img'.byte (seekgran offset w + i) ≡ img.byte (seekgran offset w + i)

Written-Agree :
    {offset : ℕ} {img img' : Image} {fat src : List ℕ} {x y n : ℕ}
    → Written offset img fat src x y n
    → Agree offset img img'
    → Written offset img' fat src x y n
Written-Agree (tail l e lx reg) same = tail l e lx (λ i li. same _ i lx (omega arith) ∙ reg i li)
Written-Agree (more {src = src} l lx ly reg w) same =
    more l lx ly (λ i li. same _ i lx (omega (arith, li, length-take granz src)) ∙ reg i li)
      (Written-Agree w same)

codes_table : every_below 10 (λ k. bit_or 0xc0 k == 0xc0 + k) ≡ true
unfolding every_below
codes_table = refl

last_code_lem : (n : ℕ) → n < granz → last_code n ≡ 0xc0 + (n + secz - 1) / secz
last_code_lem n l = (==_iff _ _).0 (
    every_below_sound 10 (λ k. bit_or 0xc0 k == 0xc0 + k) ((n + secz - 1) / secz) codes_table
      (omega arith))

-- A disk that is whole, and a file for which there are granules enough.
module _ (offset : ℕ) (src : List ℕ) (s : Store) (size : length s.fat ≡ fatz)
    (whole : offset + 35 * 18 * 256 ≤ s.img.size) (room : length src < granz * granfree s.fat) where
  pub record Kept (st : Stored) : Type 0 where
    pub runs : store_file offset false src s ≡ ok st
    pub left : st.hi * 256 + st.lo ≡ length src % granz % secz
    pub table : length st.store.fat ≡ fatz
    pub grows : s.img.size ≤ st.store.img.size
    pub reads :
        (f : ℕ) (img : Image)
        → length src < f * granz
        → offset + 35 * 18 * 256 ≤ img.size
        → Agree offset st.store.img img
        → (m k : ℕ) → m ≤ length src % granz
        → k ≡ (length src % granz + secz - 1) / secz
        → k * secz + (st.hi * 256 + st.lo) ≡ m + secz
        → get_loop offset false f st.first
            (st.hi * 256 + st.lo)
            (record { img = img; fat = st.store.fat })
            []
          ≡ ok (take (length src - length src % granz + m) src)

  module _ (z : ℕ) (lz : z < fatz) (was_free : get_or s.fat z 0 ≡ free)
      (found : findgran s.fat ≡ (some z, set s.fat z 0xc0)) where
    looped :
        (e : End) × (put_loop offset false
            (length src + 1)
            z
            src
            (record s { fat = set s.fat z 0xc0 })
          ≡ ok e)
        × Put offset src z (record s { fat = set s.fat z 0xc0 }) e
    looped =
        put_loop_lem offset (length src + 1) z src (record s { fat = set s.fat z 0xc0 })
          (length-set s.fat z 0xc0 ∙ size) lz (get_or-set_self s.fat z 0xc0 0 (omega arith))
          (subst (λ g. length src < granz * g)
            (sym (granfree-set s.fat z 0xc0 (omega arith) was_free (omega arith))) room)
          (omega arith)

    abbrev e : End
    e = looped.0

    abbrev sectors : ℕ
    sectors = (e.size + secz - 1) / secz

    abbrev stored : Stored
    stored = record {
      first = z;
      hi = u8 (e.size % secz / 256);
      lo = u8 (e.size % secz % 256);
      store = record { img = e.store.img; fat = set (e.store.fat) e.gran (0xc0 + sectors) };
    }

    closes : fat_set (e.store.fat) e.gran (last_code e.size) ≡ some stored.store.fat
    unfolding fat_set
    closes =
        let code : u8 (last_code e.size) ≡ 0xc0 + sectors =
          ap u8 (last_code_lem e.size looped.2.low.1) ∙ omega (arith, looped.2.low.1) in
        if-true _ _ (lt→ltb e.gran fatz looped.2.low.0)
        ∙ ap (λ c. some (set (e.store.fat) e.gran c)) code

    store_runs : store_file offset false src s ≡ ok stored
    unfolding store_file
    store_runs =
        let small : u8 z ≡ z = mod-eq_of_lt (omega arith) in
        rw (found, small, looped.1, closes) refl

    stored-Kept : Kept stored
    stored-Kept = record {
      runs = store_runs;
      left = omega (arith, Written-mod looped.2.written, looped.2.low.1);
      table = length-set (e.store.fat) e.gran (0xc0 + sectors) ∙ looped.2.table;
      grows = looped.2.grows;
      reads = λ f img fuel size' same_data m k le ek count.
          let n : e.size ≡ length src % granz = Written-mod looped.2.written in
          let same : k ≡ sectors = ek ∙ ap (λ t. (t + secz - 1) / secz) (sym n) in
          let last = looped.2 in
          get_loop_lem offset img e.store.fat e.gran sectors (stored.hi * 256 + stored.lo) m
            (omega (arith, last.table, last.low.0)) last.last (omega (arith, n)) (omega arith)
            (omega (arith, last.low.1)) (rw (← same) count)
            (λ w lw. omega (arith, seekgran-le offset w lw, size')) f z e.size src []
            (Written-Agree last.written same_data) (omega (arith, n)) fuel
          ∙ ap (λ t. ok (take (length src - t + m) src)) n;
    }

  -- With granules enough, `put` stores a file that `get` can read.
  pub store_file-Kept : (st : Stored) × Kept st
  store_file-Kept = elim (findgran_lem s.fat) [
    | inl (z, found, lz, was_free, _) ↦
        (stored z (omega arith) was_free found, stored-Kept z (omega arith) was_free found)
    | inr (_, no_free) ↦ absurd (omega (arith, none-granfree s.fat no_free))
  ]

  -- On a disk of 35 tracks with granules enough for `src`, and where the last granule's part of
  -- `src` is no whole number of sectors: `store_file`, the part of `put` from its first
  -- `findgran` to the write of the last code, without -l stores `src`, and the loop of `get` from
  -- what the entry says then reads exactly `src`.
  pub store-get :
      length src % granz % secz ≢ 0
      → (st : Stored) × (store_file offset false src s ≡ ok st)
        × (get_loop offset false (length src + 1) st.first (st.hi * 256 + st.lo) st.store []
            ≡ ok src)
  store-get odd =
      let (st, kept) = store_file-Kept in
      let n : ℕ = length src % granz in
      (
        st,
        kept.runs,
        kept.reads (length src + 1) st.store.img (omega arith) (omega (arith, kept.grows))
              (λ w i lw li. refl) n ((n + secz - 1) / secz) (omega arith) refl
              (omega (arith, kept.left))
            ∙ ap ok (take_all (length src - n + n) src (omega arith)),
      )

  -- On a disk of 35 tracks with granules enough for `src`, and where the last granule's part of
  -- `src` is one or more whole sectors: `store_file`, the part of `put` from its first `findgran`
  -- to the write of the last code, without -l stores `src`, but the loop of `get` from what the
  -- entry says then reads `src` without its last 256 bytes.
  pub store-get_short :
      length src % granz % secz ≡ 0
      → length src % granz ≢ 0
      → (st : Stored) × (store_file offset false src s ≡ ok st)
        × (get_loop offset false (length src + 1) st.first (st.hi * 256 + st.lo) st.store []
            ≡ ok (take (length src - secz) src))
  store-get_short even some_left =
      let (st, kept) = store_file-Kept in
      let n : ℕ = length src % granz in
      let sized : length src - n + (n - secz) ≡ length src - secz = omega arith in
      (
        st,
        kept.runs,
        kept.reads (length src + 1) st.store.img (omega arith) (omega (arith, kept.grows))
              (λ w i lw li. refl) (n - secz) ((n + secz - 1) / secz) (omega arith) refl
              (omega (arith, kept.left))
            ∙ ap (λ t. ok (take t src)) sized,
      )
