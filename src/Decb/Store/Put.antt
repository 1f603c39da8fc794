-- ===== src/Decb/Store/Put.antt =====
-- The loop of `put`: what it leaves on the image and in the table.
use native.Mathlib.Nat.{mod-eq_of_lt}
use native.Mathlib.Decide.{dec_lt}
use fip.Base.{
  ℕ, zero, suc, ◌+◌, ◌*◌, ◌%◌, ◌≤◌, ◌<◌, ◌≡◌, refl, sym, ap, ap₂, ◌∙◌, subst, ◌≢◌, inl, inr, false,
  some, List, arith, ltb, lt→ltb, le→ltb, length, get_or, set, take, drop, length-take,
  get_or-set_ne, get_or-set_self, length-set, take_all, length-drop,
}
use fip.Decb.Image.{Image, granz, fatz, write_at, size-write_at}
use fip.Decb.Fat.{free, findgran, fat_set, granfree, seekgran}
use fip.Decb.Fat.Laws.{findgran_lem, granfree-set, none-granfree, granfree-set_used}
use fip.Decb.Store.{Store, ok, End, put_loop}
use fip.Decb.Store.Layout.{Region, Written, tail, more, Keeps, write_at-Region, write_at-Keeps}

module _ (offset f x : ℕ) (src : List ℕ) (s : Store) where
  -- The image behind the write of one chunk.
  abbrev stored : Image
  stored = write_at s.img (seekgran offset x) (take granz src)

  put_loop-last :
      length src < granz
      → put_loop offset false (suc f) x src s
        ≡ ok (record { gran = x; size = length src; store = record s { img = stored } })
  unfolding put_loop
  put_loop-last l =
      let n : length (take granz src) ≡ length src = omega (arith, length-take granz src) in
      rw (n, lt→ltb (length src) granz l, put_loop) refl

  put_loop-more :
      {z : ℕ} {fat : List ℕ}
      → granz ≤ length src
      → findgran s.fat ≡ (some z, fat)
      → x < fatz
      → z < fatz
      → put_loop offset false (suc f) x src s
        ≡ put_loop offset false f z (drop granz src) (record { img = stored; fat = set fat x z })
  unfolding put_loop fat_set
  put_loop-more {z} {fat} l e lx lz =
      let n : ltb (length (take granz src)) granz ≡ false =
        le→ltb (length (take granz src)) granz (omega (arith, length-take granz src)) in
      let small : z % 256 ≡ z = mod-eq_of_lt (omega arith) in
      let again : z % 256 % 256 ≡ z = omega arith in
      rw (n, e, lt→ltb x fatz lx, put_loop)
        (ap₂
          (λ k v.
            put_loop offset false f k (drop granz src) (record { img = stored; fat = set fat x v }))
          small again)

pub record Put (offset : ℕ) (src : List ℕ) (x : ℕ) (s : Store) (e : End) : Type 0 where
  pub written : Written offset e.store.img e.store.fat src x e.gran e.size
  pub keeps : Keeps offset x s.img s.fat e.store.img e.store.fat
  pub table : length e.store.fat ≡ fatz
  pub last : get_or e.store.fat e.gran 0 ≡ 0xc0
  pub low : (e.gran < fatz) × (e.size < granz)
  pub grows : s.img.size ≤ e.store.img.size

module _ (offset x : ℕ) (src : List ℕ) (s : Store) (size : length s.fat ≡ fatz) (lx : x < fatz)
    (fresh : get_or s.fat x 0 ≡ 0xc0) where
  Put-last :
      length src < granz
      → Put offset src x s (record {
        gran = x;
        size = length src;
        store = record s { img = stored offset 0 x src s };
      })
  Put-last l =
      let all : take granz src ≡ src = take_all granz src (omega arith) in
      record {
        written = tail l refl lx (
            subst (Region offset (stored offset 0 x src s) x) all
              (write_at-Region offset x s.img (take granz src)));
        keeps =
            write_at-Keeps offset x s.img s.fat (take granz src)
              (omega (arith, length-take granz src));
        table = size;
        last = fresh;
        low = (lx, l);
        grows = size-write_at s.img (seekgran offset x) (take granz src);
      }

  module _ (z : ℕ) (lz : z < fatz) (was_free : get_or s.fat z 0 ≡ free) where
    -- The table when the loop goes on: `x` is linked to `z`, and `z` is the last.
    abbrev linked : List ℕ
    linked = set (set s.fat z 0xc0) x z

    apart : z ≢ x
    apart e = absurd (omega (arith, ap (λ k. get_or s.fat k 0) e))

    at_x : get_or linked x 0 ≡ z
    at_x = get_or-set_self (set s.fat z 0xc0) x z 0 (omega (arith, length-set s.fat z 0xc0))

    at_z : get_or linked z 0 ≡ 0xc0
    at_z =
        get_or-set_ne (set s.fat z 0xc0) x z z 0 (λ e. apart (sym e))
        ∙ get_or-set_self s.fat z 0xc0 0 (omega arith)

    elsewhere : (w : ℕ) → w ≢ x → w ≢ z → get_or linked w 0 ≡ get_or s.fat w 0
    elsewhere w nx nz =
        get_or-set_ne (set s.fat z 0xc0) x w z 0 (λ e. nx (sym e))
        ∙ get_or-set_ne s.fat z w 0xc0 0 (λ e. nz (sym e))

    length-linked : length linked ≡ fatz
    length-linked = length-set (set s.fat z 0xc0) x z ∙ length-set s.fat z 0xc0 ∙ size

    Put-more :
        {e : End}
        → granz ≤ length src
        → Put offset (drop granz src) z (record { img = stored offset 0 x src s; fat = linked }) e
        → Put offset src x s e
    Put-more {e} l p = record {
      written = more l lx (rw link lz) region (
          subst (λ k. Written offset e.store.img e.store.fat (drop granz src) k e.gran e.size)
            (sym link) p.written);
      keeps = λ w lw ne used.
          let nz : w ≢ z = λ same. used (ap (λ k. get_or s.fat k 0) same ∙ was_free) in
          let kept = p.keeps w lw nz (λ f. used (sym (elsewhere w ne nz) ∙ f)) in
          (
            kept.0 ∙ elsewhere w ne nz,
            λ i li.
                kept.1 i li
                ∙ (write_at-Keeps offset x s.img s.fat (take granz src)
                      (omega (arith, length-take granz src)) w lw ne used).1
                    i li,
          );
      table = p.table;
      last = p.last;
      low = p.low;
      grows = omega (arith, p.grows, size-write_at s.img (seekgran offset x) (take granz src));
    }
      where
        kept_x :
            (get_or e.store.fat x 0 ≡ get_or linked x 0)
            × ((i : ℕ)
                → i < granz
                → e.store.img.byte (seekgran offset x + i)
                  ≡ (stored offset 0 x src s).byte (seekgran offset x + i))
        kept_x = p.keeps x lx (λ e'. apart (sym e')) (λ f. absurd (omega (arith, at_x, f)))

        link : get_or e.store.fat x 0 ≡ z
        link = kept_x.0 ∙ at_x

        region : Region offset e.store.img x (take granz src)
        region i li =
            kept_x.1 i (omega (arith, length-take granz src))
            ∙ write_at-Region offset x s.img (take granz src) i li

    granfree-linked : granfree linked + 1 ≡ granfree s.fat
    granfree-linked = omega (
      arith,
      granfree-set s.fat z 0xc0 (omega arith) was_free (omega arith),
      granfree-set_used (set s.fat z 0xc0) x z
          (λ f. absurd (omega (arith, get_or-set_ne s.fat z x 0xc0 0 apart, f))) (omega arith),
    )

-- From a granule `x` of the table that is marked as the last of a file, with free granules enough
-- for `src` and more rounds than its length, the loop of `put` ends. Then the granules linked by
-- the table from `x` on hold exactly `src`, the last marked 0xc0 and not full; every other
-- granule that was in use keeps its code and its bytes; and the image is no shorter.
pub put_loop_lem :
    (offset f x : ℕ) (src : List ℕ) (s : Store)
    → length s.fat ≡ fatz
    → x < fatz
    → get_or s.fat x 0 ≡ 0xc0
    → length src < granz * (granfree s.fat + 1)
    → length src < f
    → (e : End) × (put_loop offset false f x src s ≡ ok e) × Put offset src x s e
put_loop_lem offset zero x src s size lx fresh room l = elim l [ ]
put_loop_lem offset (suc f) x src s size lx fresh room l = elim (dec_lt (length src) granz) [
  | yes short ↦
      (_, put_loop-last offset f x src s short, Put-last offset x src s size lx fresh short)
  | no long ↦ elim (findgran_lem s.fat) [
    | inr (_, no_free) ↦ absurd (omega (arith, none-granfree s.fat no_free))
    | inl (z, found, lz, was_free, _) ↦
        let lz' : z < fatz = omega arith in
        let (e, runs, p) =
          put_loop_lem offset f z (drop granz src)
            (record {
              img = stored offset f x src s;
              fat = linked offset x src s size lx fresh z lz' was_free;
            })
            (length-linked offset x src s size lx fresh z lz' was_free) lz'
            (at_z offset x src s size lx fresh z lz' was_free)
            (omega (
              arith,
              length-drop granz src,
              granfree-linked offset x src s size lx fresh z lz' was_free,
            ))
            (omega (arith, length-drop granz src)) in
        (
          e,
          put_loop-more offset f x src s (omega arith) found lx lz' ∙ runs,
          Put-more offset x src s size lx fresh z lz' was_free (omega arith) p,
        )
  ]
]
