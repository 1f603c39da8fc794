-- ===== src/Decb/Commands/Full.antt =====
-- `put` of decb/decb.c on a full disk.
use fip.Base.{
  if◌then◌else◌, if-true, ℕ, zero, suc, ◌+◌, ◌%◌, ◌≡◌, refl, ◌≢◌, ◌⊎◌, inl, inr, Bool, true, false,
  none, List, arith, ltb, Bool-cases, length, take, length-drop,
}
use fip.Decb.Image.{Image, granz}
use fip.Decb.Fat.{findgran, fat_set, granfree}
use fip.Decb.Fat.Laws.{findgran-granfree}
use fip.Decb.Directory.{Scan, find, vacant_loop, start_scan}
use fip.Decb.Store.{Result, ok, fail, fault, endless, ◌>>=◌, Store, End, put_loop}
use fip.Decb.Store.Layout.{Written, tail, more}
use fip.Decb.Commands.{Options, store_file, loadfat, put}

Written-mod :
    {offset : ℕ} {img : Image} {fat src : List ℕ} {x y n : ℕ}
    → Written offset img fat src x y n
    → n ≡ length src % granz
Written-mod (tail l e lx reg) = omega arith
Written-mod (more {src = src} l lx ly reg w) = omega (arith, Written-mod w, length-drop granz src)

fat_set_out : (fat : List ℕ) (v : ℕ) → fat_set fat 0xff v ≡ none
unfolding fat_set
fat_set_out fat v = refl

-- The loop of `put` at the -1 of `findgran` in a byte.
put_loop_off :
    (offset f : ℕ) (trans : Bool) (src : List ℕ) (s : Store)
    → f ≢ 0
    → ((final : End) × (put_loop offset trans f 0xff src s ≡ ok final) × (final.gran ≡ 0xff))
      ⊎ (put_loop offset trans f 0xff src s ≡ fault)
unfolding put_loop
put_loop_off offset zero trans src s ne = absurd (ne refl)
put_loop_off offset (suc f) trans src s ne =
    elim (Bool-cases (ltb (length (take granz src)) granz)) [
      | inl e' ↦ inl (_, if-true _ _ e', refl)
      | inr e' ↦ inr (rw (e', fat_set_out) refl)
    ]

store_file_full :
    (offset : ℕ) (trans : Bool) (src : List ℕ) (s : Store)
    → granfree s.fat ≡ 0
    → store_file offset trans src s ≡ fault
unfolding store_file
store_file_full offset trans src s no_free =
    let found : findgran s.fat ≡ (none, s.fat) = (findgran-granfree s.fat).0 no_free in
    rw found (elim (put_loop_off offset (length src + 1) trans src s (omega arith)) [
      | inl (final, runs, at) ↦ rw (runs, at, fat_set_out) refl
      | inr off ↦ rw off refl
    ])

-- A chain of results that never ends in `ok` at its last part.
bind_fails :
    {A B : Type 0} (r : Result A) (k : A → Result B)
    → ((a : A) (b : B) → k a ≢ ok b)
    → (b : B) → (r >>= k) ≢ ok b
bind_fails (ok a) k never b e = never a b e
bind_fails (fail reason img) k never b e = cc
bind_fails fault k never b e = cc
bind_fails endless k never b e = cc

if_fails :
    {A : Type 0} (b : Bool) (r q : Result A)
    → ((a : A) → r ≢ ok a)
    → ((a : A) → q ≢ ok a)
    → (a : A) → (if b then r else q) ≢ ok a
if_fails true r q h k a e = h a e
if_fails false r q h k a e = k a e

-- Let no granule be free in the table that `put` loads. Then `put` stores nothing with success,
-- whatever the image, the file, its name and the options are; and if no file has the name and the
-- directory has an entry for it, `put` does not see that the disk is full, and ends in an access
-- outside of the table.
pub put_full :
    (o : Options) (src name : List ℕ) (img : Image) (s : Store)
    → loadfat o img ≡ ok s
    → granfree s.fat ≡ 0
    → ((img' : Image) → put o src name img ≢ ok img')
      × ((d d' : Scan)
          → find o.offset s.img name start_scan ≡ ok (false, d)
          → vacant_loop o.offset s.img 74 (record d { estate = 0 }) ≡ ok d'
          → put o src name img ≡ fault)
unfolding put
put_full o src name img s loaded no_free =
    let full = store_file_full o.offset o.trans src s no_free in
    (
      rw loaded (
          bind_fails (find o.offset s.img name start_scan) _ λ f.
            if_fails (f.0) _ _ (λ a e. cc)
              (bind_fails (vacant_loop o.offset s.img 74 (record (f.1) { estate = 0 })) _
                λ d'. rw full (λ a e. cc))),
      λ d d' found vacant. rw (loaded, found, vacant, full) refl,
    )
