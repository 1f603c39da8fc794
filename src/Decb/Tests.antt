-- ===== src/Decb/Tests.antt =====
-- `decb` on a small disk: runs of the model, and the theorems applied to them.
use fip.Base.{
  same_bytes, zero, suc, get_or-replicate, ℕ, ◌+◌, ◌*◌, ◌≤◌, ◌<◌, ◌≡◌, refl, ◌≢◌, ◌⊎◌, false, none,
  some, List, [], ◌∷◌, arith, length, get_or, set, replicate, inr, suc, inl, ap,
}
use fip.Decb.Image.{Image, read_at, bytes}
use fip.Decb.Image.{fatz}
use fip.Decb.Fat.{free, findgran, granfree, is_last, delchain}
use fip.Decb.Fat.Laws.{findgran_lem, findgran-granfree}
use fip.Decb.Chain.{Chain, end, link, IsIn, delchain_lem}
use fip.Decb.Chain.Total.{IsCode, IsTable, Frees, delchain_total}
use fip.Decb.Store.{Store, ok, fault, End, put_loop, get_loop}
use fip.Decb.Store.Layout.{IsPlace, seekgran_tiles}
use fip.Decb.Store.Put.{Put, put_loop_lem}
use fip.Decb.Directory.{Scan, find, vacant_loop, getentry, rewound, of_bytes, start_scan}
use fip.Decb.Commands.{Stored, Options, loadfat, put, store_file}
use fip.Decb.Commands.RoundTrip.{store-get, store-get_short}
use fip.Decb.Commands.Full.{put_full}

abbrev disk : Store
disk = record {
  img = record { byte = λ q. 0; size = 161280; zeros = λ q l. refl };
  fat = replicate 68 0xff;
}

-- A file in the granules 2 and 3.
abbrev used : List ℕ
used = 0xff ∷ 0xff ∷ 3 ∷ 0xc2 ∷ replicate 64 0xff

used-Chain : Chain used 2 (2 ∷ 3 ∷ [])
unfolding is_last
used-Chain = link refl (omega arith) (link refl (omega arith) (end refl))

granfree-disk : granfree disk.fat ≡ 68
unfolding granfree
granfree-disk = refl

findgran_example :
    ((x : ℕ) × (findgran used ≡ (some x, set used x 0xc0))
      × (x < length used)
      × (get_or used x 0 ≡ free)
      × ((i : ℕ) → i < x → get_or used i 0 ≢ free))
    ⊎ ((findgran used ≡ (none, used)) × ((i : ℕ) → i < length used → get_or used i 0 ≢ free))
findgran_example = findgran_lem used

findgran-granfree_example :
    (granfree used ≡ 0 → findgran used ≡ (none, used))
    × (granfree used ≢ 0
        → (x : ℕ) × ((findgran used).0 ≡ some x) × (granfree (findgran used).1 + 1 ≡ granfree used))
findgran-granfree_example = findgran-granfree used

delchain_example :
    (fat : List ℕ) × (delchain 2 used ≡ some fat)
    × (length fat ≡ length used)
    × ((x : ℕ) → x < length used → IsIn x (2 ∷ 3 ∷ []) → get_or fat x 0 ≡ free)
    × ((x : ℕ) → ¬ IsIn x (2 ∷ 3 ∷ []) → get_or fat x 0 ≡ get_or used x 0)
delchain_example = delchain_lem 2 used (2 ∷ 3 ∷ []) used-Chain (omega arith)

seekgran_tiles_example :
    (((100000 < 17 * 18 * 256) ⊎ (18 * 18 * 256 ≤ 100000))
      → (x : ℕ) × (i : ℕ) × IsPlace 0 100000 x i)
    × ((x i : ℕ) → IsPlace 0 100000 x i → (100000 < 17 * 18 * 256) ⊎ (18 * 18 * 256 ≤ 100000))
    × ((x i y j : ℕ) → IsPlace 0 100000 x i → IsPlace 0 100000 y j → (x ≡ y) × (i ≡ j))
seekgran_tiles_example = seekgran_tiles 0 100000 (omega arith)

put_loop_example :
    (e : End) × (put_loop 0 false 4 0 (1 ∷ 2 ∷ 3 ∷ []) (record disk { fat = set disk.fat 0 0xc0 })
      ≡ ok e)
    × Put 0 (1 ∷ 2 ∷ 3 ∷ []) 0 (record disk { fat = set disk.fat 0 0xc0 }) e
unfolding granfree
put_loop_example =
    put_loop_lem 0 4 0 (1 ∷ 2 ∷ 3 ∷ []) (record disk { fat = set disk.fat 0 0xc0 }) refl
      (omega arith) refl (omega arith) (omega arith)

store-get_example :
    (st : Stored) × (store_file 0 false (1 ∷ 2 ∷ 3 ∷ []) disk ≡ ok st)
    × (get_loop 0 false 4 st.first (st.hi * 256 + st.lo) st.store [] ≡ ok (1 ∷ 2 ∷ 3 ∷ []))
unfolding granfree
store-get_example = store-get 0 (1 ∷ 2 ∷ 3 ∷ []) disk refl (omega arith) (omega arith) (omega arith)

store-get_short_example :
    (st : Stored) × (store_file 0 false (replicate 256 7) disk ≡ ok st)
    × (get_loop 0 false 257 st.first (st.hi * 256 + st.lo) st.store [] ≡ ok [])
unfolding granfree
store-get_short_example =
    store-get_short 0 (replicate 256 7) disk refl (omega arith) (omega arith) (omega arith)
      (omega arith)

-- An image of zeros, where each granule leads to granule 0
abbrev options : Options
options = record { offset = 0; trans = false; deftype = 0; defaflag = 0; mbr = false; boot = false }

put_full_example :
    ((img' : Image) → put options (1 ∷ 2 ∷ 3 ∷ []) (65 ∷ []) disk.img ≢ ok img')
    × ((d d' : Scan)
        → find 0 disk.img (65 ∷ []) start_scan ≡ ok (false, d)
        → vacant_loop 0 disk.img 74 (record d { estate = 0 }) ≡ ok d'
        → put options (1 ∷ 2 ∷ 3 ∷ []) (65 ∷ []) disk.img ≡ fault)
unfolding loadfat granfree read_at bytes
put_full_example =
    put_full options (1 ∷ 2 ∷ 3 ∷ []) (65 ∷ []) disk.img
      (record { img = disk.img; fat = replicate 68 0 }) refl refl

put_full_test : put options (1 ∷ 2 ∷ 3 ∷ []) (65 ∷ []) disk.img ≡ fault
unfolding loadfat granfree read_at bytes find vacant_loop getentry rewound of_bytes same_bytes
put_full_test =
    let zeros : Store = record { img = disk.img; fat = replicate 68 0 } in
    let (_, faults) = put_full options (1 ∷ 2 ∷ 3 ∷ []) (65 ∷ []) disk.img zeros refl refl in
    faults _ _ refl refl

-- Granules 0 and 1 link to each other.
abbrev cyclic : List ℕ
cyclic = 1 ∷ 0 ∷ replicate 66 0xff

cyclic-IsTable : IsTable cyclic
unfolding is_last
cyclic-IsTable = (refl, codes)
  where
    codes : (x : ℕ) → x < fatz → IsCode (get_or cyclic x 0)
    codes zero l = inr (omega arith)
    codes (suc zero) l = inr (omega arith)
    codes (suc (suc x)) l = inl (ap is_last (get_or-replicate 66 0xff x (omega arith)))

delchain_total_example :
    (fat : List ℕ) × (delchain 0 cyclic ≡ some fat) × IsTable fat × Frees cyclic fat
delchain_total_example = delchain_total 0 cyclic cyclic-IsTable (inr (omega arith))
