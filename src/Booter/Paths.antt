-- ===== src/Booter/Paths.antt =====
-- Paths of booter/booter.c: `dopath` and `open`. A path is a list of bytes other than NUL.
pub mod Laws
use fip.Base.{
  ℕ, zero, suc, ◌+◌, ◌-◌, ◌*◌, ◌/◌, ◌%◌, ◌^◌, ◌≤◌, ◌<◌, min, bit_and, bit_or, ◌≡◌, refl, sym, ap,
  ap₂, ◌∙◌, subst, ◌≢◌, ◌↔◌, ◌⊎◌, inl, inr, Bool, true, false, ◌&&◌, ◌||◌, not, Option, none, some,
  List, [], ◌∷◌, ◌++◌, append-nil, append_assoc, arith, ltb, leb, ◌==◌, if◌then◌else◌, Bool-cases,
  Option-cases, ltb→lt, lt→ltb, le→ltb, ==_iff, compare_cases, length, get_elem?, get_or, set, take,
  drop, replicate, All,
}
use fip.Booter.File.{Device, File, iopen}
use fip.Booter.Directory.{Disk, Found, found, wild, unfinished, lookup}

-- `while (*s == '/') s++`
unfoldable pub skip_slashes : List ℕ → List ℕ
skip_slashes [] = []
skip_slashes (x ∷ xs) = let rest = skip_slashes xs in if x == 47 then rest else x ∷ xs

-- What is copied to `c`, and what stays of the path
unfoldable pub component : List ℕ → List ℕ × List ℕ
component [] = ([], [])
component (x ∷ xs) = let (c, rest) = component xs in if x == 47 then ([], x ∷ xs) else (x ∷ c, rest)

module _ (dev : Device) (part_offset beyond : ℕ) where
  -- The loop of `dopath`; the array `c` has 31 bytes. `f` is the fuel of each `lookup`.
  unfoldable pub dopath_loop : ℕ → ℕ → List ℕ → ℕ → Disk → Found
  dopath_loop zero f s ino disk = unfinished
  dopath_loop (suc g) f s ino disk =
      let (c, rest) = component (skip_slashes s) in
      let looked : Found = elim (lookup dev part_offset beyond f ino c disk) [
        | found ino' disk' ↦ dopath_loop g f rest ino' disk'
        | wild ↦ wild
        | unfinished ↦ unfinished
      ] in
      if length s == 0 || ino == 0xffff
      then found ino disk
      else if ltb 30 (length c)
      then wild
      else looked

  -- `dopath`, where the root is inode 1
  unfoldable pub dopath : ℕ → ℕ → List ℕ → ℕ → Disk → Found
  dopath g f [] cd disk = dopath_loop g f [] cd disk
  dopath g f (x ∷ xs) cd disk =
      if x == 47 then dopath_loop g f xs 1 disk else dopath_loop g f (x ∷ xs) cd disk
