-- ===== src/Booter/Launch.antt =====
-- `boot` of booter/booter.c from the path of a kernel to what is put at the bottom of memory before
-- the jump there, with `open`, which it calls.
pub mod Laws
use fip.Base.{
  ℕ, zero, suc, ◌+◌, ◌-◌, ◌*◌, ◌/◌, ◌%◌, ◌^◌, ◌≤◌, ◌<◌, min, bit_and, bit_or, ◌≡◌, refl, sym, ap,
  ap₂, ◌∙◌, subst, ◌≢◌, ◌↔◌, ◌⊎◌, inl, inr, Bool, true, false, ◌&&◌, ◌||◌, not, Option, none, some,
  List, [], ◌∷◌, ◌++◌, append-nil, append_assoc, arith, ltb, leb, ◌==◌, if◌then◌else◌, Bool-cases,
  Option-cases, ltb→lt, lt→ltb, le→ltb, ==_iff, compare_cases, length, get_elem?, get_or, set, take,
  drop, replicate, All,
}
use fip.Booter.File.{Device, File, iopen}
use fip.Booter.Directory.{Disk, Found, found, wild as lost, unfinished as endless}
use fip.Booter.Paths.{dopath}
use fip.Booter.Memory.{Memory, mseek}
use fip.Booter.Boot.{
  Outcome, error, stopped, astray, unfinished, loaded, and_then, write_all, boot_loop,
}

-- It counts the NUL.
unfoldable pub strlen : List ℕ → ℕ
strlen [] = 1
strlen (c ∷ s) = let n = strlen s in if c == 0 then 1 else n + 1

-- Behind the loop of `boot`: `bounce` is the code between `bounce` and `bounce_end`, `cmd` the buffer
-- of the command line, and `a` is `h.addr`.
unfoldable pub launch : List ℕ → List ℕ → ℕ → File → Memory → Outcome
unfolding strlen write_all mseek
launch bounce cmd a f m = and_then (write_all f bounce (mseek 0 m)) (λ k f₁ m₁.
    and_then (write_all f₁ (a / 256 ∷ a % 256 ∷ []) m₁)
      (λ k' f₂ m₂. write_all f₂ (take (strlen cmd + 1) cmd) (mseek 0x88 m₂)))

module _ (dev : Device) (part_offset beyond : ℕ) (cntl : ℕ → Bool) where
  -- `boot` of an inode: `open` behind `dopath`, and the rest
  unfoldable pub boot_inode : ℕ → List ℕ → List ℕ → ℕ → Disk → Memory → Outcome
  unfolding launch boot_loop iopen
  boot_inode n bounce cmd ino disk m =
      if ino == 0xffff
      then error 2
      else and_then (boot_loop dev part_offset cntl n 0 (iopen dev part_offset ino disk.file) m)
          (launch bounce cmd)

  abbrev pub opened : (ℕ → Disk → Outcome) → Found → Outcome
  opened k (found ino disk) = k ino disk
  opened k lost = astray
  opened k endless = unfinished

  unfoldable pub boot : ℕ → ℕ → ℕ → List ℕ → List ℕ → List ℕ → ℕ → Disk → Memory → Outcome
  unfolding boot_inode dopath
  boot n g f bounce cmd name cd disk m =
      opened (λ ino disk'. boot_inode n bounce cmd ino disk' m)
        (dopath dev part_offset beyond g f name cd disk)
