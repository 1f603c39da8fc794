-- ===== src/Booter/Boot.antt =====
-- `boot` of booter/booter.c: it reads the sections of a kernel file into the memory file, from the
-- device right into the window where a whole block fits there.
pub mod Stream
pub mod Rounds
pub mod Loads
pub mod Sections
use fip.Base.{
  ℕ, zero, suc, ◌+◌, ◌-◌, ◌%◌, ◌^◌, Bool, ◌&&◌, not, none, some, List, ltb, ◌==◌, if◌then◌else◌,
  length, get_or, u16,
}
use fip.Booter.File.{Read, Device, File, word_at, bmap, past_end, outside, refused, got, iread}
use fip.Booter.Memory.{Memory, mseek, write_some, mwrite}

-- The call of `error` that it ends by, a key that stops it, or a count with the file and the memory
-- behind it. `astray` is an access outside of `idir`, and `unfinished` a run that its fuel did not
-- suffice for.
pub data Outcome : Type 0 where
  error : ℕ → Outcome
  stopped astray unfinished : Outcome
  loaded : ℕ → File → Memory → Outcome

abbrev pub and_then : Outcome → (ℕ → File → Memory → Outcome) → Outcome
and_then (error e) k = error e
and_then stopped k = stopped
and_then astray k = astray
and_then unfinished k = unfinished
and_then (loaded n f m) k = k n f m

-- `m`, the bytes that a round takes at most
abbrev pub at_most : ℕ → ℕ → ℕ
at_most todo mleft = let m = if ltb todo mleft then todo else mleft in if ltb m 512 then m else 512

-- `mwrite` of a buffer, with rounds enough, and the bytes that it wrote
unfoldable pub write_all : File → List ℕ → Memory → Outcome
unfolding mwrite
write_all f xs m = elim (mwrite (length xs + 1) xs m) [
  | none ↦ unfinished
  | some m' ↦ loaded (length xs) f m'
]

-- What is done behind the reading of a header; `PRE` is 0.
abbrev pub headed : (List ℕ → File → Outcome) → Memory → Read → Outcome
headed next m past_end = error 3
headed next m outside = astray
headed next m (refused f) = error 3
headed next m (got h f) =
    if not (length h == 5)
    then error 3
    else if not (get_or h 0 0 == 0)
    then loaded (word_at h 3) f m
    else next h f

module _ (dev : Device) (part_offset : ℕ) where
  -- From the device right into the window
  unfoldable pub direct : File → Memory → Outcome
  unfolding write_some
  direct f m = if f.spos == f.epos then error 7 else elim (bmap f.i_addr f.idir f.spos) [
    | none ↦ astray
    | some blk ↦ elim (dev.reads ((blk + part_offset) % 2 ^ 32)) [
      | none ↦ error 6
      | some c ↦ loaded 512 (record f { spos = u16 (f.spos + 1) }) (write_some 512 c m)
    ]
  ]

  -- Through `tmp`
  unfoldable pub buffered : ℕ → File → Memory → Outcome
  unfolding iread write_all
  buffered todo f m = elim (iread dev part_offset todo f) [
    | past_end ↦ error 4
    | outside ↦ astray
    | refused f' ↦ error 5
    | got xs f' ↦ write_all f' xs m
  ]

  -- A round of the inner loop, behind the key, with the bytes that it took
  unfoldable pub some_bytes : ℕ → File → Memory → Outcome
  unfolding direct buffered
  some_bytes todo f m =
      if at_most todo m.mleft == 512 && f.left == 0 then direct f m else buffered todo f m

  -- `iscntldown` at each time it is asked is a parameter, and `t` the times that it was.
  module _ (cntl : ℕ → Bool) where
    unfoldable pub load_loop : ℕ → ℕ → ℕ → File → Memory → Outcome
    unfolding some_bytes
    load_loop zero todo t f m = unfinished
    load_loop (suc n) todo t f m =
        let next : ℕ → File → Memory → Outcome = λ k f' m'. load_loop n (todo - k) (t + 1) f' m' in
        if todo == 0
        then loaded t f m
        else if cntl t
        then stopped
        else and_then (some_bytes todo f m) next

    -- A section behind its header
    unfoldable pub section : List ℕ → ℕ → File → Memory → Outcome
    unfolding load_loop mseek
    section h t f m = load_loop (word_at h 1 + 1) (word_at h 1) t f (mseek (word_at h 3) m)

    -- The outer loop, up to a header that is not one of a section, and the address in that one
    unfoldable pub boot_loop : ℕ → ℕ → File → Memory → Outcome
    unfolding section iread
    boot_loop zero t f m = unfinished
    boot_loop (suc n) t f m =
        headed (λ h f'. and_then (section h t f' m) (boot_loop n)) m (iread dev part_offset 5 f)
