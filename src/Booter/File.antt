-- ===== src/Booter/File.antt =====
-- The open file of booter/booter.c: `iopen`, `bmap` and `iread`. Numbers on the disk are big-endian,
-- as the processor is.
pub mod Laws
use fip.Base.{
  ℕ, zero, suc, ◌+◌, ◌-◌, ◌*◌, ◌/◌, ◌%◌, ◌^◌, ◌≤◌, ◌<◌, min, bit_and, bit_or, ◌≡◌, refl, sym, ap,
  ap₂, ◌∙◌, subst, ◌≢◌, ◌↔◌, ◌⊎◌, inl, inr, Bool, true, false, ◌&&◌, ◌||◌, not, Option, none, some,
  List, [], ◌∷◌, ◌++◌, append-nil, append_assoc, arith, ltb, leb, ◌==◌, if◌then◌else◌, Bool-cases,
  Option-cases, ltb→lt, lt→ltb, le→ltb, ==_iff, compare_cases, length, get_elem?, get_or, set, take,
  drop, replicate, All, u16,
}

-- `_dev_read`: the 512 bytes of a block, or nothing where it fails. A failure has stored the first bytes
-- of the buffer that are in `front`, 512 at most.
pub record Device : Type 0 where
  pub reads : ℕ → Option (List ℕ)
  pub front : ℕ → List ℕ

-- A buffer with other bytes in front
abbrev pub overwrite : List ℕ → List ℕ → List ℕ
overwrite xs b = xs ++ drop (length xs) b

-- The inode that is open, and the state of the reading.
pub record File : Type 0 where
  pub i_mode : ℕ
  pub i_size : ℕ
  pub i_addr : List ℕ
  pub idir : List ℕ
  pub buf : List ℕ
  pub dbuf : List ℕ
  pub left : ℕ
  pub bpos : ℕ
  pub spos : ℕ
  pub epos : ℕ

abbrev pub blocksize : ℕ
blocksize = 512

abbrev pub word_at : List ℕ → ℕ → ℕ
word_at b k = get_or b k 0 * 256 + get_or b (k + 1) 0

-- An array of words.
unfoldable pub words : ℕ → List ℕ → List ℕ
words zero b = []
words (suc n) b = word_at b 0 ∷ words n (drop 2 b)

-- `bmap` on the globals; `none` is an access outside of `idir`.
unfoldable pub bmap : List ℕ → List ℕ → ℕ → Option ℕ
bmap i_addr idir spos =
    if ltb spos 18 then some (get_or i_addr spos 0) else get_elem? (words 256 idir) (spos - 18)

pub data Read : Type 0 where
  past_end outside : Read
  refused : File → Read
  got : List ℕ → File → Read

-- `iread` with a data buffer that is not used up
unfoldable pub copy_out : ℕ → File → Read
copy_out n f =
    let n' = if ltb n f.left then n else f.left in
    if n' == 0
    then refused f
    else got (take n' (drop f.bpos f.dbuf)) (record f { left = f.left - n'; bpos = f.bpos + n' })

module _ (dev : Device) (part_offset : ℕ) where
  -- What a buffer holds behind `dev_read`; no caller below looks at its result.
  unfoldable pub dev_read : List ℕ → ℕ → List ℕ
  dev_read b blk =
      let place = (blk + part_offset) % 2 ^ 32 in
      elim (dev.reads place) [ none ↦ overwrite (dev.front place) b | some c ↦ c ]

  -- The index of single indirect blocks, as bytes in the buffer `idir`
  unfoldable pub iopen : ℕ → File → File
  iopen ino f =
      let buf = dev_read f.buf (2 + ino / 8) in
      let node = drop (ino % 8 * 64) buf in
      let i_addr = words 20 (drop 24 node) in
      let i_size = word_at node 8 * 2 ^ 16 + word_at node 10 in
      record f {
        buf = buf;
        i_mode = word_at node 0;
        i_size = i_size;
        i_addr = i_addr;
        idir = dev_read f.idir (get_or i_addr 18 0);
        left = 0;
        spos = 0;
        epos = u16 ((i_size + 0x1ff) % 2 ^ 32 / 2 ^ 9);
      }

  unfoldable pub iread : ℕ → File → Read
  unfolding copy_out
  iread n f =
      if f.left == 0
      then (if f.spos == f.epos then past_end else elim (bmap f.i_addr f.idir f.spos) [
        | none ↦ outside
        | some blk ↦ copy_out n (record f {
          dbuf = dev_read f.dbuf blk;
          spos = u16 (f.spos + 1);
          bpos = 0;
          left = blocksize;
        })
      ])
      else copy_out n f
