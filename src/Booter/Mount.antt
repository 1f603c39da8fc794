-- ===== src/Booter/Mount.antt =====
-- `mount` of booter/booter.c, with the table of partitions in the first block of a disk.
pub mod Laws
use fip.Base.{
  ℕ, zero, suc, ◌+◌, ◌-◌, ◌*◌, ◌/◌, ◌%◌, ◌^◌, ◌≤◌, ◌<◌, min, bit_and, bit_or, ◌≡◌, refl, sym, ap,
  ap₂, ◌∙◌, subst, ◌≢◌, ◌↔◌, ◌⊎◌, inl, inr, Bool, true, false, ◌&&◌, ◌||◌, not, Option, none, some,
  List, [], ◌∷◌, ◌++◌, append-nil, append_assoc, arith, ltb, leb, ◌==◌, if◌then◌else◌, Bool-cases,
  Option-cases, ltb→lt, lt→ltb, le→ltb, ==_iff, compare_cases, length, get_elem?, get_or, set, take,
  drop, replicate, All, u16,
}
use fip.Booter.File.{overwrite, Device, word_at}

abbrev pub long_at : List ℕ → ℕ → ℕ
long_at b k = word_at b k * 2 ^ 16 + word_at b (k + 2)

-- The four bytes at `k` are turned round in the buffer, and read.
unfoldable pub swizzle32 : ℕ → List ℕ → List ℕ × ℕ
swizzle32 k b =
    let s0 = get_or b k 0 in
    let s1 = get_or b (k + 1) 0 in
    let b₁ = set b k (get_or b (k + 3) 0) in
    let b₂ = set b₁ (k + 1) (get_or b₁ (k + 2) 0) in
    let b₃ = set b₂ (k + 2) s1 in let b₄ = set b₃ (k + 3) s0 in (b₄, long_at b₄ k)

-- 0 for a block with the magic number
abbrev pub mbr_magic : List ℕ → ℕ
mbr_magic b = if get_or b 510 0 == 0x55 && get_or b 511 0 == 0xaa then 0 else 1

-- `MAGIC` and `ROOT`
abbrev pub magic : ℕ
magic = 0x31c6

abbrev pub root : ℕ
root = 1

pub record System : Type 0 where
  pub buf : List ℕ
  pub part_offset : ℕ
  pub mountf : ℕ
  pub cd : ℕ

-- `mounts` and `bad` are the results 0 and -1; `wild` is an access outside of `buf`.
pub data Mounted : Type 0 where
  mounts bad : System → Mounted
  wild : Mounted

-- The label `bad`
abbrev pub fails : System → Mounted
fails s = bad (record s { mountf = 0 })

-- The address of `p[minor-1].lba_first`, behind `buf`, in 16 bits
abbrev pub lba_first : ℕ → ℕ
lba_first minor = u16 (446 + 16 * u16 (minor + 0xffff) + 8)

-- What `mount` does with the first block in `buf`
unfoldable pub partition : ℕ → ℕ → System → Mounted
unfolding swizzle32
partition minor part s =
    let (b, start) = swizzle32 (lba_first minor) s.buf in
    if mbr_magic s.buf == 0
    then if part == 0
      then mounts s
      else if ltb 512 (lba_first minor + 4)
      then wild
      else mounts (record s { buf = b; part_offset = start })
    else if part == 0
    then mounts (record s { part_offset = 0 })
    else fails (record s { part_offset = 0 })

module _ (dev_init : ℕ → ℕ) (dev : Device) where
  -- A block that cannot be read
  abbrev pub cannot_read : ℕ → System → Mounted
  cannot_read place s = fails (record s { buf = overwrite (dev.front place) s.buf })

  -- The super block
  unfoldable pub super_block : System → Mounted
  super_block s = elim (dev.reads ((1 + s.part_offset) % 2 ^ 32)) [
    | none ↦ cannot_read ((1 + s.part_offset) % 2 ^ 32) s
    | some c ↦
        let s₁ : System = record s { buf = c } in
        if word_at c 0 == magic then mounts (record s₁ { mountf = 1; cd = root }) else fails s₁
  ]

  -- `mounts` of `partition` is its going on.
  abbrev pub and_super : Mounted → Mounted
  and_super (mounts s) = super_block s
  and_super (bad s) = bad s
  and_super wild = wild

  unfoldable pub mount : ℕ → ℕ → System → Mounted
  unfolding partition super_block
  mount minor part s =
      if not (dev_init minor == 0) then fails s else elim (dev.reads (s.part_offset % 2 ^ 32)) [
        | none ↦ cannot_read (s.part_offset % 2 ^ 32) s
        | some c ↦ and_super (partition minor part (record s { buf = c }))
      ]
