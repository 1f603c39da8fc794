-- ===== src/Booter/Mount/Laws.antt =====
-- The partition that `mount` takes.
use fip.Base.{
  ℕ, ◌+◌, ◌-◌, ◌*◌, ◌%◌, ◌^◌, ◌≤◌, ◌<◌, ◌≡◌, refl, ap, ◌∙◌, ◌≢◌, not, Option, none, some, List,
  arith, ltb, ◌==◌, if◌then◌else◌, le→ltb, ==_iff, length, get_or, set, get_or-set_self,
  get_or-set_ne, length-set, if-true, if-false, ==_ne,
}
use fip.Booter.File.{Device, word_at}
use fip.Booter.Mount.{
  swizzle32, mbr_magic, magic, root, System, mounts, fails, lba_first, partition, super_block,
  and_super, cannot_read, mount,
}

-- Four bytes, the lowest first
abbrev pub little : List ℕ → ℕ → ℕ
little b k =
    get_or b k 0
    + 2 ^ 8 * get_or b (k + 1) 0
    + 2 ^ 16 * get_or b (k + 2) 0
    + 2 ^ 24 * get_or b (k + 3) 0

ne : (a b : ℕ) → a < b → a ≢ b
ne a b l e = absurd (omega (arith, l, e))

ne' : (a b : ℕ) → b < a → a ≢ b
ne' a b l e = absurd (omega (arith, l, e))

-- The four stores of `swizzle32`, one behind the other
swizzled :
    (k : ℕ) (b : List ℕ)
    → k + 4 ≤ length b
    → let s0 = get_or b k 0 in
      let s1 = get_or b (k + 1) 0 in
      let b₁ = set b k (get_or b (k + 3) 0) in
      let b₂ = set b₁ (k + 1) (get_or b₁ (k + 2) 0) in
      let b₄ = set (set b₂ (k + 2) s1) (k + 3) s0 in
      (get_or b₄ k 0 ≡ get_or b (k + 3) 0)
      × (get_or b₄ (k + 1) 0 ≡ get_or b (k + 2) 0)
      × (get_or b₄ (k + 2) 0 ≡ s1)
      × (get_or b₄ (k + 3) 0 ≡ s0)
swizzled k b h =
    let s0 = get_or b k 0 in
    let s1 = get_or b (k + 1) 0 in
    let b₁ = set b k (get_or b (k + 3) 0) in
    let b₂ = set b₁ (k + 1) (get_or b₁ (k + 2) 0) in
    let b₃ = set b₂ (k + 2) s1 in
    let l₁ : length b₁ ≡ length b = length-set b k _ in
    let l₂ : length b₂ ≡ length b = length-set b₁ (k + 1) _ ∙ l₁ in
    let l₃ : length b₃ ≡ length b = length-set b₂ (k + 2) _ ∙ l₂ in
    (
      get_or-set_ne b₃ (k + 3) k s0 0 (ne' _ _ (omega arith))
          ∙ get_or-set_ne b₂ (k + 2) k s1 0 (ne' _ _ (omega arith))
          ∙ get_or-set_ne b₁ (k + 1) k _ 0 (ne' _ _ (omega arith))
          ∙ get_or-set_self b k _ 0 (omega (arith, h)),
      get_or-set_ne b₃ (k + 3) (k + 1) s0 0 (ne' _ _ (omega arith))
          ∙ get_or-set_ne b₂ (k + 2) (k + 1) s1 0 (ne' _ _ (omega arith))
          ∙ get_or-set_self b₁ (k + 1) _ 0 (omega (arith, h, l₁))
          ∙ get_or-set_ne b k (k + 2) _ 0 (ne _ _ (omega arith)),
      get_or-set_ne b₃ (k + 3) (k + 2) s0 0 (ne' _ _ (omega arith))
          ∙ get_or-set_self b₂ (k + 2) s1 0 (omega (arith, h, l₂)),
      get_or-set_self b₃ (k + 3) s0 0 (omega (arith, h, l₃)),
    )

swizzle32_lem : (k : ℕ) (b : List ℕ) → k + 4 ≤ length b → (swizzle32 k b).1 ≡ little b k
unfolding swizzle32
swizzle32_lem k b h =
    let s0 = get_or b k 0 in
    let b₁ = set b k (get_or b (k + 3) 0) in
    let b₂ = set b₁ (k + 1) (get_or b₁ (k + 2) 0) in
    let b₄ = set (set b₂ (k + 2) (get_or b (k + 1) 0)) (k + 3) s0 in
    let (e₀, e₁, e₂, e₃) = swizzled k b h in
    let last : get_or b₄ (k + 2 + 1) 0 ≡ get_or b₄ (k + 3) 0 =
      ap (λ j. get_or b₄ j 0) (omega arith) in
    omega (arith, e₀, e₁, e₂, e₃, last)

super_block_lem :
    (dev_init : ℕ → ℕ) (dev : Device) (s : System) (start : ℕ) (sb : List ℕ)
    → s.part_offset ≡ start
    → dev.reads ((1 + start) % 2 ^ 32) ≡ some sb
    → word_at sb 0 ≡ magic
    → super_block dev_init dev s
      ≡ mounts (record { buf = sb; part_offset = start; mountf = 1; cd = root })
unfolding super_block
super_block_lem dev_init dev s start sb at second good =
    ap
      (λ (o : Option (List ℕ)). elim o [
        | none ↦ cannot_read dev_init dev ((1 + s.part_offset) % 2 ^ 32) s
        | some c ↦
            if word_at c 0 == magic
            then mounts (record { buf = c; part_offset = s.part_offset; mountf = 1; cd = root })
            else fails (record s { buf = c })
      ])
      (ap (λ p. dev.reads ((1 + p) % 2 ^ 32)) at ∙ second)
    ∙ if-true {b = word_at sb 0 == magic} _ _ ((==_iff (word_at sb 0) magic).1 good)
    ∙ ap (λ p. mounts (record { buf = sb; part_offset = p; mountf = 1; cd = root })) at

partition_lem :
    (minor part : ℕ) (s : System)
    → 1 ≤ minor
    → minor ≤ 4
    → 1 ≤ part
    → length s.buf ≡ 512
    → mbr_magic s.buf ≡ 0
    → (b : List ℕ) × (partition minor part s
        ≡ mounts (record s { buf = b; part_offset = little s.buf (454 + 16 * (minor - 1)) }))
unfolding partition
partition_lem minor part s low high pos size sign =
    let at : lba_first minor ≡ 454 + 16 * (minor - 1) = omega (arith, low, high) in
    let inside : lba_first minor + 4 ≤ 512 = omega (arith, at, high) in
    let swapped = swizzle32 (lba_first minor) s.buf in
    (
      swapped.0,
      if-true {b = mbr_magic s.buf == 0} _ _ ((==_iff (mbr_magic s.buf) 0).1 sign)
          ∙ if-false {b = part == 0} _ _ (==_ne part 0 (λ e. absurd (omega (arith, e, pos))))
          ∙ if-false {b = ltb 512 (lba_first minor + 4)} _ _
              (le→ltb 512 (lba_first minor + 4) inside)
          ∙ ap (λ p. mounts (record s { buf = swapped.0; part_offset = p }))
              (swizzle32_lem (lba_first minor) s.buf (omega (arith, inside, size))
                ∙ ap (little s.buf) at),
    )

-- Let the driver start, the first block be a table of partitions, and a partition be asked for.
-- If the block behind the start of entry `minor - 1` of that table, for `minor` from 1 to 4, is a
-- super block, then `mount` mounts the file system there, whichever partition was asked for, at
-- the root.
pub mount_lem :
    (dev_init : ℕ → ℕ) (dev : Device) (minor part : ℕ) (s : System) (mbr sb : List ℕ)
    → dev_init minor ≡ 0
    → 1 ≤ minor
    → minor ≤ 4
    → 1 ≤ part
    → dev.reads (s.part_offset % 2 ^ 32) ≡ some mbr
    → length mbr ≡ 512
    → mbr_magic mbr ≡ 0
    → dev.reads ((1 + little mbr (454 + 16 * (minor - 1))) % 2 ^ 32) ≡ some sb
    → word_at sb 0 ≡ magic
    → mount dev_init dev minor part s
      ≡ mounts (record {
        buf = sb;
        part_offset = little mbr (454 + 16 * (minor - 1));
        mountf = 1;
        cd = root;
      })
unfolding mount
mount_lem dev_init dev minor part s mbr sb init low high pos first size sign second good =
    let (b, e) = partition_lem minor part (record s { buf = mbr }) low high pos size sign in
    let start = little mbr (454 + 16 * (minor - 1)) in
    if-false {b = not (dev_init minor == 0)} _ _ (ap not ((==_iff (dev_init minor) 0).1 init))
    ∙ ap
        (λ (o : Option (List ℕ)). elim o [
          | none ↦ cannot_read dev_init dev (s.part_offset % 2 ^ 32) s
          | some c ↦ and_super dev_init dev (partition minor part (record s { buf = c }))
        ])
        first
    ∙ ap (and_super dev_init dev) e
    ∙ super_block_lem dev_init dev (record s { buf = b; part_offset = start }) start sb refl second
        good
