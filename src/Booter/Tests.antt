-- ===== src/Booter/Tests.antt =====
-- Runs of the model of booter/booter.c, and its theorems at a concrete disk.
use fip.Base.{
  ℕ, zero, suc, ◌*◌, ◌<◌, ◌≡◌, refl, some, List, [], ◌∷◌, ◌++◌, arith, ◌==◌, if◌then◌else◌, length,
  replicate, same_bytes, false, inl, inr,
}
use fip.Booter.File.{Device, File, words, dev_read, iopen, bmap}
use fip.Booter.File.Laws.{block, blocks, pending, IsOpened}
use fip.Booter.Directory.{Disk, found, has_name, lookup}
use fip.Booter.Directory.Laws.{first_named, lookup_lem}
use fip.Booter.Memory.{Memory, mseek, with_bytes, mwrite}
use fip.Booter.Memory.Laws.{IsMapped, mseek-IsMapped, mwrite_lem}
use fip.Booter.Boot.{loaded}
use fip.Booter.Boot.Stream.{IsReadable}
use fip.Booter.Boot.Sections.{Section, kernel, memory_with, AreLoadable}
use fip.Booter.Launch.{strlen, boot}
use fip.Booter.Launch.Laws.{ready_memory, boot_lem}
use fip.Booter.Mount.{mount, mounts}
use fip.Booter.Mount.Laws.{mount_lem}
use fip.Booter.Paths.{dopath}
use fip.Booter.Paths.Laws.{IsDirectory, Resolves, here, down, dopath_lem}

-- The second inode of this block has one block.
abbrev inodes : ℕ → List ℕ
inodes blk =
    replicate 64 0
    ++ 0x41
      ∷ 0xed
      ∷ 0
      ∷ 1
      ∷ 0
      ∷ 0
      ∷ 0
      ∷ 0
      ∷ 0
      ∷ 0
      ∷ 2
      ∷ 0
      ∷ (replicate 12 0 ++ 0 ∷ blk ∷ replicate 422 0)

-- Inode 1 is a directory, block 5.
-- Its second entry is inode 9, with the name hi.
abbrev entries : List ℕ
entries = 0 ∷ 1 ∷ 46 ∷ (replicate 29 0 ++ 0 ∷ 9 ∷ 104 ∷ 105 ∷ replicate 476 0)

-- Block 6, the file of inode 9, is a kernel of three bytes for 0x4000.
abbrev sections : List Section
sections = (0x4000, 1 ∷ 2 ∷ 3 ∷ []) ∷ []

abbrev last_header : List ℕ
last_header = 0xff ∷ 0 ∷ 0 ∷ 0x40 ∷ 0 ∷ []

abbrev kernel_block : List ℕ
kernel_block = 0 ∷ 0 ∷ 3 ∷ 0x40 ∷ 0 ∷ 1 ∷ 2 ∷ 3 ∷ 0xff ∷ 0 ∷ 0 ∷ 0x40 ∷ 0 ∷ replicate 499 0

abbrev device : Device
device = record {
  reads = λ blk.
      if blk == 2
      then some (inodes 5)
      else if blk == 3
      then some (inodes 6)
      else if blk == 6
      then some kernel_block
      else some entries;
  front = λ blk. [];
}

abbrev disk : Disk
disk = record {
  file = record {
    i_mode = 0;
    i_size = 0;
    i_addr = [];
    idir = replicate 512 0;
    buf = replicate 512 0;
    dbuf = replicate 512 0;
    left = 0;
    bpos = 0;
    spos = 0;
    epos = 0;
  };
  d = replicate 32 0;
}

root-IsOpened : (file : File) → IsOpened device 0 (iopen device 0 1 file)
unfolding iopen dev_read words block bmap
root-IsOpened file = record {
  within = omega arith;
  few = omega arith;
  whole = whole;
  held = λ ne. absurd (ne refl);
  aligned = refl;
}
  where
    whole :
        (k : ℕ)
        → k < (iopen device 0 1 file).epos
        → length (block device 0 (iopen device 0 1 file).i_addr (iopen device 0 1 file).idir k)
          ≡ 512
    whole zero l = refl
    whole (suc k) l = absurd (omega (arith, l))

root-IsDirectory : IsDirectory device 0 0 17 1 entries 16
unfolding iopen dev_read words block bmap pending blocks
root-IsDirectory = record {
  opened = root-IsOpened;
  stored = λ file. refl;
  count = λ file. refl;
  fuel = omega arith;
}

first_named-hi :
    first_named 16 0 (104 ∷ 105 ∷ []) (pending device 0 (iopen device 0 1 disk.file)) ≡ 9
unfolding first_named has_name pending blocks block bmap iopen dev_read words same_bytes
first_named-hi = refl

lookup_lem_example :
    let opened = iopen device 0 1 disk.file in
    (s' : Disk) × (lookup device 0 0 17 1 (104 ∷ 105 ∷ []) disk
      ≡ found (first_named (16 * opened.epos) 0 (104 ∷ 105 ∷ []) (pending device 0 opened)) s')
    × (length s'.d ≡ 32)
unfolding iopen dev_read words
lookup_lem_example =
    lookup_lem device 0 0 (104 ∷ 105 ∷ []) 17 1 disk (root-IsOpened disk.file) (omega arith) refl

hi-Resolves : Resolves device 0 0 17 1 ((104 ∷ 105 ∷ []) ∷ []) 9
unfolding first_named has_name same_bytes
hi-Resolves =
    down entries 16 (λ e. absurd (omega (arith, e))) root-IsDirectory
      (
        omega arith,
        omega arith,
        (λ e. absurd (omega (arith, e)), (λ e. absurd (omega (arith, e)), tt)),
      )
      refl here

dopath_lem_example :
    (disk' : Disk) × (dopath device 0 0 2 17 (47 ∷ 104 ∷ 105 ∷ []) 1 disk ≡ found 9 disk')
dopath_lem_example =
    dopath_lem device 0 0 17 (104 ∷ 105 ∷ []) [] 2 1 disk hi-Resolves (omega arith) refl

abbrev memory : Memory
memory = record { ram = λ q. 0; page = 0; mleft = 0; maddr = 0; paddr = 0 }

-- Two bytes, one on each side of a page's end.
mwrite_lem_example :
    (m' : Memory) × (mwrite 3 (7 ∷ 8 ∷ []) (mseek 0x3fff memory) ≡ some m')
    × IsMapped m'
    × (m'.paddr ≡ 0x4001)
    × ((q : ℕ) → m'.ram q ≡ with_bytes 0x3fff (7 ∷ 8 ∷ []) (λ q. 0) q)
unfolding mseek
mwrite_lem_example =
    mwrite_lem 3 (7 ∷ 8 ∷ []) (mseek 0x3fff memory) (mseek-IsMapped 0x3fff memory) (omega arith)
      (omega arith)

kernel-IsReadable : (file : File) → IsReadable device 0 (iopen device 0 9 file)
unfolding iopen dev_read words block bmap
kernel-IsReadable file = record {
  within = omega arith;
  few = omega arith;
  whole = whole;
  buffer = inr refl;
  size = λ ne. absurd (ne refl);
}
  where
    whole :
        (k : ℕ)
        → k < (iopen device 0 9 file).epos
        → length (block device 0 (iopen device 0 9 file).i_addr (iopen device 0 9 file).idir k)
          ≡ 512
    whole zero l = refl
    whole (suc k) l = absurd (omega (arith, l))

kernel-pending :
    (file : File)
    → pending device 0 (iopen device 0 9 file) ≡ kernel sections (last_header ++ replicate 499 0)
unfolding iopen dev_read words block bmap pending blocks kernel
kernel-pending file = refl

sections-AreLoadable : AreLoadable sections (last_header ++ replicate 499 0)
unfolding kernel
sections-AreLoadable = (omega arith, inl refl, inr (omega arith))

-- The kernel at `/hi` with the command line "x"
boot_lem_example :
    (k : ℕ) × (file : File) × (m' : Memory) × (boot device 0 0
        (λ t. false)
        2
        2
        17
        (0x12 ∷ [])
        (120 ∷ 0 ∷ 0 ∷ [])
        (47 ∷ 104 ∷ 105 ∷ [])
        1
        disk
        memory
      ≡ loaded k file m')
    × ((q : ℕ)
        → m'.ram q
          ≡ ready_memory (0x12 ∷ []) (120 ∷ 0 ∷ 0 ∷ []) 0x4000 (memory_with sections (λ q. 0)) q)
unfolding strlen
boot_lem_example =
    let path =
      dopath_lem device 0 0 17 (104 ∷ 105 ∷ []) [] 2 1 disk hi-Resolves (omega arith) refl in
    boot_lem device 0 0 (λ t. false) (λ t. refl) 2 2 17 (0x12 ∷ []) (120 ∷ 0 ∷ 0 ∷ [])
      (47 ∷ 104 ∷ 105 ∷ []) 1 9 disk path.0 memory sections last_header (replicate 499 0) path.1
      (λ e. absurd (omega (arith, e))) (kernel-IsReadable path.0.file) (kernel-pending path.0.file)
      sections-AreLoadable refl (λ e. absurd (omega (arith, e))) (omega arith) (omega arith)
      (omega arith)

-- A disk whose first partition begins at block 2
abbrev first_block : List ℕ
first_block = replicate 454 0 ++ 2 ∷ (replicate 55 0 ++ 0x55 ∷ 0xaa ∷ [])

abbrev partitioned : Device
partitioned = record {
  reads = λ blk. if blk == 0 then some first_block else some (0x31 ∷ 0xc6 ∷ replicate 510 0);
  front = λ blk. [];
}

mount_lem_example :
    mount (λ k. 0) partitioned 1 3 (record { buf = []; part_offset = 0; mountf = 0; cd = 0 })
    ≡ mounts (record { buf = 0x31 ∷ 0xc6 ∷ replicate 510 0; part_offset = 2; mountf = 1; cd = 1 })
mount_lem_example =
    mount_lem (λ k. 0) partitioned 1 3 (record { buf = []; part_offset = 0; mountf = 0; cd = 0 })
      first_block (0x31 ∷ 0xc6 ∷ replicate 510 0) refl (omega arith) (omega arith) (omega arith)
      refl refl refl refl refl
