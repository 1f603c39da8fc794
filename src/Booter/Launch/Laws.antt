-- ===== src/Booter/Launch/Laws.antt =====
-- What is in memory before the jump.
use fip.Base.{
  ℕ, ◌+◌, ◌/◌, ◌%◌, ◌^◌, ◌<◌, ◌≡◌, ap, ap₂, ◌∙◌, ◌≢◌, Bool, false, none, some, List, [], ◌∷◌, ◌++◌,
  arith, ◌==◌, length, get_or, take, if-false, ==_ne,
}
use fip.Booter.File.{Device, File, iopen}
use fip.Booter.File.Laws.{pending}
use fip.Booter.Directory.{Disk, found}
use fip.Booter.Paths.{dopath}
use fip.Booter.Memory.{Memory, mseek, with_bytes}
use fip.Booter.Memory.Laws.{IsMapped, mseek-IsMapped, mwrite_lem}
use fip.Booter.Boot.{unfinished, loaded, and_then, write_all}
use fip.Booter.Boot.Stream.{IsReadable}
use fip.Booter.Boot.Sections.{Section, kernel, memory_with, AreLoadable, boot_loop_lem}
use fip.Booter.Launch.{strlen, launch, boot_inode, opened, boot}
use fip.Booter.File.{word_at}

write_all_lem :
    (f : File) (xs : List ℕ) (m : Memory)
    → IsMapped m
    → m.paddr + length xs < 2 ^ 16
    → (m' : Memory) × (write_all f xs m ≡ loaded (length xs) f m')
      × IsMapped m'
      × (m'.paddr ≡ m.paddr + length xs)
      × ((q : ℕ) → m'.ram q ≡ with_bytes m.paddr xs m.ram q)
unfolding write_all
write_all_lem f xs m w low =
    let (m', e, w', at, ram) = mwrite_lem (length xs + 1) xs m w (omega arith) low in
    (m', ap (λ o. elim o [ none ↦ unfinished | some m₁ ↦ loaded (length xs) f m₁ ]) e, w', at, ram)

-- The code at 0, behind it the address, and the command line at 0x88
abbrev pub ready_memory : List ℕ → List ℕ → ℕ → (ℕ → ℕ) → ℕ → ℕ
ready_memory bounce cmd a ram =
    with_bytes 0x88 (take (strlen cmd + 1) cmd)
      (with_bytes (length bounce) (a / 256 ∷ a % 256 ∷ []) (with_bytes 0 bounce ram))

launch_lem :
    (bounce cmd : List ℕ) (a : ℕ) (f : File) (m : Memory)
    → length bounce < 2 ^ 15
    → length (take (strlen cmd + 1) cmd) < 2 ^ 15
    → (k : ℕ) × (m' : Memory) × (launch bounce cmd a f m ≡ loaded k f m')
      × ((q : ℕ) → m'.ram q ≡ ready_memory bounce cmd a m.ram q)
unfolding launch mseek
launch_lem bounce cmd a f m short line =
    let args = take (strlen cmd + 1) cmd in
    let code : List ℕ = a / 256 ∷ a % 256 ∷ [] in
    let (m₁, e₁, w₁, at₁, ram₁) =
      write_all_lem f bounce (mseek 0 m) (mseek-IsMapped 0 m) (omega (arith, short)) in
    let behind : m₁.paddr ≡ length bounce = omega (arith, at₁) in
    let (m₂, e₂, w₂, at₂, ram₂) = write_all_lem f code m₁ w₁ (omega (arith, at₁, short)) in
    let (m₃, e₃, w₃, at₃, ram₃) =
      write_all_lem f args (mseek 0x88 m₂) (mseek-IsMapped 0x88 m₂) (omega (arith, line)) in
    (
      length args,
      m₃,
      ap
            (λ r. and_then r (λ k f₁ m₁.
              and_then (write_all f₁ code m₁) (λ k' f₂ m₂. write_all f₂ args (mseek 0x88 m₂))))
            e₁
          ∙ ap (λ r. and_then r (λ k' f₂ m₂. write_all f₂ args (mseek 0x88 m₂))) e₂
          ∙ e₃,
      λ q.
          ram₃ q
          ∙ ap (λ r. with_bytes 0x88 args r q) (λ i p. ram₂ p i)
          ∙ ap₂ (λ at r. with_bytes 0x88 args (with_bytes at code r) q) behind (λ i p. ram₁ p i),
    )

module _ (dev : Device) (part_offset beyond : ℕ) (cntl : ℕ → Bool)
    (quiet : (t : ℕ) → cntl t ≡ false) where
  -- Let no key be down, `dopath` find an inode, its blocks be readable and fewer than 65535, and
  -- its file be sections that each end below `2 ^ 16`, then five bytes that do not begin by 0,
  -- then anything; and let no header reach from one block of the file into the next. With more
  -- rounds than sections `boot` ends without an error. Memory then holds the bytes of the
  -- sections at their addresses, a later one over an earlier one, whether they came right from
  -- the device or through the buffer; over them the code for the jump at 0, behind it the address
  -- of the last header, and the command line at 0x88; and is otherwise as it was.
  pub boot_lem :
      (n g f : ℕ) (bounce cmd name : List ℕ) (cd ino : ℕ) (disk disk' : Disk) (m : Memory)
      (ss : List Section) (end tail : List ℕ)
      → dopath dev part_offset beyond g f name cd disk ≡ found ino disk'
      → ino ≢ 0xffff
      → IsReadable dev part_offset (iopen dev part_offset ino disk'.file)
      → pending dev part_offset (iopen dev part_offset ino disk'.file) ≡ kernel ss (end ++ tail)
      → AreLoadable ss (end ++ tail)
      → length end ≡ 5
      → get_or end 0 0 ≢ 0
      → length bounce < 2 ^ 15
      → length (take (strlen cmd + 1) cmd) < 2 ^ 15
      → length ss < n
      → (k : ℕ) × (file : File) × (m' : Memory) × (boot dev part_offset beyond cntl n g f bounce cmd
            name cd disk m
          ≡ loaded k file m')
        × ((q : ℕ) → m'.ram q ≡ ready_memory bounce cmd (word_at end 3) (memory_with ss m.ram) q)
  unfolding boot boot_inode
  boot_lem n g f bounce cmd name cd ino disk disk' m ss end tail there real v front ok size flag
        short line fuel =
      let boots =
        boot_loop_lem dev part_offset cntl quiet n 0 (iopen dev part_offset ino disk'.file) m ss end
          tail v front ok size flag fuel in
      let (k, m', e, ram) =
        launch_lem bounce cmd (word_at end 3) boots.file boots.memory short line in
      (
        k,
        boots.file,
        m',
        ap
              (opened dev part_offset beyond cntl
                (λ i d. boot_inode dev part_offset beyond cntl n bounce cmd i d m))
              there
            ∙ if-false {b = ino == 0xffff} _ _ (==_ne ino 0xffff real)
            ∙ ap (λ r. and_then r (launch bounce cmd)) boots.outcome
            ∙ e,
        λ q.
            ram q ∙ ap (λ r. ready_memory bounce cmd (word_at end 3) r q) (λ i p. boots.stored p i),
      )
