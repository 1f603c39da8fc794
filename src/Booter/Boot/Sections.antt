-- ===== src/Booter/Boot/Sections.antt =====
-- The outer loop of `boot` loads a kernel, section by section.
use fip.Base.{
  ℕ, zero, suc, ◌+◌, ◌-◌, ◌*◌, ◌/◌, ◌%◌, ◌^◌, ◌≤◌, ◌<◌, ◌≡◌, refl, sym, ap, ap₂, ◌∙◌, subst, ◌≢◌,
  ◌⊎◌, inl, inr, Bool, false, not, List, [], ◌∷◌, ◌++◌, arith, ltb, ◌==◌, if◌then◌else◌, ==_iff,
  length, get_or, ==_ne, if-true, if-false, take_all, drop_all, length-append,
}
use fip.Booter.File.{Device, File, word_at, iread, got}
use fip.Booter.File.Laws.{pending}
use fip.Booter.Memory.{Memory, mseek, with_bytes}
use fip.Booter.Memory.Laws.{mseek-IsMapped}
use fip.Booter.Boot.{Outcome, loaded, and_then, headed, section, load_loop, boot_loop}
use fip.Booter.Boot.Stream.{IsReadable, iread-Reads, pending-more, length-pending_left}
use fip.Booter.Boot.Rounds.{same_front}
use fip.Booter.Boot.Loads.{Loads, load_loop_lem}

-- The address of a section and its bytes
abbrev pub Section : Type 0
Section = ℕ × List ℕ

abbrev pub header : Section → List ℕ
header (a, xs) = 0 ∷ length xs / 256 ∷ length xs % 256 ∷ a / 256 ∷ a % 256 ∷ []

unfoldable pub kernel : List Section → List ℕ → List ℕ
kernel [] end = end
kernel (s ∷ ss) end = header s ++ (s.1 ++ kernel ss end)

unfoldable pub memory_with : List Section → (ℕ → ℕ) → ℕ → ℕ
memory_with [] ram = ram
memory_with (s ∷ ss) ram = memory_with ss (with_bytes (s.0) (s.1) ram)

-- No header reaches from one block of the file into the next one; the file ends with a block.
abbrev pub IsUnbroken : ℕ → Type 0
IsUnbroken n = (n % 512 ≡ 0) ⊎ (5 ≤ n % 512)

abbrev pub AreLoadable : List Section → List ℕ → Type 0
AreLoadable [] end = IsUnbroken (length end)
AreLoadable ((a, xs) ∷ ss) end =
    (a + length xs < 2 ^ 16) × IsUnbroken (length (kernel ((a, xs) ∷ ss) end)) × AreLoadable ss end

-- A read of five bytes in one block
five :
    (l k : ℕ)
    → l ≤ 512
    → IsUnbroken (l + 512 * k)
    → (if l == 0 then (if ltb 5 512 then 5 else 512) else if ltb 5 l then 5 else l) ≡ 5
five l k h (inl e) = ground (arith, e, h)
five l k h (inr e) = ground (arith, e, h)

module _ (dev : Device) (part_offset : ℕ) where
  header_read :
      (f : File) (h rest : List ℕ)
      → IsReadable dev part_offset f
      → length h ≡ 5
      → pending dev part_offset f ≡ h ++ rest
      → IsUnbroken (length (h ++ rest))
      → (f' : File) × (iread dev part_offset 5 f ≡ got h f')
        × IsReadable dev part_offset f'
        × (pending dev part_offset f' ≡ rest)
  header_read f h rest v size front u =
      let some_more : 0 < length (pending dev part_offset f) =
        omega (arith, ap length front, length-append h rest, size) in
      let (b, f', e, p, r, v') =
        iread-Reads dev part_offset 5 f v (omega arith)
          (pending-more dev part_offset f v some_more) in
      let small : f.left ≤ 512 = elim v.buffer [
        | inl q ↦ omega (arith, q)
        | inr z ↦ omega (arith, z)
      ] in
      let all : length b ≡ 5 =
        r
        ∙ five f.left (f.epos - f.spos) small (
            subst IsUnbroken (sym (ap length front) ∙ length-pending_left dev part_offset f v) u) in
      let (same, behind) =
        same_front b (pending dev part_offset f') h rest (sym p ∙ front)
          (omega (arith, all, size)) in
      (
        f',
        e ∙ ap (λ t. got t f') (same ∙ take_all (length b) h (omega (arith, all, size))),
        v',
        behind ∙ ap (λ t. t ++ rest) (drop_all (length b) h (omega (arith, all, size))),
      )

  module _ (cntl : ℕ → Bool) (quiet : (t : ℕ) → cntl t ≡ false) where
    -- The kernel is in memory, and its last header is read.
    pub record Boots (ss : List Section) (end : List ℕ) (m : Memory) (r : Outcome) : Type 0 where
      pub file : File
      pub memory : Memory
      pub outcome : r ≡ loaded (word_at end 3) file memory
      pub stored : (q : ℕ) → memory.ram q ≡ memory_with ss m.ram q

    section-Loads :
        (a : ℕ) (xs rest : List ℕ) (t : ℕ) (f : File) (m : Memory)
        → a + length xs < 2 ^ 16
        → IsReadable dev part_offset f
        → pending dev part_offset f ≡ xs ++ rest
        → Loads dev part_offset cntl quiet xs rest
            (mseek a m)
            (section dev part_offset cntl (header (a, xs)) t f m)
    unfolding section
    section-Loads a xs rest t f m low v front =
        let len : length xs / 256 * 256 + length xs % 256 ≡ length xs = omega arith in
        let at_a : a / 256 * 256 + a % 256 ≡ a = omega arith in
        subst (Loads dev part_offset cntl quiet xs rest (mseek a m))
          (ap₂ (λ n p. load_loop dev part_offset cntl (n + 1) n t f (mseek p m)) (sym len)
            (sym at_a))
          (load_loop_lem dev part_offset cntl quiet (length xs + 1) t f (mseek a m) xs rest v
            (mseek-IsMapped a m) front low (omega arith))

    pub boot_loop_lem :
        (n t : ℕ) (f : File) (m : Memory) (ss : List Section) (end tail : List ℕ)
        → IsReadable dev part_offset f
        → pending dev part_offset f ≡ kernel ss (end ++ tail)
        → AreLoadable ss (end ++ tail)
        → length end ≡ 5
        → get_or end 0 0 ≢ 0
        → length ss < n
        → Boots ss end m (boot_loop dev part_offset cntl n t f m)
    unfolding boot_loop kernel memory_with
    boot_loop_lem zero t f m ss end tail v front ok size flag fuel = absurd (omega (arith, fuel))
    boot_loop_lem (suc n) t f m [] end tail v front u size flag fuel =
        let next : List ℕ → File → Outcome = λ h f'.
          and_then (section dev part_offset cntl h t f' m) (boot_loop dev part_offset cntl n) in
        let (f', e, v', behind) = header_read f end tail v size front u in
        record {
          file = f';
          memory = m;
          outcome =
              ap (headed next m) e
              ∙ if-false {b = not (length end == 5)} _ _ (ap not ((==_iff (length end) 5).1 size))
              ∙ if-true {b = not (get_or end 0 0 == 0)} _ _
                  (ap not (==_ne (get_or end 0 0) 0 flag));
          stored = λ q. refl;
        }
    boot_loop_lem (suc n) t f m ((a, xs) ∷ ss) end tail v front (low, u, ok) size flag fuel =
        let next : List ℕ → File → Outcome = λ h f'.
          and_then (section dev part_offset cntl h t f' m) (boot_loop dev part_offset cntl n) in
        let h = header (a, xs) in
        let (f', e, v', behind) =
          header_read f h (xs ++ kernel ss (end ++ tail)) v (omega arith) front u in
        let got_it = section-Loads a xs (kernel ss (end ++ tail)) t f' m low v' behind in
        let later =
          boot_loop_lem n got_it.count got_it.file got_it.memory ss end tail got_it.readable
            got_it.left_over ok size flag (omega (arith, fuel)) in
        record {
          file = later.file;
          memory = later.memory;
          outcome =
              ap (headed next m) e
              ∙ ap (λ r. and_then r (boot_loop dev part_offset cntl n)) got_it.outcome
              ∙ later.outcome;
          stored = λ q. later.stored q ∙ ap (λ r. memory_with ss r q) (λ i p. got_it.stored p i);
        }
