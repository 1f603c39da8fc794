-- ===== src/Booter/Boot/Loads.antt =====
-- The inner loop of `boot` loads a section.
use fip.Base.{
  ℕ, zero, suc, ◌+◌, ◌-◌, ◌^◌, ◌<◌, ◌≡◌, refl, sym, ap, ◌∙◌, Bool, false, List, [], ◌∷◌, ◌++◌,
  arith, ◌==◌, length, drop, length-drop, ==_ne, if-false,
}
use fip.Booter.File.{Device, File}
use fip.Booter.File.Laws.{pending}
use fip.Booter.Memory.{Memory, with_bytes}
use fip.Booter.Memory.Laws.{IsMapped, with_bytes-append, with_bytes_nothing}
use fip.Booter.Boot.{Outcome, loaded, and_then, load_loop}
use fip.Booter.Boot.Stream.{IsReadable}
use fip.Booter.Boot.Rounds.{some_bytes-Took}

module _ (dev : Device) (part_offset : ℕ) (cntl : ℕ → Bool) (quiet : (t : ℕ) → cntl t ≡ false) where
  -- The data is in memory, and the file is behind it.
  pub record Loads (body rest : List ℕ) (m : Memory) (r : Outcome) : Type 0 where
    pub count : ℕ
    pub file : File
    pub memory : Memory
    pub outcome : r ≡ loaded count file memory
    pub readable : IsReadable dev part_offset file
    pub mapped : IsMapped memory
    pub left_over : pending dev part_offset file ≡ rest
    pub place : memory.paddr ≡ m.paddr + length body
    pub stored : (q : ℕ) → memory.ram q ≡ with_bytes m.paddr body m.ram q

  pub load_loop_lem :
      (n t : ℕ) (f : File) (m : Memory) (body rest : List ℕ)
      → IsReadable dev part_offset f
      → IsMapped m
      → pending dev part_offset f ≡ body ++ rest
      → m.paddr + length body < 2 ^ 16
      → length body < n
      → Loads body rest m (load_loop dev part_offset cntl n (length body) t f m)
  unfolding load_loop
  load_loop_lem zero t f m body rest v w front low fuel = absurd (omega (arith, fuel))
  load_loop_lem (suc n) t f m [] rest v w front low fuel = record {
    count = t;
    file = f;
    memory = m;
    outcome = refl;
    readable = v;
    mapped = w;
    left_over = front;
    place = omega arith;
    stored = λ q. sym (with_bytes_nothing m.paddr m.ram q);
  }
  load_loop_lem (suc n) t f m (x ∷ xs) rest v w front low fuel =
      let body : List ℕ = x ∷ xs in
      let took = some_bytes-Took dev part_offset f m body rest v w front low (omega arith) in
      let k = took.count in
      let size : length (drop k body) ≡ length body - k = length-drop k body in
      let next =
        load_loop_lem n (t + 1) took.file took.memory (drop k body) rest took.readable took.mapped
          took.left_over (omega (arith, took.place, took.some_taken.1, low, size))
          (omega (arith, size, took.some_taken.0, fuel)) in
      record {
        count = next.count;
        file = next.file;
        memory = next.memory;
        outcome =
            if-false {b = length body == 0} _ _
              (==_ne (length body) 0 (λ z. absurd (omega (arith, z))))
            ∙ if-false {b = cntl t} _ _ (quiet t)
            ∙ ap
                (λ r.
                  and_then r
                    (λ j f' m'. load_loop dev part_offset cntl n (length body - j) (t + 1) f' m'))
                took.outcome
            ∙ ap (λ j. load_loop dev part_offset cntl n j (t + 1) took.file took.memory) (sym size)
            ∙ next.outcome;
        readable = next.readable;
        mapped = next.mapped;
        left_over = next.left_over;
        place = omega (arith, next.place, took.place, size, took.some_taken.1);
        stored = λ q.
            next.stored q
            ∙ ap (λ p. with_bytes p (drop k body) took.memory.ram q) took.place
            ∙ ap (λ r. with_bytes (m.paddr + k) (drop k body) r q) (λ i p. took.stored p i)
            ∙ with_bytes-append m.paddr k body m.ram q took.some_taken.1;
      }
