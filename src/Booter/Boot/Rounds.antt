-- ===== src/Booter/Boot/Rounds.antt =====
-- A round of the inner loop of `boot`, by either way.
use fip.Base.{
  ℕ, ◌+◌, ◌-◌, ◌%◌, ◌^◌, ◌≤◌, ◌<◌, ◌≡◌, refl, sym, ap, ◌∙◌, subst, inl, inr, true, ◌&&◌, Option,
  none, some, List, [], ◌++◌, arith, ◌==◌, Bool-cases, Option-cases, length, take, drop, u16,
  take-append_le, drop-append_le, take-append_length, drop-append_length, take_all, ==_ne, if-true,
  if-false, length-append,
}
use fip.Booter.File.{Device, File, bmap, past_end, outside, refused, got}
use fip.Booter.File.Laws.{block, blocks, pending}
use fip.Booter.Memory.{Memory, with_bytes, write_some}
use fip.Booter.Memory.Laws.{IsMapped, write_some_lem, mwrite_lem}
use fip.Booter.Boot.{
  Outcome, error, astray, unfinished, loaded, at_most, write_all, direct, buffered, some_bytes,
}
use fip.Booter.Boot.Stream.{
  IsReadable, iread-Reads, pending-block, pending-dry, pending-more, portion,
}

-- What is left of the data behind a part of it
pub same_front :
    (b x body rest : List ℕ)
    → b ++ x ≡ body ++ rest
    → length b ≤ length body
    → (b ≡ take (length b) body) × (x ≡ drop (length b) body ++ rest)
same_front b x body rest e h = (
  sym (take-append_length b x) ∙ ap (take (length b)) e ∙ take-append_le (length b) body rest h,
  sym (drop-append_length b x) ∙ ap (drop (length b)) e ∙ drop-append_le (length b) body rest h,
)

module _ (dev : Device) (part_offset : ℕ) where
  -- Some of the data is off the file, and in memory.
  pub record Took (body rest : List ℕ) (m : Memory) (r : Outcome) : Type 0 where
    pub count : ℕ
    pub file : File
    pub memory : Memory
    pub outcome : r ≡ loaded count file memory
    pub some_taken : (1 ≤ count) × (count ≤ length body)
    pub readable : IsReadable dev part_offset file
    pub mapped : IsMapped memory
    pub left_over : pending dev part_offset file ≡ drop count body ++ rest
    pub place : memory.paddr ≡ m.paddr + count
    pub stored : (q : ℕ) → memory.ram q ≡ with_bytes m.paddr (take count body) m.ram q

  block-device :
      (f : File) (k : ℕ)
      → length (block dev part_offset f.i_addr f.idir k) ≡ 512
      → (blk : ℕ) × (bmap f.i_addr f.idir k ≡ some blk)
        × (dev.reads ((blk + part_offset) % 2 ^ 32)
            ≡ some (block dev part_offset f.i_addr f.idir k))
  unfolding block
  block-device f k l = elim (Option-cases (bmap f.i_addr f.idir k)) [
    | inl e ↦ absurd (omega (arith, l, ap length (missing e)))
    | inr (blk, e) ↦ elim (Option-cases (dev.reads ((blk + part_offset) % 2 ^ 32))) [
      | inl d ↦ absurd (omega (arith, l, ap length (unread blk e d)))
      | inr (c, d) ↦ (blk, e, d ∙ ap some (sym (rw (e, block, d) refl)))
    ]
  ]
    where
      missing : bmap f.i_addr f.idir k ≡ none → block dev part_offset f.i_addr f.idir k ≡ []
      missing e = rw (e, block) refl

      unread :
          (blk : ℕ)
          → bmap f.i_addr f.idir k ≡ some blk
          → dev.reads ((blk + part_offset) % 2 ^ 32) ≡ none
          → block dev part_offset f.i_addr f.idir k ≡ []
      unread blk e d = rw (e, block, d) refl

  module _ (f : File) (m : Memory) (body rest : List ℕ) (v : IsReadable dev part_offset f)
      (w : IsMapped m) (front : pending dev part_offset f ≡ body ++ rest)
      (low : m.paddr + length body < 2 ^ 16) where
    buffered-Took : 1 ≤ length body → Took body rest m (buffered dev part_offset (length body) f m)
    unfolding buffered write_all
    buffered-Took pos =
        let more =
          pending-more dev part_offset f v
            (omega (arith, ap length front, length-append body rest, pos)) in
        let (b, f', e, p, r, v') = iread-Reads dev part_offset (length body) f v pos more in
        let size : (1 ≤ length b) × (length b ≤ length body) = sizes b r pos in
        let (same, behind) =
          same_front b (pending dev part_offset f') body rest (sym p ∙ front) size.1 in
        let (m', e', w', at, ram) =
          mwrite_lem (length b + 1) b m w (omega arith) (omega (arith, low, size.1)) in
        record {
          count = length b;
          file = f';
          memory = m';
          outcome =
              ap
                (λ r'. elim r' [
                  | past_end ↦ error 4
                  | outside ↦ astray
                  | refused f₁ ↦ error 5
                  | got xs f₁ ↦ write_all f₁ xs m
                ])
                e
              ∙ ap (λ o. elim o [ none ↦ unfinished | some m₁ ↦ loaded (length b) f' m₁ ]) e';
          some_taken = size;
          readable = v';
          mapped = w';
          left_over = behind;
          place = at;
          stored = λ q. ram q ∙ ap (λ t. with_bytes m.paddr t m.ram q) same;
        }
      where
        sizes :
            (b : List ℕ)
            → length b ≡ portion dev part_offset (length body) f.left
            → 1 ≤ length body
            → (1 ≤ length b) × (length b ≤ length body)
        sizes b r pos = ground (arith, r, pos)

    direct-Took :
        512 ≤ length body
        → 512 ≤ m.mleft
        → f.left ≡ 0
        → Took body rest m (direct dev part_offset f m)
    unfolding direct
    direct-Took large room dry =
        let some_more : 0 < length (pending dev part_offset f) =
          omega (arith, ap length front, length-append body rest, large) in
        let l : f.spos < f.epos = elim (pending-more dev part_offset f v some_more) [
          | inl ne ↦ absurd (ne dry)
          | inr l ↦ l
        ] in
        let c = block dev part_offset f.i_addr f.idir f.spos in
        let size = v.whole f.spos l in
        let next : u16 (f.spos + 1) ≡ f.spos + 1 = omega (arith, l, v.few) in
        let f' : File = record f { spos = u16 (f.spos + 1) } in
        let (blk, there, read) = block-device f f.spos size in
        let (w', at, ram) =
          write_some_lem 512 c m w room (λ z. absurd (omega (arith, z, room)))
            (omega (arith, low, large)) in
        let behind : pending dev part_offset f'
            ≡ blocks dev part_offset (f.epos - (f.spos + 1)) f.i_addr f.idir (f.spos + 1) =
          pending-dry dev part_offset f' dry
          ∙ ap (λ k. blocks dev part_offset (f.epos - k) f.i_addr f.idir k) next in
        let (same, left) =
          same_front c _ body rest (sym (pending-block dev part_offset f dry l) ∙ front)
            (omega (arith, size, large)) in
        record {
          count = 512;
          file = f';
          memory = write_some 512 c m;
          outcome =
              if-false {b = f.spos == f.epos} _ _
                (==_ne f.spos f.epos (λ e. absurd (omega (arith, e, l))))
              ∙ ap
                  (λ (o : Option ℕ). elim o [
                    | none ↦ astray
                    | some b ↦ elim (dev.reads ((b + part_offset) % 2 ^ 32)) [
                      | none ↦ error 6
                      | some x ↦ loaded 512 f' (write_some 512 x m)
                    ]
                  ])
                  there
              ∙ ap
                  (λ (o : Option (List ℕ)). elim o [
                    | none ↦ error 6
                    | some x ↦ loaded 512 f' (write_some 512 x m)
                  ])
                  read;
          some_taken = (omega arith, large);
          readable = record {
            within = omega (arith, next, l);
            few = v.few;
            whole = v.whole;
            buffer = inr dry;
            size = λ ne. absurd (ne dry);
          };
          mapped = w';
          left_over = behind ∙ left ∙ ap (λ k. drop k body ++ rest) size;
          place = at;
          stored = λ q.
              ap (λ r. r q) ram
              ∙ ap (λ t. with_bytes m.paddr t m.ram q)
                  (take_all 512 c (omega (arith, size)) ∙ same ∙ ap (λ k. take k body) size);
        }

    -- By either way a round takes some of the data.
    pub some_bytes-Took :
        1 ≤ length body → Took body rest m (some_bytes dev part_offset (length body) f m)
    unfolding some_bytes
    some_bytes-Took pos = elim (Bool-cases (at_most (length body) m.mleft == 512 && f.left == 0)) [
      | inl e ↦
          let (large, room, dry) = fits (length body) m.mleft f.left e in
          subst (Took body rest m) (sym (if-true _ _ e)) (direct-Took large room dry)
      | inr e ↦ subst (Took body rest m) (sym (if-false _ _ e)) (buffered-Took pos)
    ]
      where
        fits : (n k l : ℕ) → (at_most n k == 512 && l == 0) ≡ true → (512 ≤ n) × (512 ≤ k) × (l ≡ 0)
        fits n k l e = ground (arith, e)
