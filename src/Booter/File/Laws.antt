-- ===== src/Booter/File/Laws.antt =====
-- The open file of booter/booter.c as a stream of bytes.
use fip.Base.{
  drop-drop, ℕ, zero, suc, ◌+◌, ◌-◌, ◌*◌, ◌%◌, ◌^◌, ◌≤◌, ◌<◌, ◌≡◌, refl, sym, ap, ap₂, ◌∙◌, ◌≢◌,
  ◌⊎◌, inl, inr, Option, none, some, List, [], ◌++◌, append_assoc, arith, ltb, ◌==◌, if◌then◌else◌,
  Option-cases, ==_iff, compare_cases, length, take, drop, take-add, if-false, ==_ne, length-take,
  u16, if-true, length-drop, take_all, length-append,
}
use native.Mathlib.Decide.{ℕ_discrete}
use fip.Booter.File.{
  Device, File, dev_read, bmap, past_end, outside, got, copy_out, iread, blocksize,
}

module _ (dev : Device) (part_offset : ℕ) where
  -- Block `k` of the file, as the device has it.
  unfoldable pub block : List ℕ → List ℕ → ℕ → List ℕ
  block i_addr idir k = elim (bmap i_addr idir k) [
    | none ↦ []
    | some blk ↦ elim (dev.reads ((blk + part_offset) % 2 ^ 32)) [ none ↦ [] | some c ↦ c ]
  ]

  unfoldable pub blocks : ℕ → List ℕ → List ℕ → ℕ → List ℕ
  blocks zero i_addr idir k = []
  blocks (suc n) i_addr idir k = block i_addr idir k ++ blocks n i_addr idir (k + 1)

  -- What is still to be read.
  unfoldable pub pending : File → List ℕ
  pending f = take f.left (drop f.bpos f.dbuf) ++ blocks (f.epos - f.spos) f.i_addr f.idir f.spos

  -- A file whose blocks can be read, in the middle of its entries.
  pub record IsOpened (f : File) : Type 0 where
    pub within : f.spos ≤ f.epos
    pub few : f.epos < 2 ^ 16 - 1
    pub whole : (k : ℕ) → k < f.epos → length (block f.i_addr f.idir k) ≡ 512
    pub held : f.left ≢ 0 → (f.bpos + f.left ≡ 512) × (length f.dbuf ≡ 512)
    pub aligned : f.left % 32 ≡ 0

  -- One entry out of a buffer.
  copy_out_lem :
      (f : File)
      → IsOpened f
      → f.left ≢ 0
      → (b : List ℕ) × (f' : File) × (copy_out 32 f ≡ got b f')
        × (pending f ≡ b ++ pending f')
        × (length b ≡ 32)
        × IsOpened f'
  unfolding copy_out pending
  copy_out_lem f v ne = elim (compare_cases f.left 32) [
    | inl less ↦ absurd (omega (arith, v.aligned, less, ne))
    | inr more ↦
        let n : (if ltb 32 f.left then 32 else f.left) ≡ 32 = ground (arith, more) in
        let (place, size) = v.held ne in
        let f' : File = record f { left = f.left - 32; bpos = f.bpos + 32 } in
        let b = take 32 (drop f.bpos f.dbuf) in
        let least : 32 ≤ f.left = ground (arith, more) in
        (
          b,
          f',
          rw (n, copy_out) refl,
          ap (λ xs. xs ++ blocks (f.epos - f.spos) f.i_addr f.idir f.spos)
                (ap (λ k. take k (drop f.bpos f.dbuf)) (omega (arith, least))
                  ∙ sym (take-add 32 (f.left - 32) (drop f.bpos f.dbuf))
                  ∙ ap (λ xs. b ++ take (f.left - 32) xs) (drop-drop f.bpos 32 f.dbuf))
              ∙ append_assoc b (take (f.left - 32) (drop (f.bpos + 32) f.dbuf)) _,
          omega (
            arith,
            length-take 32 (drop f.bpos f.dbuf),
            length-drop f.bpos f.dbuf,
            place,
            size,
            least,
          ),
          record {
            within = v.within;
            few = v.few;
            whole = v.whole;
            held = λ n. (omega (arith, place, least), size);
            aligned = omega (arith, v.aligned, least);
          },
        )
  ]

  pub block-read :
      (i_addr idir : List ℕ) (k : ℕ)
      → length (block i_addr idir k) ≡ 512
      → (blk : ℕ) × (bmap i_addr idir k ≡ some blk)
        × ((old : List ℕ) → dev_read dev part_offset old blk ≡ block i_addr idir k)
  unfolding block dev_read
  block-read i_addr idir k l = elim (Option-cases (bmap i_addr idir k)) [
    | inl missing ↦ absurd (omega (arith, l, ap length (empty missing)))
    | inr (blk, there) ↦ elim (Option-cases (dev.reads ((blk + part_offset) % 2 ^ 32))) [
      | inl fails ↦ absurd (omega (arith, l, ap length (unread blk there fails)))
      | inr (c, read) ↦ (blk, there, λ old. rw (there, block, read, dev_read) refl)
    ]
  ]
    where
      empty : bmap i_addr idir k ≡ none → block i_addr idir k ≡ []
      empty e = rw (e, block) refl

      unread :
          (blk : ℕ)
          → bmap i_addr idir k ≡ some blk
          → dev.reads ((blk + part_offset) % 2 ^ 32) ≡ none
          → block i_addr idir k ≡ []
      unread blk e d = rw (e, block, d) refl

  -- The next block in the data buffer.
  abbrev pub loaded : File → ℕ → File
  loaded f blk = record f {
    dbuf = dev_read dev part_offset f.dbuf blk;
    spos = u16 (f.spos + 1);
    bpos = 0;
    left = blocksize;
  }

  loaded_lem :
      (f : File) (blk : ℕ)
      → IsOpened f
      → f.left ≡ 0
      → f.spos < f.epos
      → dev_read dev part_offset f.dbuf blk ≡ block f.i_addr f.idir f.spos
      → IsOpened (loaded f blk) × (pending f ≡ pending (loaded f blk))
  unfolding pending blocks
  loaded_lem f blk v dry l e =
      let next : u16 (f.spos + 1) ≡ f.spos + 1 = omega (arith, l, v.few) in
      let size : length (dev_read dev part_offset f.dbuf blk) ≡ 512 =
        ap length e ∙ v.whole f.spos l in
      let rounds : f.epos - f.spos ≡ suc (f.epos - (f.spos + 1)) = omega (arith, l) in
      (
        record {
          within = omega (arith, next, l);
          few = v.few;
          whole = v.whole;
          held = λ n. (omega arith, size);
          aligned = omega arith;
        },
        ap₂ (λ k n. take k (drop f.bpos f.dbuf) ++ blocks n f.i_addr f.idir f.spos) dry rounds
            ∙ ap₂ (λ b k. b ++ blocks (f.epos - k) f.i_addr f.idir k)
                (sym e
                  ∙ sym (take_all 512 (dev_read dev part_offset f.dbuf blk) (omega (arith, size))))
                (sym next),
      )

  pub iread_lem :
      (f : File)
      → IsOpened f
      → ((pending f ≡ []) × (iread dev part_offset 32 f ≡ past_end))
        ⊎ ((b : List ℕ) × (f' : File) × (iread dev part_offset 32 f ≡ got b f')
            × (pending f ≡ b ++ pending f')
            × (length b ≡ 32)
            × IsOpened f')
  unfolding iread pending blocks
  iread_lem f v = elim (ℕ_discrete f.left 0) [
    | no ne ↦
        let (b, f', e, p, r, v₁) = copy_out_lem f v ne in
        inr (b, f', if-false {b = f.left == 0} _ _ (==_ne f.left 0 ne) ∙ e, p, r, v₁)
    | yes dry ↦ elim (ℕ_discrete f.spos f.epos) [
      | yes ends ↦
          let none_left : f.epos - f.spos ≡ 0 = omega (arith, ends) in
          inl (
            ap₂ (λ k n. take k (drop f.bpos f.dbuf) ++ blocks n f.i_addr f.idir f.spos) dry
                none_left,
            if-true {b = f.left == 0} _ _ ((==_iff f.left 0).1 dry)
                ∙ if-true {b = f.spos == f.epos} _ _ ((==_iff f.spos f.epos).1 ends),
          )
      | no more ↦
          let l : f.spos < f.epos = omega (arith, more, v.within) in
          let (blk, there, read) = block-read f.i_addr f.idir f.spos (v.whole f.spos l) in
          let (v₁, same) = loaded_lem f blk v dry l (read f.dbuf) in
          let (b, f', e, p, r, v₂) =
            copy_out_lem (loaded f blk) v₁ (λ n. absurd (omega (arith, n))) in
          inr (
            b,
            f',
            if-true {b = f.left == 0} _ _ ((==_iff f.left 0).1 dry)
                ∙ if-false {b = f.spos == f.epos} _ _ (==_ne f.spos f.epos more)
                ∙ ap
                    (λ (o : Option ℕ). elim o [
                      | none ↦ outside
                      | some blk ↦ copy_out 32 (loaded f blk)
                    ])
                    there
                ∙ e,
            same ∙ p,
            r,
            v₂,
          )
    ]
  ]

  pub length-blocks :
      (n : ℕ) (i_addr idir : List ℕ) (k : ℕ)
      → ((j : ℕ) → j < k + n → length (block i_addr idir j) ≡ 512)
      → length (blocks n i_addr idir k) ≡ 512 * n
  unfolding blocks
  length-blocks zero i_addr idir k h = omega arith
  length-blocks (suc n) i_addr idir k h = omega (
    arith,
    length-append (block i_addr idir k) (blocks n i_addr idir (k + 1)),
    h k (omega arith),
    length-blocks n i_addr idir (k + 1) (λ j l. h j (omega arith)),
  )

  -- A file that was just opened is a sequence of whole entries.
  pub length-pending :
      (f : File) → IsOpened f → f.left ≡ 0 → f.spos ≡ 0 → length (pending f) ≡ 32 * (16 * f.epos)
  unfolding pending
  length-pending f v dry begin = omega (
    arith,
    length-append (take f.left (drop f.bpos f.dbuf))
        (blocks (f.epos - f.spos) f.i_addr f.idir f.spos),
    length-take f.left (drop f.bpos f.dbuf),
    dry,
    begin,
    length-blocks (f.epos - f.spos) f.i_addr f.idir f.spos
        (λ j l. v.whole j (omega (arith, l, begin))),
  )
