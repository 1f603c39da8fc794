-- ===== src/Booter/Boot/Stream.antt =====
-- The file as a stream of bytes, for reads of any length.
use native.Mathlib.Decide.{ℕ_discrete}
use fip.Base.{
  ℕ, suc, ◌+◌, ◌-◌, ◌*◌, ◌^◌, ◌≤◌, ◌<◌, min, ◌≡◌, sym, ap, ap₂, ◌∙◌, ◌≢◌, ◌⊎◌, inl, inr, Option,
  none, some, List, ◌++◌, append_assoc, arith, ltb, ◌==◌, if◌then◌else◌, ==_iff, compare_cases,
  length, take, drop, u16, drop-drop, take-add, length-take, length-drop, take_all, ==_ne, if-true,
  if-false, length-append,
}
use fip.Booter.File.{Device, File, Read, dev_read, outside, got, copy_out, iread}
use fip.Booter.File.Laws.{block, blocks, pending, block-read, loaded, length-blocks}

module _ (dev : Device) (part_offset : ℕ) where
  -- The blocks of the file can be read, and the data buffer holds one of them.
  pub record IsReadable (f : File) : Type 0 where
    pub within : f.spos ≤ f.epos
    pub few : f.epos < 2 ^ 16 - 1
    pub whole : (k : ℕ) → k < f.epos → length (block dev part_offset f.i_addr f.idir k) ≡ 512
    pub buffer : (f.bpos + f.left ≡ 512) ⊎ (f.left ≡ 0)
    pub size : f.left ≢ 0 → length f.dbuf ≡ 512

  -- How many of `n` bytes are read at once
  abbrev pub portion : ℕ → ℕ → ℕ
  portion n left =
      if left == 0 then (if ltb n 512 then n else 512) else (if ltb n left then n else left)

  -- Some bytes off the front of what is pending
  abbrev pub Reads : ℕ → File → Read → Type 0
  Reads k f r =
      (b : List ℕ) × (f' : File) × (r ≡ got b f')
      × (pending dev part_offset f ≡ b ++ pending dev part_offset f')
      × (length b ≡ k)
      × IsReadable f'

  copy_out-Reads :
      (n : ℕ) (f : File)
      → IsReadable f
      → f.left ≢ 0
      → 1 ≤ n
      → Reads (if ltb n f.left then n else f.left) f (copy_out n f)
  unfolding copy_out pending
  copy_out-Reads n f v ne pos =
      let k : ℕ = if ltb n f.left then n else f.left in
      let place : f.bpos + f.left ≡ 512 = elim v.buffer [ inl e ↦ e | inr z ↦ absurd (ne z) ] in
      let bounds : (1 ≤ k) × (k ≤ f.left) = ground (arith, ne, pos) in
      let f' : File = record f { left = f.left - k; bpos = f.bpos + k } in
      let b = take k (drop f.bpos f.dbuf) in
      (
        b,
        f',
        if-false {b = k == 0} _ _ (==_ne k 0 (λ z. absurd (omega (arith, z, bounds.0)))),
        ap (λ xs. xs ++ blocks dev part_offset (f.epos - f.spos) f.i_addr f.idir f.spos)
              (ap (λ j. take j (drop f.bpos f.dbuf)) (omega (arith, bounds.1))
                ∙ sym (take-add k (f.left - k) (drop f.bpos f.dbuf))
                ∙ ap (λ xs. b ++ take (f.left - k) xs) (drop-drop f.bpos k f.dbuf))
            ∙ append_assoc b (take (f.left - k) (drop (f.bpos + k) f.dbuf)) _,
        omega (
          arith,
          length-take k (drop f.bpos f.dbuf),
          length-drop f.bpos f.dbuf,
          place,
          v.size ne,
          bounds.1,
        ),
        record {
          within = v.within;
          few = v.few;
          whole = v.whole;
          buffer = inl (omega (arith, place, bounds.1));
          size = λ _. v.size ne;
        },
      )

  pub pending-dry :
      (f : File)
      → f.left ≡ 0
      → pending dev part_offset f ≡ blocks dev part_offset (f.epos - f.spos) f.i_addr f.idir f.spos
  unfolding pending
  pending-dry f dry =
      ap
        (λ k.
          take k (drop f.bpos f.dbuf)
          ++ blocks dev part_offset (f.epos - f.spos) f.i_addr f.idir f.spos)
        dry

  -- With the data buffer used up, the next block is in front.
  pub pending-block :
      (f : File)
      → f.left ≡ 0
      → f.spos < f.epos
      → pending dev part_offset f
        ≡ block dev part_offset f.i_addr f.idir f.spos
          ++ blocks dev part_offset (f.epos - (f.spos + 1)) f.i_addr f.idir (f.spos + 1)
  unfolding pending blocks
  pending-block f dry l =
      let rounds : f.epos - f.spos ≡ suc (f.epos - (f.spos + 1)) = omega (arith, l) in
      ap₂ (λ k n. take k (drop f.bpos f.dbuf) ++ blocks dev part_offset n f.i_addr f.idir f.spos)
        dry rounds

  loaded-IsReadable :
      (f : File) (blk : ℕ)
      → IsReadable f
      → f.left ≡ 0
      → f.spos < f.epos
      → dev_read dev part_offset f.dbuf blk ≡ block dev part_offset f.i_addr f.idir f.spos
      → IsReadable (loaded dev part_offset f blk)
        × (pending dev part_offset f ≡ pending dev part_offset (loaded dev part_offset f blk))
  unfolding pending
  loaded-IsReadable f blk v dry l e =
      let next : u16 (f.spos + 1) ≡ f.spos + 1 = omega (arith, l, v.few) in
      let size : length (dev_read dev part_offset f.dbuf blk) ≡ 512 =
        ap length e ∙ v.whole f.spos l in
      (
        record {
          within = omega (arith, next, l);
          few = v.few;
          whole = v.whole;
          buffer = inl (omega arith);
          size = λ _. size;
        },
        pending-block f dry l
            ∙ ap₂ (λ b k. b ++ blocks dev part_offset (f.epos - k) f.i_addr f.idir k)
                (sym e
                  ∙ sym (take_all 512 (dev_read dev part_offset f.dbuf blk) (omega (arith, size))))
                (sym next),
      )

  pub iread-Reads :
      (n : ℕ) (f : File)
      → IsReadable f
      → 1 ≤ n
      → (f.left ≢ 0) ⊎ (f.spos < f.epos)
      → Reads (portion n f.left) f (iread dev part_offset n f)
  unfolding iread
  iread-Reads n f v pos more = elim (ℕ_discrete f.left 0) [
    | no ne ↦
        let same : (if ltb n f.left then n else f.left) ≡ portion n f.left = ground (arith, ne) in
        let (b, f', e, p, r, v₁) = copy_out-Reads n f v ne pos in
        (b, f', if-false {b = f.left == 0} _ _ (==_ne f.left 0 ne) ∙ e, p, r ∙ same, v₁)
    | yes dry ↦
        let l : f.spos < f.epos = elim more [ inl ne ↦ absurd (ne dry) | inr l ↦ l ] in
        let (blk, there, read) =
          block-read dev part_offset f.i_addr f.idir f.spos (v.whole f.spos l) in
        let (v₁, same) = loaded-IsReadable f blk v dry l (read f.dbuf) in
        let (b, f', e, p, r, v₂) =
          copy_out-Reads n (loaded dev part_offset f blk) v₁ (λ z. absurd (omega (arith, z))) pos in
        let size : (if ltb n 512 then n else 512) ≡ portion n f.left = ground (arith, dry) in
        let behind : f.spos ≢ f.epos = λ e. absurd (omega (arith, e, l)) in
        (
          b,
          f',
          if-true {b = f.left == 0} _ _ ((==_iff f.left 0).1 dry)
              ∙ if-false {b = f.spos == f.epos} _ _ (==_ne f.spos f.epos behind)
              ∙ ap
                  (λ (o : Option ℕ). elim o [
                    | none ↦ outside
                    | some blk ↦ copy_out n (loaded dev part_offset f blk)
                  ])
                  there
              ∙ e,
          same ∙ p,
          r ∙ size,
          v₂,
        )
  ]

  -- Where something is pending there is something to read.
  pub pending-more :
      (f : File)
      → IsReadable f
      → 0 < length (pending dev part_offset f)
      → (f.left ≢ 0) ⊎ (f.spos < f.epos)
  unfolding pending blocks
  pending-more f v h = elim (ℕ_discrete f.left 0) [
    | no ne ↦ inl ne
    | yes dry ↦ elim (compare_cases f.spos f.epos) [
      | inl l ↦ inr l
      | inr g ↦
          let none_left : f.epos - f.spos ≡ 0 = ground (arith, g) in
          absurd (
            omega (
              arith,
              h,
              ap length (
                  ap₂
                    (λ k n.
                      take k (drop f.bpos f.dbuf)
                      ++ blocks dev part_offset n f.i_addr f.idir f.spos)
                    dry none_left),
            ))
    ]
  ]

  -- What is pending ends with a block.
  pub length-pending_left :
      (f : File)
      → IsReadable f
      → length (pending dev part_offset f) ≡ f.left + 512 * (f.epos - f.spos)
  unfolding pending
  length-pending_left f v =
      let later =
        length-blocks dev part_offset (f.epos - f.spos) f.i_addr f.idir f.spos
          (λ j l. v.whole j (omega (arith, l, v.within))) in
      let front : length (take f.left (drop f.bpos f.dbuf)) ≡ min f.left (length f.dbuf - f.bpos) =
        length-take f.left (drop f.bpos f.dbuf) ∙ ap (min f.left) (length-drop f.bpos f.dbuf) in
      let all =
        length-append (take f.left (drop f.bpos f.dbuf))
          (blocks dev part_offset (f.epos - f.spos) f.i_addr f.idir f.spos) in
      elim (ℕ_discrete f.left 0) [
        | yes dry ↦ omega (arith, later, front, all, dry)
        | no ne ↦ elim v.buffer [
          | inl e ↦ omega (arith, later, front, all, e, v.size ne)
          | inr z ↦ absurd (ne z)
        ]
      ]
