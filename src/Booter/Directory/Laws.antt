-- ===== src/Booter/Directory/Laws.antt =====
-- `lookup` of booter/booter.c on a directory.
use fip.Base.{
  drop-append_length, ℕ, zero, suc, ◌*◌, ◌<◌, bit_and, ◌≡◌, refl, sym, ap, ap₂, ◌∙◌, inl, inr,
  false, not, List, ◌++◌, append-nil, arith, ◌==◌, if◌then◌else◌, Bool-cases, ==_iff, length, take,
  drop, length-append, drop_all, take-append_length, if-true, if-false, bit_and_zero,
}
use fip.Booter.File.{Device, word_at, iopen, Read, past_end, outside, refused, got}
use fip.Booter.File.Laws.{pending, IsOpened, iread_lem, length-pending}
use fip.Booter.Directory.{Disk, Found, found, wild, has_name, lookup_loop, lookup}

-- The inode of the first of `k` entries that has the name, or the -1.
unfoldable pub first_named : ℕ → ℕ → List ℕ → List ℕ → ℕ
first_named zero beyond name entries = 0xffff
first_named (suc k) beyond name entries =
    let rest = first_named k beyond name (drop 32 entries) in
    if has_name beyond name (take 32 entries) then word_at (take 32 entries) 0 else rest

module _ (dev : Device) (part_offset beyond : ℕ) (name : List ℕ) where
  -- A round of the loop with what `iread` returns.
  abbrev looked : ℕ → Read → Disk → Found
  looked f r s = elim r [
    | past_end ↦ found 0xffff s
    | outside ↦ wild
    | refused file ↦
        let s' : Disk = record { file = file; d = s.d } in
        if has_name beyond name s.d
        then found (word_at s.d 0) s'
        else lookup_loop dev part_offset beyond f name s'
    | got b file ↦
        let s' : Disk = record { file = file; d = b ++ drop (length b) s.d } in
        if has_name beyond name s'.d
        then found (word_at s'.d 0) s'
        else lookup_loop dev part_offset beyond f name s'
  ]

  lookup_loop_lem :
      (k f : ℕ) (s : Disk)
      → IsOpened dev part_offset s.file
      → length (pending dev part_offset s.file) ≡ 32 * k
      → k < f
      → length s.d ≡ 32
      → (s' : Disk) × (lookup_loop dev part_offset beyond f name s
          ≡ found (first_named k beyond name (pending dev part_offset s.file)) s')
        × (length s'.d ≡ 32)
  unfolding lookup_loop first_named
  lookup_loop_lem k zero s v l fuel size = absurd (omega arith)
  lookup_loop_lem zero (suc f) s v l fuel size = elim (iread_lem dev part_offset s.file v) [
    | inl (_, e) ↦ (s, rw (e, lookup_loop) refl, size)
    | inr (b, file, _, p, lb, _) ↦
        absurd (omega (arith, l, ap length p, length-append b (pending dev part_offset file), lb))
  ]
  lookup_loop_lem (suc k) (suc f) s v l fuel size = elim (iread_lem dev part_offset s.file v) [
    | inl (nil, _) ↦ absurd (omega (arith, l, ap length nil))
    | inr (b, file, e, p, lb, v') ↦
        let rest = pending dev part_offset file in
        let shorter : length rest ≡ 32 * k =
          omega (arith, l, ap length p, length-append b rest, lb) in
        let d : b ++ drop (length b) s.d ≡ b =
          ap (λ t. b ++ t) (drop_all (length b) s.d (omega (arith, lb, size))) ∙ append-nil b in
        let s' : Disk = record { file = file; d = b ++ drop (length b) s.d } in
        let front : take 32 (pending dev part_offset s.file) ≡ b =
          ap (take 32) p ∙ ap (λ n. take n (b ++ rest)) (sym lb) ∙ take-append_length b rest in
        let behind : drop 32 (pending dev part_offset s.file) ≡ rest =
          ap (drop 32) p ∙ ap (λ n. drop n (b ++ rest)) (sym lb) ∙ drop-append_length b rest in
        let (s'', later, size') =
          lookup_loop_lem k f s' v' shorter (omega (arith, fuel))
            (omega (arith, ap length d, lb)) in
        let step : lookup_loop dev part_offset beyond (suc f) name s ≡ (
            if has_name beyond name b
            then found (word_at b 0) s'
            else lookup_loop dev part_offset beyond f name s') =
          ap (λ r. looked f r s) e
          ∙ ap
              (λ t.
                if has_name beyond name t
                then found (word_at t 0) s'
                else lookup_loop dev part_offset beyond f name s')
              d in
        let first : first_named (suc k) beyond name (pending dev part_offset s.file)
            ≡ (if has_name beyond name b then word_at b 0 else first_named k beyond name rest) =
          ap₂ (λ t r. if has_name beyond name t then word_at t 0 else first_named k beyond name r)
            front behind in
        elim (Bool-cases (has_name beyond name b)) [
          | inl here ↦ (
            s',
            step ∙ if-true _ _ here ∙ ap (λ n. found n s') (sym (first ∙ if-true _ _ here)),
            omega (arith, ap length d, lb),
          )
          | inr other ↦ (
            s'',
            step
                ∙ if-false _ _ other
                ∙ later
                ∙ ap (λ n. found n s'') (sym (first ∙ if-false _ _ other)),
            size',
          )
        ]
  ]

  -- Let all blocks of an inode be readable, through its direct and its indirect addresses, and
  -- fewer than 65535. With a round for each of its 16 entries in a block and one more, `lookup`
  -- returns the number in the first entry with the name, or -1 where none has it.
  pub lookup_lem :
      (f ino : ℕ) (s : Disk)
      → let opened = iopen dev part_offset ino s.file in
        IsOpened dev part_offset opened
        → 16 * opened.epos < f
        → length s.d ≡ 32
        → (s' : Disk) × (lookup dev part_offset beyond f ino name s
            ≡ found
                (first_named (16 * opened.epos) beyond name (pending dev part_offset opened))
                s')
          × (length s'.d ≡ 32)
  unfolding lookup iopen
  lookup_lem f ino s v fuel size =
      let opened = iopen dev part_offset ino s.file in
      let s₁ : Disk = record { file = opened; d = s.d } in
      let (s', e, size') =
        lookup_loop_lem (16 * opened.epos) f s₁ v
          (length-pending dev part_offset opened v refl refl) fuel size in
      let never : not (bit_and opened.i_mode 0 == 0) ≡ false =
        ap not ((==_iff (bit_and opened.i_mode 0) 0).1 (bit_and_zero opened.i_mode)) in
      (s', if-false _ _ never ∙ e, size')
