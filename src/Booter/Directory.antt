-- ===== src/Booter/Directory.antt =====
-- Directories and paths of booter/booter.c: `lookup`, `dopath` and `open`.
pub mod Laws
use fip.Base.{
  ℕ, zero, suc, ◌+◌, ◌-◌, ◌*◌, ◌/◌, ◌%◌, ◌^◌, ◌≤◌, ◌<◌, min, bit_and, bit_or, ◌≡◌, refl, sym, ap,
  ap₂, ◌∙◌, subst, ◌≢◌, ◌↔◌, ◌⊎◌, inl, inr, Bool, true, false, ◌&&◌, ◌||◌, not, Option, none, some,
  List, [], ◌∷◌, ◌++◌, append-nil, append_assoc, arith, ltb, leb, ◌==◌, if◌then◌else◌, Bool-cases,
  Option-cases, ltb→lt, lt→ltb, le→ltb, ==_iff, compare_cases, length, get_elem?, get_or, set, take,
  drop, replicate, All, same_bytes,
}
use fip.Booter.File.{Device, File, word_at, iopen, Read, past_end, outside, refused, got, iread}

-- The file that is open, and the static entry of `lookup`.
pub record Disk : Type 0 where
  pub file : File
  pub d : List ℕ

-- `found` with what `lookup` or `dopath` returns, of which 0xffff is the -1; `wild` is an access
-- outside of a buffer, and `unfinished` means that the model's fuel ran out.
pub data Found : Type 0 where
  found : ℕ → Disk → Found
  wild unfinished : Found

-- `!strcmp(d.name, name)`, where `beyond` is the byte behind `d` in memory, and `name` is no longer
-- than 30 bytes.
unfoldable pub has_name : ℕ → List ℕ → List ℕ → Bool
has_name beyond name d =
    same_bytes (take (length name + 1) (drop 2 d ++ beyond ∷ [])) (name ++ 0 ∷ [])

module _ (dev : Device) (part_offset beyond : ℕ) where
  -- The loop of `lookup`.
  unfoldable pub lookup_loop : ℕ → List ℕ → Disk → Found
  lookup_loop zero name s = unfinished
  lookup_loop (suc f) name s = elim (iread dev part_offset 32 s.file) [
    | past_end ↦ found 0xffff s
    | outside ↦ wild
    | refused file ↦
        let s' : Disk = record { file = file; d = s.d } in
        let rest = lookup_loop f name s' in
        if has_name beyond name s.d then found (word_at s.d 0) s' else rest
    | got b file ↦
        let s' : Disk = record { file = file; d = b ++ drop (length b) s.d } in
        let rest = lookup_loop f name s' in
        if has_name beyond name s'.d then found (word_at s'.d 0) s' else rest
  ]

  -- `i.i_mode & F_DIR == 0` is `i.i_mode & 0`.

  unfoldable pub lookup : ℕ → ℕ → List ℕ → Disk → Found
  lookup f ino name s =
      let s' : Disk = record s { file = iopen dev part_offset ino s.file } in
      let looped = lookup_loop f name s' in
      if not (bit_and s'.file.i_mode 0 == 0) then found 0xffff s' else looped
