-- ===== src/Compress/Dictionary.antt =====
-- The dictionary of uncompress/compress.c: `adddict`, `buildstr` and `exist`. The arrays and
-- `cleardict` are those of uncompress/uncompress.c.
pub mod Laws
use fip.Base.{
  ℕ, zero, suc, ◌+◌, ◌-◌, ◌*◌, ◌/◌, ◌%◌, ◌^◌, ◌≤◌, ◌<◌, min, bit_and, bit_or, ◌≡◌, refl, sym, ap,
  ap₂, ◌∙◌, subst, ◌≢◌, ◌↔◌, ◌⊎◌, inl, inr, Bool, true, false, ◌&&◌, ◌||◌, not, Option, none, some,
  List, [], ◌∷◌, ◌++◌, append-nil, append_assoc, arith, ltb, leb, ◌==◌, if◌then◌else◌, Bool-cases,
  Option-cases, ltb→lt, lt→ltb, le→ltb, ==_iff, compare_cases, length, get_elem?, get_or, set, take,
  drop, replicate, All, same_bytes, u8, u16,
}
use fip.Uncompress.Table.{Table, store}

-- Whether the dictionary is full, and the dictionary. The code may also grow.
unfoldable pub adddict : ℕ → ℕ → Table → Bool × Table
adddict prefix suffix t =
    let full = t.nexti == 2 ^ t.bits in
    let t' = record t {
      ref = store t.ref t.nexti prefix;
      app = store t.app t.nexti (u8 suffix);
      nexti = u16 (t.nexti + 1);
      bits = if full then t.bits + 1 else t.bits;
    } in
    if full && not (ltb t.bits t.mymaxbits) then (true, t) else (false, t')

-- `buildstr` from `entry` on, with so many places left in front of `p`, and what stands behind it;
-- `none` where it writes in front of the buffer.
unfoldable pub buildstr : ℕ → List ℕ → Table → ℕ → Option (List ℕ)
buildstr zero behind t entry = none
buildstr (suc places) behind t entry =
    let rest = buildstr places (u8 (t.app entry) ∷ behind) t (t.ref entry) in
    if ltb entry 256 then some (u8 entry ∷ behind) else rest

pub data Found : Type 0 where
  at : ℕ → Found
  missing overrun : Found

-- The loop of `exist` from `h` on, with `k` rounds left.
unfoldable pub exist_from : ℕ → ℕ → List ℕ → Table → Found
exist_from zero h s t = missing
exist_from (suc k) h s t =
    let rest = exist_from k (h + 1) s t in
    elim (buildstr 256 [] t h) [
      | none ↦ overrun
      | some s1 ↦
          if not (length s == length s1) then rest else if same_bytes s s1 then at h else rest
    ]

-- `exist`: the string of the prefix stands in front of the suffix in `st`.
unfoldable pub exist : ℕ → ℕ → Table → Found
exist prefix suffix t = elim (buildstr 256 (u8 suffix ∷ []) t prefix) [
  | none ↦ overrun
  | some s ↦ exist_from (t.nexti - 257) 257 s t
]
