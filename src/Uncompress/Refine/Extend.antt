-- ===== src/Uncompress/Refine/Extend.antt =====
-- The dictionary step: `extend` agrees with a step of the specification that learns a string.
use mathlib.Core.Path.{subst₂}
use native.Mathlib.Decide.{dec_lt}
use fip.Base.{
  ℕ, ◌+◌, ◌^◌, ◌≤◌, ◌<◌, ◌≡◌, refl, sym, ap, subst, ◌≢◌, false, some, List, [], ◌∷◌, ◌++◌, arith,
  ◌==◌, if◌then◌else◌, ==_iff, take,
}
use fip.Uncompress.Table.{Table, depth, adddict, first}
use fip.Uncompress.Table.Laws.{Spells, first_lem, Spells-adddict, Spells-new, adddict-nexti}
use fip.Uncompress.Decode.{Decoder, emit, extend}
use fip.Uncompress.Lzw.{Lzw, more, spell, learn, string_of, symbols, width}
use fip.Uncompress.Refine.Dictionary.{
  Holds, nexti-le, symbols-learn, spell-Spells, spell-defined, adddict-Holds,
}
use fip.Uncompress.Refine.Link.{Linked, Agrees, emit_lem}

extend-emit :
    (prev cur x : ℕ) (d : Decoder)
    → first depth d.table (if cur == d.table.nexti then prev else cur) ≡ some x
    → extend prev cur d ≡ emit cur (record d { table = adddict prev x d.table })
unfolding extend
extend-emit prev cur x d f = rw (f, extend) refl

-- The dictionary step: what the first byte is taken from, and what is printed after.
module _ (max : ℕ) (low : 9 ≤ max) (high : max ≤ 14) where
  module _ (prev cur : ℕ) (t : Table) (es : List (List ℕ)) {p : List ℕ} (sp : Spells t prev p)
      (below : prev < t.nexti) (h : Holds max t es) where
    nexti-le' : t.nexti ≤ 16384
    nexti-le' = nexti-le max low high h

    extends_new :
        cur ≡ t.nexti
        → cur < 2 ^ t.bits
        → (x : ℕ) × (first depth t prev ≡ some x)
          × Spells (adddict prev x t) cur (p ++ take 1 p)
          × (cur < (adddict prev x t).nexti)
          × Holds max (adddict prev x t) (learn (width max es) p (p ++ take 1 p) es)
    extends_new e l =
        let (x, r, f, q, b) = first_lem depth t sp (omega (arith, nexti-le')) in
        let ne : t.nexti ≢ 2 ^ t.bits = omega arith in
        let small : t.nexti + 1 < 65536 = omega (arith, nexti-le') in
        let gt : 256 < t.nexti = omega (arith, h.count) in
        let one : x ∷ [] ≡ take 1 p = ap (λ u. take 1 u) (sym q) in
        (
          x,
          f,
          subst₂ (λ k u. Spells (adddict prev x t) k (p ++ u)) (sym e) one
              (Spells-new prev x t ne small gt below b sp),
          omega (arith, adddict-nexti prev x t ne small),
          adddict-Holds max low high h prev x below sp (ap (λ u. u ++ take 1 p) q) b,
        )

    extends_old :
        {u : List ℕ}
        → cur < t.nexti
        → spell es cur ≡ some u
        → (x : ℕ) × (first depth t cur ≡ some x)
          × Spells (adddict prev x t) cur u
          × (cur < (adddict prev x t).nexti)
          × Holds max (adddict prev x t) (learn (width max es) p u es)
    extends_old {u} l e =
        let su = (spell-Spells max low high cur h e).0 in
        let (x, r, f, q, b) = first_lem depth t su (omega (arith, nexti-le')) in
        let h' = adddict-Holds max low high h prev x below sp q b in
        (
          x,
          f,
          Spells-adddict prev x t l su,
          omega (arith, h'.count, h.count, symbols-learn (width max es) p u es),
          h',
        )

    -- Both cases.
    extends :
        cur ≤ t.nexti
        → cur < 2 ^ t.bits
        → cur ≢ 256
        → (u : List ℕ) × (x : ℕ) × (string_of es p cur ≡ some u)
          × (first depth t (if cur == t.nexti then prev else cur) ≡ some x)
          × Spells (adddict prev x t) cur u
          × (cur < (adddict prev x t).nexti)
          × Holds max (adddict prev x t) (learn (width max es) p u es)
    unfolding string_of
    extends le l ne = elim (dec_lt cur t.nexti) [
      | yes lt ↦
          let (u, e) = spell-defined max low high cur h lt ne in
          let (x, f, s, c, h') = extends_old lt e in
          (u, x, rw (le→neq lt) e, rw (lt→neq lt) f, s, c, h')
      | no ge ↦
          let here : cur ≡ t.nexti = omega arith in
          let (x, f, s, c, h') = extends_new here l in
          (
            p ++ take 1 p,
            x,
            rw ((==_iff cur (symbols es)).1 (omega (arith, h.count))) refl,
            rw ((==_iff cur t.nexti).1 here) f,
            s,
            c,
            h',
          )
    ]
      where
        lt→neq : cur < t.nexti → (cur == t.nexti) ≡ false
        lt→neq lt = ground arith

        le→neq : cur < t.nexti → (cur == symbols es) ≡ false
        le→neq lt = ground (arith, h.count)

  pub extend_lem :
      (prev cur : ℕ) {p : List ℕ} (d : Decoder) (z : Lzw)
      → Linked d z
      → Spells d.table prev p
      → prev < d.table.nexti
      → Holds max d.table z.entries
      → (cur ≤ d.table.nexti) × (cur < 2 ^ d.table.bits) × (cur ≢ 256)
      → (u : List ℕ) × (string_of z.entries p cur ≡ some u)
        × Agrees max
            (more (record {
              entries = learn (width max z.entries) p u z.entries;
              prev = some u;
              bits = z.bits;
              out = z.out ++ u;
            }))
            (extend prev cur d)
  extend_lem prev cur {p} d z l sp below h (le, lt, ne) =
      let (u, x, e, f, s, c, h') = extends prev cur d.table z.entries sp below h le lt ne in
      let l' : Linked (record d { table = adddict prev x d.table }) z = record {
        valid = l.valid;
        bits = l.bits;
        over = l.over;
        sink = l.sink;
        out = l.out;
      } in
      (
        u,
        e,
        subst (Agrees max (more _)) (sym (extend-emit prev cur x d f)) (
            emit_lem max cur _ z _ l' s (c, omega (arith, nexti-le max low high h'))
              (refl, refl, refl) h'),
      )
