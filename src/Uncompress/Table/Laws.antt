-- ===== src/Uncompress/Table/Laws.antt =====
-- What the dictionary spells: each symbol stands for a string, that of its prefix and one byte.
use fip.Base.{
  if◌then◌else◌, leb, ltb, ◌&&◌, ℕ, zero, suc, ◌+◌, ◌^◌, ◌<◌, ◌≡◌, refl, sym, ap, ap₂, ◌∙◌, subst,
  ◌≢◌, some, List, [], ◌∷◌, ◌++◌, append_assoc, arith, le→ltb, u8, ==_iff,
}
use native.Mathlib.Nat.{mod-eq_of_lt}
use fip.Uncompress.Writer.{Writer, outbyte, outbyte_lem, written, IsWriting}
use fip.Uncompress.Table.{Table, adddict, printsym, first}

-- Symbol `c` spells the string `s`.
pub data Spells (t : Table) : ℕ → List ℕ → Type 0 where
  literal : {c : ℕ} {s : List ℕ} → c < 256 → s ≡ c ∷ [] → Spells t c s
  extended :
      {c : ℕ} {s r : List ℕ}
      → 256 < c
      → t.ref c < c
      → t.app c < 256
      → Spells t (t.ref c) r
      → s ≡ r ++ t.app c ∷ []
      → Spells t c s

-- For a symbol that spells `s` in the dictionary, with more rounds than the symbol's number,
-- `printsym` returns, has appended exactly `s` to what was put out, and leaves the output buffer
-- valid.
pub printsym_lem :
    (f : ℕ) (t : Table) (w : Writer) {c : ℕ} {s : List ℕ}
    → Spells t c s
    → c < f
    → IsWriting w
    → (w' : Writer) × (printsym f t c w ≡ some w') × (written w' ≡ written w ++ s) × IsWriting w'
unfolding printsym
printsym_lem zero t w sp l v = elim l [ ]
printsym_lem (suc f) t w {c} (literal lt e) l v =
    let o = outbyte_lem c w v in
    (
      outbyte c w,
      ground arith,
      o.0 ∙ ap (λ u. written w ++ u) (ap (λ b. b ∷ []) (mod-eq_of_lt lt) ∙ sym e),
      o.1,
    )
printsym_lem (suc f) t w {c} (extended {r = r} gt lt b sp e) l v =
    let (w₁, p, q, u) = printsym_lem f t w sp (omega arith) v in
    let o = outbyte_lem (t.app c) w₁ u in
    (
      outbyte (t.app c) w₁,
      rw (le→ltb c 256 (omega arith), p) refl,
      o.0
          ∙ ap₂ (λ h b'. h ++ b' ∷ []) q (mod-eq_of_lt b)
          ∙ append_assoc (written w) r (t.app c ∷ [])
          ∙ ap (λ k. written w ++ k) (sym e),
      o.1,
    )

-- For a symbol that spells `s` in the dictionary, with more rounds than the symbol's number,
-- `first` returns the first byte of `s`.
pub first_lem :
    (f : ℕ) (t : Table) {c : ℕ} {s : List ℕ}
    → Spells t c s
    → c < f
    → (x : ℕ) × (r : List ℕ) × (first f t c ≡ some x) × (s ≡ x ∷ r) × (x < 256)
unfolding first
first_lem zero t sp l = elim l [ ]
first_lem (suc f) t {c} (literal lt e) l = (c, [], ground arith, e, lt)
first_lem (suc f) t {c} (extended gt lt b sp e) l =
    let (x, r, p, q, small) = first_lem f t sp (omega arith) in
    (
      x,
      r ++ t.app c ∷ [],
      rw (le→ltb c 256 (omega arith)) p,
      e ∙ ap (λ u. u ++ t.app c ∷ []) q,
      small,
    )

module _ (p x : ℕ) (t : Table) where
  adddict_below :
      (c : ℕ) → c < t.nexti → ((adddict p x t).ref c ≡ t.ref c) × ((adddict p x t).app c ≡ t.app c)
  unfolding adddict
  adddict_below c l = ground arith

  -- A new entry does not change what the older symbols spell.
  pub Spells-adddict :
      {c : ℕ} {s : List ℕ} → c < t.nexti → Spells t c s → Spells (adddict p x t) c s
  Spells-adddict l (literal lt e) = literal lt e
  Spells-adddict {c} l (extended {r = r} gt lt b sp e) =
      let (same_ref, same_app) = adddict_below c l in
      extended gt (rw same_ref lt) (rw same_app b)
        (subst (λ k. Spells (adddict p x t) k r) (sym same_ref) (Spells-adddict (omega arith) sp))
        (e ∙ ap (λ a. r ++ a ∷ []) (sym same_app))

  pub adddict_full : t.nexti ≡ 2 ^ t.bits → adddict p x t ≡ t
  unfolding adddict
  adddict_full e = rw ((==_iff t.nexti (2 ^ t.bits)).1 e)

  module _ (room : t.nexti ≢ 2 ^ t.bits) (small : t.nexti + 1 < 65536) where
    adddict_fields :
        ((adddict p x t).ref t.nexti ≡ p)
        × ((adddict p x t).app t.nexti ≡ u8 x)
        × ((adddict p x t).nexti ≡ t.nexti + 1)
        × ((adddict p x t).mymaxbits ≡ t.mymaxbits)
    unfolding adddict
    adddict_fields = ground arith

    pub adddict-nexti : (adddict p x t).nexti ≡ t.nexti + 1
    adddict-nexti = adddict_fields.2

    pub adddict-mymaxbits : (adddict p x t).mymaxbits ≡ t.mymaxbits
    adddict-mymaxbits = adddict_fields.3

    pub adddict-bits :
        (adddict p x t).bits
        ≡ (if leb (2 ^ t.bits) (t.nexti + 1) && ltb t.bits t.mymaxbits then t.bits + 1 else t.bits)
    unfolding adddict
    adddict-bits = ground arith

    -- The new entry spells the string of its prefix and the new byte.
    pub Spells-new :
        {s : List ℕ}
        → 256 < t.nexti
        → p < t.nexti
        → x < 256
        → Spells t p s
        → Spells (adddict p x t) t.nexti (s ++ x ∷ [])
    Spells-new {s} gt lt b sp =
        let (at_ref, at_app, _, _) = adddict_fields in
        extended gt (rw at_ref lt) (omega (arith, at_app))
          (subst (λ k. Spells (adddict p x t) k s) (sym at_ref) (Spells-adddict lt sp))
          (ap (λ a. s ++ a ∷ []) (sym (at_app ∙ mod-eq_of_lt b)))
