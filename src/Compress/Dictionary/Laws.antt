-- ===== src/Compress/Dictionary/Laws.antt =====
-- The dictionary of the encoder against the list of its strings.
use fip.Base.{
  ℕ, zero, suc, ◌+◌, ◌-◌, ◌^◌, ◌≤◌, ◌<◌, ◌≡◌, refl, sym, ap, ap₂, ◌∙◌, subst, ◌≢◌, inl, inr, true,
  false, Option, none, some, List, [], ◌∷◌, ◌++◌, append-nil, append_assoc, arith, ltb, ◌==◌,
  Bool-cases, lt→ltb, le→ltb, ==_iff, length, get_elem?, length-append, same_bytes, u8, if-true,
  same_bytes_iff, if-false,
}
use native.Mathlib.Nat.{mod-eq_of_lt}
use fip.Uncompress.Table
use fip.Uncompress.Table.{Table, store}
use fip.Uncompress.Table.Laws.{Spells, literal, extended}
use fip.Uncompress.Lzw.{learn, symbols, width, width_from}
use fip.Uncompress.Refine.Dictionary.{Holds, adddict-Holds, get_elem?-some}
use fip.Compress.Dictionary.{adddict, buildstr, Found, at, missing, exist_from, exist}
use fip.Compress.Codes.{find_from, find}

pub buildstr_lem :
    (places : ℕ) (behind : List ℕ) (t : Table) {c : ℕ} {s : List ℕ}
    → Spells t c s
    → length s ≤ places
    → buildstr places behind t c ≡ some (s ++ behind)
unfolding buildstr
buildstr_lem zero behind t (literal lt e) l = absurd (omega (arith, l, ap length e))
buildstr_lem zero behind t {c} (extended {r = r} gt lt b sp e) l =
    absurd (omega (arith, l, ap length e, length-append r (t.app c ∷ [])))
buildstr_lem (suc places) behind t {c} (literal lt e) l =
    if-true _ _ (lt→ltb c 256 lt)
    ∙ ap₂ (λ x xs. some (x ++ xs)) (ap (λ b. b ∷ []) (mod-eq_of_lt lt) ∙ sym e) refl
buildstr_lem (suc places) behind t {c} (extended {r = r} gt lt b sp e) l =
    if-false _ _ (le→ltb c 256 (omega (arith, gt)))
    ∙ buildstr_lem places (u8 (t.app c) ∷ behind) t sp
        (omega (arith, l, ap length e, length-append r (t.app c ∷ [])))
    ∙ ap (λ x. some (r ++ x ∷ behind)) (mod-eq_of_lt b)
    ∙ ap some (sym (append_assoc r (t.app c ∷ []) behind) ∙ ap (λ x. x ++ behind) (sym e))

-- Each string is no longer than its number allows.
abbrev pub IsShort : List (List ℕ) → Type 0
IsShort es = (i : ℕ) (s : List ℕ) → get_elem? es i ≡ some s → length s ≤ i + 2

abbrev pub found : Option ℕ → Found
found none = missing
found (some h) = at h

module _ (t : Table) (es : List (List ℕ)) (h : Holds 9 t es) (short : IsShort es)
    (few : length es ≤ 255) where
  exist_from_lem :
      (k i : ℕ) (s : List ℕ)
      → i + k ≡ length es
      → exist_from k (257 + i) s t ≡ found (find_from k i es s)
  unfolding exist_from find_from
  exist_from_lem zero i s e = refl
  exist_from_lem (suc k) i s e =
      let (r, there) = get_elem?-some es i (omega (arith, e)) in
      let spelled : buildstr 256 [] t (257 + i) ≡ some r =
        buildstr_lem 256 [] t (h.spells i r there) (omega (arith, short i r there, few, e))
        ∙ ap some (append-nil r) in
      let next : exist_from k (257 + i + 1) s t ≡ found (find_from k (i + 1) es s) =
        ap (λ n. exist_from k n s t) (omega arith)
        ∙ exist_from_lem k (i + 1) s (omega (arith, e)) in
      elim (Bool-cases (same_bytes s r)) [
        | inl same ↦
            let sizes : (length s == length r) ≡ true =
              (==_iff _ _).1 (ap length ((same_bytes_iff s r).0 same)) in
            rw (exist_from, find_from, spelled, there, sizes, same) refl
        | inr other ↦ rw (exist_from, find_from, spelled, there, other) (ground (arith, next))
      ]

  pub exist_lem :
      {w : ℕ} (p : List ℕ) (x : ℕ)
      → Spells t w p
      → length p ≤ 256
      → x < 256
      → exist w x t ≡ found (find es (p ++ x ∷ []))
  unfolding exist
  exist_lem {w} p x sp l b =
      let spelled : buildstr 256 (u8 x ∷ []) t w ≡ some (p ++ x ∷ []) =
        buildstr_lem 256 (u8 x ∷ []) t sp l ∙ ap (λ y. some (p ++ y ∷ [])) (mod-eq_of_lt b) in
      let rounds : t.nexti - 257 ≡ length es = omega (arith, h.count) in
      rw (exist, spelled, rounds) (exist_from_lem (length es) 0 (p ++ x ∷ []) (omega arith))

module _ (t : Table) (es : List (List ℕ)) (h : Holds 9 t es) (few : length es < 255) where
  pub adddict-grows :
      {w : ℕ} (p : List ℕ) (x : ℕ)
      → Spells t w p
      → w < t.nexti
      → x < 256
      → (t' : Table) × (adddict w x t ≡ (false, t')) × Holds 9 t' (es ++ (p ++ x ∷ []) ∷ [])
  unfolding adddict Table.adddict width width_from learn
  adddict-grows {w} p x sp l b =
      let wide : t.bits ≡ 9 = h.wide in
      let below : t.nexti ≢ 512 = omega (arith, h.count, few) in
      let stays : (t.nexti == 2 ^ t.bits) ≡ false = rw wide (ground (arith, below)) in
      let narrow : ltb t.bits t.mymaxbits ≡ false = ground (arith, wide, h.limit) in
      let learnt : learn (width 9 es) p (x ∷ []) es ≡ es ++ (p ++ x ∷ []) ∷ [] =
        if-false {b = symbols es == 2 ^ 9} _ _ (ground (arith, few)) in
      (
        Table.adddict w x t,
        rw (stays, narrow, adddict, Table.adddict) (ground (arith, narrow)),
        subst (Holds 9 (Table.adddict w x t)) learnt (
            adddict-Holds 9 (omega arith) (omega arith) h w x {s = p} {r = []} {u = x ∷ []} l sp
              refl b),
      )
