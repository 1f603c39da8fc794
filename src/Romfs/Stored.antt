-- ===== src/Romfs/Stored.antt =====
-- The loop of decb/romfs.c: what the map and the ROM hold after each sector.
use fip.Base.{
  get_or-replicate, ℕ, zero, suc, ◌+◌, ◌*◌, ◌≤◌, ◌<◌, ◌≡◌, refl, sym, ap, ◌∙◌, subst, ◌⊎◌, inl, inr,
  Bool, true, false, ◌||◌, List, arith, if◌then◌else◌, Bool-cases, length, get_or, set, replicate,
  get_or-set_ne, length-set, same_bytes, u8, get_or-set_self, same_bytes_iff,
}
use native.Mathlib.Decide.{ℕ_discrete}
use fip.Decb.Image.{Image, get_or-bytes, length-bytes}
use fip.Romfs.{Rom, ones, zeros, load, append, convert_sector, convert_from, blank_rom}
use fip.Romfs.Sectors.{sector, place, load_lem, Appended, append_lem}

-- The sectors that need a place are those that are not all 0xff and not all 0.
unfoldable pub is_blank : List ℕ → Bool
is_blank b = same_bytes b ones || same_bytes b zeros

-- How many of the first `n` sectors need a place.
unfoldable pub busy : Image → ℕ → ℕ
busy img zero = 0
busy img (suc n) = busy img n + (if is_blank (sector img n) then 0 else 1)

-- The sector `j` is all the byte `v`.
abbrev pub Fills : Image → ℕ → ℕ → Type 0
Fills img j v = (q : ℕ) → q < 256 → img.byte (j * 256 + q) ≡ v

-- What the map says of sector `j`.
abbrev pub Placed : Image → Rom → ℕ → ℕ → Type 0
Placed img r n j =
    ((get_or r.lsns j 0 ≡ 0) × Fills img j 0xff)
    ⊎ (((get_or r.lsns j 0 ≡ 1) × Fills img j 0)
        ⊎ ((d : ℕ) × (2 < d)
            × (d < n)
            × (get_or r.lsns j 0 ≡ u8 (place d))
            × ((q : ℕ) → q < 256 → r.out.byte (place d * 256 + q) ≡ img.byte (j * 256 + q))))

-- After `i` sectors.
pub record Stored (img : Image) (i : ℕ) (r : Rom) : Type 0 where
  pub outpos : r.outpos ≡ place (3 + busy img i)
  pub block : length r.buf ≡ 256
  pub map : length r.lsns ≡ 768
  pub placed : (j : ℕ) → j < i → Placed img r (3 + busy img i) j

-- A sector stays where it is while others are added.
Placed-kept :
    (img : Image) (n n' j : ℕ) (r r' : Rom)
    → n ≤ n'
    → get_or r'.lsns j 0 ≡ get_or r.lsns j 0
    → ((q : ℕ) → q < place n * 256 → r'.out.byte q ≡ r.out.byte q)
    → Placed img r n j
    → Placed img r' n' j
Placed-kept img n n' j r r' h e kept (inl (at, f)) = inl (e ∙ at, f)
Placed-kept img n n' j r r' h e kept (inr (inl (at, f))) = inr (inl (e ∙ at, f))
Placed-kept img n n' j r r' h e kept (inr (inr (d, l, u, at, f))) =
    inr (inr (d, l, omega arith, e ∙ at, λ q lq. kept _ (omega arith) ∙ f q lq))

Fills-sector : (img : Image) (i v : ℕ) → sector img i ≡ replicate 256 v → Fills img i v
Fills-sector img i v e q l =
    sym (get_or-bytes img.byte (i * 256) 256 q l)
    ∙ ap (λ b. get_or b q 0) e
    ∙ get_or-replicate 256 v q l

module _ (img : Image) (i : ℕ) (r : Rom) (s : Stored img i r) (low : i < 630)
    (size : (i + 1) * 256 ≤ img.size) where
  loaded : load img i r.buf ≡ sector img i
  loaded = load_lem img i r.buf size s.block

  -- The others, where one entry of the map is written and no block.
  others :
      (v n' : ℕ) (buf : List ℕ) (j : ℕ)
      → 3 + busy img i ≤ n'
      → j < i
      → Placed img (record r { lsns = set r.lsns i v; buf = buf }) n' j
  others v n' buf j h l =
      Placed-kept img (3 + busy img i) n' j r (record r { lsns = set r.lsns i v; buf = buf }) h
        (get_or-set_ne r.lsns i j v 0 (λ e. absurd (omega (arith, l, e)))) (λ q lq. refl)
        (s.placed j l)

  abbrev blank : ℕ → Rom
  blank v = record r { lsns = set r.lsns i v; buf = load img i r.buf }

  -- A sector of one byte, with its entry in the map.
  Stored-blank :
      (v : ℕ)
      → busy img (suc i) ≡ busy img i
      → ((v ≡ 0) × Fills img i 0xff) ⊎ ((v ≡ 1) × Fills img i 0)
      → Stored img (suc i) (blank v)
  Stored-blank v same what = record {
    outpos = s.outpos ∙ ap (λ b. place (3 + b)) (sym same);
    block = ap length loaded ∙ length-bytes img.byte (i * 256) 256;
    map = length-set r.lsns i v ∙ s.map;
    placed = λ j l. elim (ℕ_discrete j i) [
      | yes at ↦
          subst (Placed img (blank v) (3 + busy img (suc i))) (sym at)
            (elim what [ inl (e, f) ↦ inl (here ∙ e, f) | inr (e, f) ↦ inr (inl (here ∙ e, f)) ])
      | no ne ↦
          others v (3 + busy img (suc i)) (load img i r.buf) j (omega (arith, same))
            (omega (arith, ne))
    ];
  }
    where
      here : get_or (set r.lsns i v) i 0 ≡ v
      here = get_or-set_self r.lsns i v 0 (omega (arith, s.map))

  -- The other sectors are appended.
  abbrev entered : Rom
  entered = record r { lsns = set r.lsns i (u8 r.outpos); buf = load img i r.buf }

  Stored-append :
      busy img (suc i) ≡ busy img i + 1
      → Appended (3 + busy img i) entered (append entered)
      → Stored img (suc i) (append entered)
  Stored-append more a = record {
    outpos = a.outpos ∙ ap place (omega (arith, more));
    block = ap length (a.buf ∙ loaded) ∙ length-bytes img.byte (i * 256) 256;
    map = ap length a.lsns ∙ length-set r.lsns i (u8 r.outpos) ∙ s.map;
    placed = λ j l. elim (ℕ_discrete j i) [
      | yes at ↦ subst (Placed img (append entered) (3 + busy img (suc i))) (sym at) (
          inr (
            inr (
              3 + busy img i,
              omega arith,
              omega (arith, more),
              ap (λ m. get_or m i 0) a.lsns
                  ∙ get_or-set_self r.lsns i (u8 r.outpos) 0 (omega (arith, s.map))
                  ∙ ap u8 s.outpos,
              λ q lq.
                  a.stored q lq
                  ∙ ap (λ b. get_or b q 0) loaded
                  ∙ get_or-bytes img.byte (i * 256) 256 q lq,
            )))
      | no ne ↦
          Placed-kept img (3 + busy img i) (3 + busy img (suc i)) j entered (append entered)
            (omega (arith, more)) (ap (λ m. get_or m j 0) a.lsns) a.kept
            (others (u8 r.outpos) (3 + busy img i) (load img i r.buf) j (omega arith)
              (omega (arith, ne)))
    ];
  }

  busy_same : is_blank (sector img i) ≡ true → busy img (suc i) ≡ busy img i
  unfolding busy
  busy_same e = rw e (omega arith)

  busy_more : is_blank (sector img i) ≡ false → busy img (suc i) ≡ busy img i + 1
  unfolding busy
  busy_more e = rw e refl

  test : (ys : List ℕ) → same_bytes (load img i r.buf) ys ≡ same_bytes (sector img i) ys
  test ys = ap (λ b. same_bytes b ys) loaded

  -- One round of the loop.
  Stored-convert_sector : Stored img (suc i) (convert_sector img i r)
  unfolding convert_sector is_blank
  Stored-convert_sector = elim (Bool-cases (same_bytes (sector img i) ones)) [
    | inl all_ones ↦ rw (test ones ∙ all_ones) (
        Stored-blank 0 (busy_same (rw all_ones refl))
          (inl (refl, Fills-sector img i 0xff ((same_bytes_iff _ _).0 all_ones))))
    | inr not_ones ↦ elim (Bool-cases (same_bytes (sector img i) zeros)) [
      | inl all_zeros ↦
          rw (test ones ∙ not_ones, test zeros ∙ all_zeros)
            (Stored-blank 1 (busy_same (rw (not_ones, all_zeros) refl))
              (inr (refl, Fills-sector img i 0 ((same_bytes_iff _ _).0 all_zeros))))
      | inr not_zeros ↦
          rw (test ones ∙ not_ones, test zeros ∙ not_zeros)
            (Stored-append (busy_more (rw (not_ones, not_zeros) refl)) (
              append_lem (3 + busy img i) entered s.outpos
                (ap length loaded ∙ length-bytes img.byte (i * 256) 256)))
    ]
  ]

blank_rom-Stored : (img : Image) → Stored img 0 blank_rom
unfolding busy
blank_rom-Stored img = record {
  outpos = refl;
  block = refl;
  map = refl;
  placed = λ j l. elim l [ ];
}

-- The loop.
convert_from-Stored :
    (img : Image) (k i : ℕ) (r : Rom)
    → Stored img i r
    → i + k ≤ 630
    → (i + k) * 256 ≤ img.size
    → Stored img (i + k) (convert_from img k i r)
unfolding convert_from
convert_from-Stored img zero i r s l h = subst (λ n. Stored img n r) (omega arith) s
convert_from-Stored img (suc k) i r s l h =
    let next : i + 1 + k ≡ i + suc k = omega arith in
    subst (λ n. Stored img n (convert_from img k (i + 1) (convert_sector img i r))) next
      (convert_from-Stored img k (i + 1) (convert_sector img i r)
        (subst (λ n. Stored img n (convert_sector img i r)) (omega arith)
          (Stored-convert_sector img i r s (omega arith) (omega arith)))
        (omega arith) (omega arith))

-- After all the sectors.
pub convert-Stored :
    (img : Image) → 630 * 256 ≤ img.size → Stored img 630 (convert_from img 630 0 blank_rom)
convert-Stored img h =
    convert_from-Stored img 630 0 blank_rom (blank_rom-Stored img) (omega arith) h
