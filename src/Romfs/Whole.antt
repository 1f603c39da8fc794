-- ===== src/Romfs/Whole.antt =====
-- All of decb/romfs.c, and the reading of a ROM by its map.
use fip.Base.{
  get_or-drop, ℕ, ◌+◌, ◌-◌, ◌*◌, ◌/◌, ◌≤◌, ◌<◌, ◌≡◌, sym, ap, ◌∙◌, subst, ◌⊎◌, inl, inr, false,
  arith, ◌==◌, if◌then◌else◌, length, get_or, take, drop, get_or-take, length-take, length-drop,
}
use native.Mathlib.Decide.{dec_lt}
use native.Mathlib.Nat.{mod-eq_of_lt}
use fip.Decb.Image.{Image}
use fip.Romfs.{
  Rom, rom, bad_banks, cannot_fit, save, save_map, convert_from, blank_rom, romfs, finish,
}
use fip.Romfs.Sectors.{place, save_in, save_out}
use fip.Romfs.Stored.{busy, Placed, convert-Stored}

-- Byte `q` of the disk's sector `i`, as the map in front of the ROM says: 0 stands for a sector of
-- 0xff, 1 for one of zeros, and any other number is that of a sector of the ROM.
unfoldable pub fetch : Image → ℕ → ℕ → ℕ
fetch out i q =
    let m = out.byte i in if m == 0 then 0xff else if m == 1 then 0 else out.byte (m * 256 + q)

module _ (r : Rom) (size : length r.lsns ≡ 768) where
  part : (k : ℕ) → k ≤ 512 → length (take 256 (drop k r.lsns)) ≡ 256
  part k l = omega (arith, length-take 256 (drop k r.lsns), length-drop k r.lsns)

  in_part : (k q : ℕ) → q < 256 → get_or (take 256 (drop k r.lsns)) q 0 ≡ get_or r.lsns (k + q) 0
  in_part k q l = get_or-take 256 q (drop k r.lsns) 0 l ∙ get_or-drop k q r.lsns

  save_part :
      (img : Image) (sec q : ℕ)
      → sec * 256 ≤ 512
      → sec * 256 ≤ q
      → q < sec * 256 + 256
      → (save img (take 256 (drop (sec * 256) r.lsns)) sec).byte q ≡ get_or r.lsns q 0
  save_part img sec q l above below =
      let at : sec * 256 + (q - sec * 256) ≡ q = omega arith in
      subst (λ k. (save img (take 256 (drop (sec * 256) r.lsns)) sec).byte k ≡ get_or r.lsns k 0) at
        (save_in img (take 256 (drop (sec * 256) r.lsns)) sec (q - sec * 256)
            (omega (arith, part (sec * 256) l))
          ∙ in_part (sec * 256) (q - sec * 256) (omega arith))

  abbrev once : Image
  once = save r.out (take 256 r.lsns) 0

  abbrev twice : Image
  twice = save once (take 256 (drop 256 r.lsns)) 1

  save_out_third :
      (q : ℕ) → q < 512 → (save twice (take 256 (drop 512 r.lsns)) 2).byte q ≡ twice.byte q
  save_out_third q l = save_out twice (take 256 (drop 512 r.lsns)) 2 q (inl l)

  -- The map is in front, and what stands behind it stays.
  save_map_in : (q : ℕ) → q < 768 → (save_map r).byte q ≡ get_or r.lsns q 0
  unfolding save_map
  save_map_in q l = elim (dec_lt q 256) [
    | yes first ↦
        save_out_third q (omega arith)
        ∙ save_out once (take 256 (drop 256 r.lsns)) 1 q (inl first)
        ∙ save_part r.out 0 q (omega arith) (omega arith) first
    | no above ↦ elim (dec_lt q 512) [
      | yes second ↦ save_out_third q second ∙ save_part once 1 q (omega arith) (omega arith) second
      | no third ↦ save_part twice 2 q (omega arith) (omega arith) l
    ]
  ]

  save_map_out : (q : ℕ) → 768 ≤ q → (save_map r).byte q ≡ r.out.byte q
  unfolding save_map
  save_map_out q l =
      save_out (save (save r.out (take 256 r.lsns) 0) (take 256 (drop 256 r.lsns)) 1)
        (take 256 (drop 512 r.lsns)) 2 q (inr (omega (arith, part 512 (omega arith))))
      ∙ save_out (save r.out (take 256 r.lsns) 0) (take 256 (drop 256 r.lsns)) 1 q
          (inr (omega (arith, part 256 (omega arith))))
      ∙ save_out r.out (take 256 r.lsns) 0 q (inr (omega (arith, part 0 (omega arith))))

  -- An entry of the map reads back.
  fetch-Placed :
      (img : Image) (n j q : ℕ)
      → place n ≤ 256
      → j < 768
      → q < 256
      → Placed img r n j
      → fetch (save_map r) j q ≡ img.byte (j * 256 + q)
  unfolding fetch
  fetch-Placed img n j q h lj lq p =
      let at = save_map_in j lj in
      rw at (elim p [
        | inl (e, f) ↦ rw e (sym (f q lq))
        | inr other ↦ elim other [
          | inl (e, f) ↦ rw e (sym (f q lq))
          | inr (d, low, u, e, f) ↦
              let m : get_or r.lsns j 0 ≡ place d = e ∙ mod-eq_of_lt (omega arith) in
              let not_ones : (get_or r.lsns j 0 == 0) ≡ false = ground (arith, m) in
              let not_zeros : (get_or r.lsns j 0 == 1) ≡ false = ground (arith, m) in
              rw (not_ones, not_zeros)
                (ap (λ k. (save_map r).byte (k * 256 + q)) m
                  ∙ save_map_out (place d * 256 + q) (omega arith)
                  ∙ f q lq)
        ]
      ])

finish_lem :
    (banks : ℕ) (r : Rom)
    → (((banks < 1) ⊎ (4 < banks)) × (finish banks r ≡ bad_banks))
      ⊎ (((0 < banks) × (banks ≤ 4))
          × (((banks * 64 < r.outpos) × (finish banks r ≡ cannot_fit))
              ⊎ ((r.outpos ≤ banks * 64) × (finish banks r ≡ rom (save_map r)))))
unfolding finish
finish_lem banks r = ground arith

-- Let the image have all of its 630 sectors, and let n be 3 more than the number of those that
-- are neither all 0xff nor all 0. For a number of banks that is not from 1 to 4 `romfs` says
-- `bad_banks`. Otherwise it says `cannot_fit` exactly if n + n / 63 is above 64 sectors for each
-- bank, and else returns a ROM from which, by the map in front of it, each byte of each sector of
-- the image can be fetched.
pub romfs_lem :
    (banks : ℕ) (img : Image)
    → 630 * 256 ≤ img.size
    → let n = 3 + busy img 630 in
      (((banks < 1) ⊎ (4 < banks)) × (romfs banks img ≡ bad_banks))
      ⊎ (((0 < banks) × (banks ≤ 4))
          × (((banks * 64 < n + n / 63) × (romfs banks img ≡ cannot_fit))
              ⊎ ((n + n / 63 ≤ banks * 64)
                  × ((out : Image) × (romfs banks img ≡ rom out)
                      × ((i q : ℕ) → i < 630 → q < 256 → fetch out i q ≡ img.byte (i * 256 + q))))))
unfolding romfs
romfs_lem banks img size =
    let r = convert_from img 630 0 blank_rom in
    let s = convert-Stored img size in
    elim (finish_lem banks r) [
      | inl bad ↦ inl bad
      | inr (within, inl (l, e)) ↦ inr (within, inl (omega (arith, l, s.outpos), e))
      | inr (within, inr (l, e)) ↦ inr (
        within,
        inr (
          omega (arith, l, s.outpos),
          (
            save_map r,
            e,
            λ i q li lq.
                fetch-Placed r s.map img (3 + busy img 630) i q
                  (omega (arith, within.1, l, s.outpos)) (omega arith) lq (s.placed i li),
          ),
        ),
      )
    ]
