-- ===== src/Booter/Memory/Laws.antt =====
-- What the memory file of booter/booter.c writes, across the ends of its window.
use native.Mathlib.Decide.{ℕ_discrete}
use fip.Base.{
  ==_ne, ℕ, zero, suc, ◌+◌, ◌-◌, ◌*◌, ◌^◌, ◌≤◌, ◌<◌, ◌≡◌, refl, sym, ap, ap₂, ◌∙◌, ◌≢◌, inl, inr,
  some, List, [], ◌∷◌, arith, ◌==◌, ==_iff, compare_cases, length, get_or, take, drop, length-drop,
  length-take, get_or-drop, get_or-take, if-false,
}
use fip.Booter.Memory.{Memory, mseek, with_bytes, ready, taking, write_some, mwrite}

-- The window shows the place of the file.
pub record IsMapped (m : Memory) : Type 0 where
  pub window : 0x2000 ≤ m.maddr
  pub left : m.maddr + m.mleft ≡ 0x4000
  pub place : m.mleft ≢ 0 → m.page * 2 ^ 13 + (m.maddr - 0x2000) ≡ m.paddr

pub mseek-IsMapped : (addr : ℕ) (m : Memory) → IsMapped (mseek addr m)
unfolding mseek
mseek-IsMapped addr m = record {
  window = omega arith;
  left = omega arith;
  place = λ ne. omega arith;
}

pub with_bytes-append :
    (pos n : ℕ) (xs : List ℕ) (ram : ℕ → ℕ) (q : ℕ)
    → n ≤ length xs
    → with_bytes (pos + n) (drop n xs) (with_bytes pos (take n xs) ram) q ≡ with_bytes pos xs ram q
unfolding with_bytes
with_bytes-append pos n xs ram q l =
    let sizes : (length (take n xs) ≡ n) × (length (drop n xs) ≡ length xs - n) =
      (omega (arith, length-take n xs, l), length-drop n xs) in
    let place : pos + n ≤ q → n + (q - (pos + n)) ≡ q - pos = λ le. omega (arith, le) in
    let after : pos + n ≤ q → get_or (drop n xs) (q - (pos + n)) 0 ≡ get_or xs (q - pos) 0 =
      λ le. get_or-drop n (q - (pos + n)) xs ∙ ap (λ k. get_or xs k 0) (place le) in
    elim (compare_cases q pos) [
      | inl before ↦ ground (arith, before, sizes)
      | inr from ↦ elim (compare_cases q (pos + n)) [
        | inl within ↦ ground (arith, from, within, sizes, l, get_or-take n (q - pos) xs 0)
        | inr behind ↦ ground (arith, from, behind, sizes, l, after)
      ]
    ]

ready_lem :
    (m : Memory)
    → IsMapped m
    → m.paddr < 2 ^ 16
    → IsMapped (ready m)
      × ((ready m).mleft ≢ 0)
      × ((ready m).paddr ≡ m.paddr)
      × ((ready m).ram ≡ m.ram)
unfolding ready mseek
ready_lem m v l = elim (ℕ_discrete m.mleft 0) [
  | yes used_up ↦
      rw ((==_iff m.mleft 0).1 used_up, ready)
        (mseek-IsMapped m.paddr m, (λ e. absurd (omega (arith, e))), refl, refl)
  | no ne ↦ rw (==_ne m.mleft 0 ne, ready) (v, ne, refl, refl)
]

-- A round writes some bytes at the place of the file.
pub write_some_lem :
    (n : ℕ) (xs : List ℕ) (m : Memory)
    → IsMapped m
    → n ≤ m.mleft
    → m.mleft ≢ 0
    → m.paddr + n < 2 ^ 16
    → IsMapped (write_some n xs m)
      × ((write_some n xs m).paddr ≡ m.paddr + n)
      × ((write_some n xs m).ram ≡ with_bytes m.paddr (take n xs) m.ram)
unfolding write_some
write_some_lem n xs m v most ne l = (
  record {
    window = omega (arith, v.window);
    left = omega (arith, v.left, most);
    place = λ more. omega (arith, v.place ne, l, v.window);
  },
  omega (arith, l),
  ap (λ p. with_bytes p (take n xs) m.ram) (v.place ne),
)

pub with_bytes_nothing : (pos : ℕ) (ram : ℕ → ℕ) (q : ℕ) → with_bytes pos [] ram q ≡ ram q
unfolding with_bytes
with_bytes_nothing pos ram q = ground arith

-- From a window that shows the place of the memory file, and for bytes that end below `2 ^ 16`,
-- `mwrite` with more rounds than bytes ends. The physical memory then holds exactly these bytes
-- from that place on and is otherwise as it was, wherever the pages of 8 KB end; and the place is
-- behind them, in a window that shows it.
pub mwrite_lem :
    (f : ℕ) (xs : List ℕ) (m : Memory)
    → IsMapped m
    → length xs < f
    → m.paddr + length xs < 2 ^ 16
    → (m' : Memory) × (mwrite f xs m ≡ some m')
      × IsMapped m'
      × (m'.paddr ≡ m.paddr + length xs)
      × ((q : ℕ) → m'.ram q ≡ with_bytes m.paddr xs m.ram q)
unfolding mwrite
mwrite_lem zero xs m v fuel l = absurd (omega (arith, fuel))
mwrite_lem (suc f) [] m v fuel l =
    (m, refl, v, omega arith, λ q. sym (with_bytes_nothing m.paddr m.ram q))
mwrite_lem (suc f) (x ∷ xs) m v fuel l =
    let (v₁, ne, same, ram) = ready_lem m v (omega (arith, l)) in
    let m₁ = ready m in
    let n = taking (x ∷ xs) m₁ in
    let bounds : (1 ≤ n) × (n ≤ length (x ∷ xs)) × (n ≤ m₁.mleft) = ground (arith, ne) in
    let (v₂, moved, wrote) =
      write_some_lem n (x ∷ xs) m₁ v₁ bounds.2 ne (omega (arith, l, same, bounds.1)) in
    let (m', e, v', at, stored) =
      mwrite_lem f (drop n (x ∷ xs)) (write_some n (x ∷ xs) m₁) v₂
        (omega (arith, fuel, length-drop n (x ∷ xs), bounds.0))
        (omega (arith, l, moved, same, length-drop n (x ∷ xs), bounds.1)) in
    (
      m',
      if-false {b = suc (length xs) == 0} _ _ (==_ne (suc (length xs)) 0 (omega arith)) ∙ e,
      v',
      omega (arith, at, moved, same, length-drop n (x ∷ xs), bounds.1),
      λ q.
          stored q
          ∙ ap₂ (λ p r. with_bytes p (drop n (x ∷ xs)) r q) (moved ∙ ap (λ (p : ℕ). p + n) same)
              (wrote ∙ ap₂ (λ p r. with_bytes p (take n (x ∷ xs)) r) same ram)
          ∙ with_bytes-append m.paddr n (x ∷ xs) m.ram q bounds.1,
    )
