-- ===== src/Uncompress/Refine/Width.antt =====
-- The width of a code: `adddict` widens it exactly when the specification does.
use fip.Base.{
  ℕ, zero, suc, ◌+◌, ◌^◌, ◌≤◌, ◌<◌, ◌≡◌, refl, sym, ap, ap₂, ◌∙◌, inl, inr, ◌&&◌, arith, ltb, leb,
  if◌then◌else◌, compare_cases,
}
use native.Mathlib.Nat.{two-pow-succ, one-le-pow}
use native.Mathlib.Numerals.{add-one}
use fip.Uncompress.Lzw.{width_from}

pub width_from_bounds : (b k n : ℕ) → (b ≤ width_from b k n) × (width_from b k n ≤ b + k)
unfolding width_from
width_from_bounds b zero n = omega arith
width_from_bounds b (suc k) n = ground (arith, width_from_bounds (b + 1) k n)

pub width_from_small : (b k n : ℕ) → n < 2 ^ b → width_from b k n ≡ b
unfolding width_from
width_from_small b zero n l = refl
width_from_small b (suc k) n l = ground arith

pub pow-lt-next : (b : ℕ) → 2 ^ b < 2 ^ (b + 1)
pow-lt-next b =
    omega (arith, ap (λ (k : ℕ). 2 ^ k) (add-one b), two-pow-succ b, one-le-pow b 2 (omega arith))

-- What `adddict` does to `bits`.
abbrev pub widen : ℕ → ℕ → ℕ → ℕ
widen w n max = if leb (2 ^ w) n && ltb w max then w + 1 else w

-- The step at a width that is already too small.
width_from_above : (b k n : ℕ) → 2 ^ b ≤ n → width_from b (suc k) n ≡ width_from (b + 1) k n
unfolding width_from
width_from_above b k n h = ground arith

pub width_from_step :
    (b k n : ℕ)
    → n + 1 ≤ 2 ^ width_from b k n
    → width_from b k (n + 1) ≡ widen (width_from b k n) (n + 1) (b + k)
width_from_step b zero n h = unfold width_from in ground arith
width_from_step b (suc k) n h = elim (compare_cases (n + 1) (2 ^ b)) [
  | inl below ↦ unfold width_from in ground arith
  | inr (inl here) ↦
      unfold width_from in ground (arith, width_from_small (b + 1) k (n + 1), pow-lt-next b)
  | inr (inr above) ↦
      let up : 2 ^ b ≤ n = omega arith in
      let same : b + 1 + k ≡ b + suc k = omega arith in
      width_from_above b k (n + 1) (omega arith)
      ∙ width_from_step (b + 1) k n (rw (width_from_above b k n up) at h)
      ∙ ap₂ (λ w m. widen w (n + 1) m) (sym (width_from_above b k n up)) same
]
