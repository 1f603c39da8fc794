-- ===== src/Booter/Memory.antt =====
-- The memory file of booter/booter.c: `mseek` and `mwrite` see the physical memory through a window
-- of 8 KB at 0x2000.
pub mod Laws
use native.Mathlib.Decide.{ℕ_discrete}
use fip.Base.{
  ==_ne, ℕ, zero, suc, ◌+◌, ◌-◌, ◌*◌, ◌/◌, ◌%◌, ◌^◌, ◌≤◌, ◌<◌, min, bit_and, bit_or, ◌≡◌, refl, sym,
  ap, ap₂, ◌∙◌, subst, ◌≢◌, ◌↔◌, ◌⊎◌, inl, inr, Bool, true, false, ◌&&◌, ◌||◌, not, Option, none,
  some, List, [], ◌∷◌, ◌++◌, append-nil, append_assoc, arith, ltb, leb, ◌==◌, if◌then◌else◌,
  Bool-cases, Option-cases, ltb→lt, lt→ltb, le→ltb, ==_iff, compare_cases, length, get_elem?,
  get_or, set, take, drop, replicate, All, u16, length-drop, length-take, get_or-drop, get_or-take,
  if-false,
}

-- `mmu0[1]` is the page in the window.
pub record Memory : Type 0 where
  pub ram : ℕ → ℕ
  pub page : ℕ
  pub mleft : ℕ
  pub maddr : ℕ
  pub paddr : ℕ

unfoldable pub mseek : ℕ → Memory → Memory
mseek addr m = record m {
  paddr = addr;
  page = addr / 2 ^ 13;
  mleft = 0x2000 - addr % 2 ^ 13;
  maddr = 0x2000 + addr % 2 ^ 13;
}

-- Memory with these bytes from `pos` on.
unfoldable pub with_bytes : ℕ → List ℕ → (ℕ → ℕ) → ℕ → ℕ
with_bytes pos xs ram q =
    if leb pos q && ltb q (pos + length xs) then get_or xs (q - pos) 0 else ram q

-- `memcpy` into the window
abbrev pub memcpy : List ℕ → Memory → Memory
memcpy xs m = record m { ram = with_bytes (m.page * 2 ^ 13 + (m.maddr - 0x2000)) xs m.ram }

-- `if (mleft == 0) mseek(paddr)`
unfoldable pub ready : Memory → Memory
ready m = if m.mleft == 0 then mseek m.paddr m else m

abbrev pub taking : List ℕ → Memory → ℕ
taking xs m = if ltb m.mleft (length xs) then m.mleft else length xs

-- The rest of a round of the loop of `mwrite`, for `n` bytes
unfoldable pub write_some : ℕ → List ℕ → Memory → Memory
write_some n xs m = record (memcpy (take n xs) m) {
  mleft = m.mleft - n;
  maddr = m.maddr + n;
  paddr = u16 (m.paddr + n);
}

unfoldable pub mwrite : ℕ → List ℕ → Memory → Option Memory
mwrite zero xs m = none
mwrite (suc f) xs m =
    let m' = ready m in
    let n = taking xs m' in
    let rest = mwrite f (drop n xs) (write_some n xs m') in if length xs == 0 then some m else rest
