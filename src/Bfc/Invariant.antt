-- ===== src/Bfc/Invariant.antt =====
-- The arrays of bfc/bfc.c, the pointers to its entries, and what is left to read, along each operation;
-- an access outside of an array is the outcome `wild`, as nothing in the code tests for it.
pub mod Dictionary
pub mod Control
pub mod Strings
pub mod Loop
use fip.Base.{
  ℕ, zero, suc, ◌+◌, ◌-◌, ◌*◌, ◌/◌, ◌%◌, ◌^◌, ◌≤◌, ◌<◌, min, bit_and, bit_or, ◌≡◌, refl, sym, ap,
  ap₂, ◌∙◌, subst, ◌≢◌, ◌↔◌, ◌⊎◌, inl, inr, Bool, true, false, ◌&&◌, ◌||◌, not, Option, none, some,
  List, [], ◌∷◌, ◌++◌, append-nil, append_assoc, arith, ltb, leb, ◌==◌, if◌then◌else◌, Bool-cases,
  Option-cases, ltb→lt, lt→ltb, le→ltb, ==_iff, compare_cases, length, get_elem?, get_or, set, take,
  drop, replicate, All, same_bytes, bytes, length-append,
}
use fip.Bfc.Output.{Line}
use fip.Bfc.State.{
  Entry, Runtime, Compiler, Result, ok, quite, wild, unfinished, ◌>>=◌, push_on, pull_from,
  push_cntl, pull_cntl, push_number, pull_number, put_line, next_label,
}
use fip.Bfc.Dictionary.{noted, mkentry, comp_entry, deref, entry_at, flag_last, doimm}

abbrev pub InBounds : ℕ → Option ℕ → Type 0
InBounds n none = Unit
InBounds n (some i) = i < n

-- Pointers to entries point at entries.
pub record ArePointers (n : ℕ) (r : Runtime) : Type 0 where
  pub lit_in : InBounds n r.lit
  pub zbra_in : InBounds n r.zbra
  pub bra_in : InBounds n r.bra
  pub slit_in : InBounds n r.slit
  pub dodoes_in : InBounds n r.dodoes
  pub noop_in : InBounds n r.noop
  pub dofor_in : InBounds n r.dofor
  pub push_in : InBounds n r.push

-- The arrays hold what is in them, and at most `n` bytes are left to read.
pub record IsWithin (n : ℕ) (c : Compiler) : Type 0 where
  pub entries : length c.dict ≤ 256
  pub controls : length c.cstack ≤ 16
  pub numbers : length c.nstack ≤ 16
  pub letters : length c.wordb < 64
  pub pointers : ArePointers (length c.dict) c.runtime
  pub left : length c.infile ≤ n

-- There was enough fuel, and `Kept` holds of what comes back.
abbrev pub Ends {ℓ} : {A : Type ℓ} → (A → Type 0) → Result A → Type 0
Ends Kept unfinished = ⊥
Ends Kept wild = Unit
Ends Kept (quite reason) = Unit
Ends Kept (ok result) = Kept result

module _ {ℓ κ} {A : Type ℓ} {B : Type κ} (Kept : A → Type 0) (Wanted : B → Type 0) where
  pub Ends-bind :
      (first : Result A) (next : A → Result B)
      → Ends Kept first
      → ((result : A) → Kept result → Ends Wanted (next result))
      → Ends Wanted (first >>= next)
  Ends-bind unfinished next kept wanted = kept
  Ends-bind wild next kept wanted = tt
  Ends-bind (quite reason) next kept wanted = tt
  Ends-bind (ok result) next kept wanted = wanted result kept

pub Ends-if {ℓ} :
    {A : Type ℓ} (P : A → Type 0) (b : Bool) (r q : Result A)
    → (b ≡ true → Ends P r)
    → (b ≡ false → Ends P q)
    → Ends P (if b then r else q)
Ends-if P true r q h k = h refl
Ends-if P false r q h k = k refl

-- Output and labels are no part of the bounds.
pub printed :
    (n : ℕ) (c : Compiler) (o : List Line) (l s : ℕ)
    → IsWithin n c
    → IsWithin n (record c { outfile = o; labeli = l; state = s })
printed n c o l s h = record {
  entries = h.entries;
  controls = h.controls;
  numbers = h.numbers;
  letters = h.letters;
  pointers = h.pointers;
  left = h.left;
}

-- The stacks
abbrev pub Short : List ℕ → Type 0
Short s = length s ≤ 16

push_on-Short : (i : ℕ) (s : List ℕ) → Ends Short (push_on i s)
push_on-Short i s =
    Ends-if Short (ltb (length s) 16) _ _ (λ e. fits (ltb→lt (length s) 16 e)) (λ e. tt)
  where
    fits : length s < 16 → suc (length s) ≤ 16
    fits h = omega arith

pull_from-Short : (s : List ℕ) → Short s → Ends (λ r. Short (r.1)) (pull_from s)
pull_from-Short [] h = tt
pull_from-Short (i ∷ s) h = omega arith

abbrev with_cstack : Compiler → List ℕ → Compiler
with_cstack c s = record c { cstack = s }

cstack-IsWithin :
    (n : ℕ) (c : Compiler) (s : List ℕ)
    → IsWithin n c
    → Short s
    → IsWithin n (record c { cstack = s })
cstack-IsWithin n c s h hs = record {
  entries = h.entries;
  controls = hs;
  numbers = h.numbers;
  letters = h.letters;
  pointers = h.pointers;
  left = h.left;
}

nstack-IsWithin :
    (n : ℕ) (c : Compiler) (s : List ℕ)
    → IsWithin n c
    → Short s
    → IsWithin n (record c { nstack = s })
nstack-IsWithin n c s h hs = record {
  entries = h.entries;
  controls = h.controls;
  numbers = hs;
  letters = h.letters;
  pointers = h.pointers;
  left = h.left;
}

module _ (n : ℕ) (c : Compiler) (h : IsWithin n c) where
  pub push_cntl-IsWithin : (i : ℕ) → Ends (IsWithin n) (push_cntl i c)
  unfolding push_cntl
  push_cntl-IsWithin i =
      Ends-bind Short (IsWithin n) (push_on i c.cstack) _ (push_on-Short i c.cstack)
        λ s hs. cstack-IsWithin n c s h hs

  pub pull_cntl-IsWithin : Ends (λ r. IsWithin n (r.1)) (pull_cntl c)
  unfolding pull_cntl
  pull_cntl-IsWithin =
      Ends-bind (λ r. Short (r.1)) (λ r. IsWithin n (r.1)) (pull_from c.cstack) _
        (pull_from-Short c.cstack h.controls) λ (i, s) hs. cstack-IsWithin n c s h hs

  pub push_number-IsWithin : (i : ℕ) → Ends (IsWithin n) (push_number i c)
  unfolding push_number
  push_number-IsWithin i =
      Ends-bind Short (IsWithin n) (push_on i c.nstack) _ (push_on-Short i c.nstack)
        λ s hs. nstack-IsWithin n c s h hs

  pub pull_number-IsWithin : Ends (λ r. IsWithin n (r.1)) (pull_number c)
  unfolding pull_number
  pull_number-IsWithin =
      Ends-bind (λ r. Short (r.1)) (λ r. IsWithin n (r.1)) (pull_from c.nstack) _
        (pull_from-Short c.nstack h.numbers) λ (i, s) hs. nstack-IsWithin n c s h hs
