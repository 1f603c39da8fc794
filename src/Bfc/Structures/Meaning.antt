-- ===== src/Bfc/Structures/Meaning.antt =====
-- What structured source does, and what its code does on a machine that knows the runtime of the
-- compiled program only by the effect of its words.
use fip.Base.{ℕ, ◌≡◌, Bool, true, false, Option, none, some, List, [], ◌∷◌, ◌==◌, if◌then◌else◌}
use fip.Bfc.Output.{Line, label, entry_label, call, address, cell}
use fip.Bfc.State.{Entry}
use fip.Bfc.Structures.{
  Source, nothing, run, num, seq, if_then, if_else, begin_until, begin_while, for_next, Primitives,
}

-- The code behind a label, where it is first defined
unfoldable pub behind_label : ℕ → List Line → Option (List Line)
behind_label k [] = none
behind_label k (label n ∷ xs) = let rest = behind_label k xs in if k == n then some xs else rest
behind_label k (entry_label n _ ∷ xs) =
    let rest = behind_label k xs in if k == n then some xs else rest
behind_label k (_ ∷ xs) = behind_label k xs

-- The effect of the entries, by their labels, on the state of the program: a word; a literal; and a
-- word with an address behind it, which jumps (`true`) or goes on.
pub record Effects (S : Type 0) : Type 1 where
  pub does : ℕ → S → S → Type 0
  pub loads : ℕ → ℕ → S → S → Type 0
  pub decides : ℕ → Bool → S → S → Type 0

module _ {S : Type 0} (eff : Effects S) where
  pub data Steps (prog : List Line) : List Line → S → List Line → S → Type 0 where
    stop : {k : List Line} {s : S} → Steps prog k s k s
    at_call :
        {r : ℕ} {t : List ℕ} {k k' : List Line} {s s₁ s' : S}
        → eff.does r s s₁
        → Steps prog k s₁ k' s'
        → Steps prog (call r t ∷ k) s k' s'
    at_literal :
        {r n : ℕ} {t : List ℕ} {k k' : List Line} {s s₁ s' : S}
        → eff.loads r n s s₁
        → Steps prog k s₁ k' s'
        → Steps prog (call r t ∷ cell n ∷ k) s k' s'
    jumping :
        {r n : ℕ} {t : List ℕ} {k j k' : List Line} {s s₁ s' : S}
        → eff.decides r true s s₁
        → behind_label n prog ≡ some j
        → Steps prog j s₁ k' s'
        → Steps prog (call r t ∷ address n ∷ k) s k' s'
    going_on :
        {r n : ℕ} {t : List ℕ} {k k' : List Line} {s s₁ s' : S}
        → eff.decides r false s s₁
        → Steps prog k s₁ k' s'
        → Steps prog (call r t ∷ address n ∷ k) s k' s'
    past_label :
        {n : ℕ} {k k' : List Line} {s s' : S}
        → Steps prog k s k' s'
        → Steps prog (label n ∷ k) s k' s'

  -- The source, where `0bra` jumps when its flag is false and `dofor` when its count is used up
  mutual
    pub data Does (p : Primitives) : Source → S → S → Type 0 where
      nothing_to_do : {s : S} → Does p nothing s s
      runs : {w : List ℕ} {e : Entry} {s s' : S} → eff.does e.ref s s' → Does p (run w e) s s'
      pushes : {w : List ℕ} {k : ℕ} {s s' : S} → eff.loads p.lit.ref k s s' → Does p (num w k) s s'
      in_turn :
          {a b : Source} {s s₁ s' : S} → Does p a s s₁ → Does p b s₁ s' → Does p (seq a b) s s'
      if_taken :
          {a : Source} {s s₁ s' : S}
          → eff.decides p.zbra.ref false s s₁
          → Does p a s₁ s'
          → Does p (if_then a) s s'
      if_skipped :
          {a : Source} {s s' : S} → eff.decides p.zbra.ref true s s' → Does p (if_then a) s s'
      first_arm :
          {a b : Source} {s s₁ s' : S}
          → eff.decides p.zbra.ref false s s₁
          → Does p a s₁ s'
          → Does p (if_else a b) s s'
      second_arm :
          {a b : Source} {s s₁ s' : S}
          → eff.decides p.zbra.ref true s s₁
          → Does p b s₁ s'
          → Does p (if_else a b) s s'
      until_true :
          {a : Source} {s s₁ s' : S}
          → Does p a s s₁
          → eff.decides p.zbra.ref false s₁ s'
          → Does p (begin_until a) s s'
      until_false :
          {a : Source} {s s₁ s₂ s' : S}
          → Does p a s s₁
          → eff.decides p.zbra.ref true s₁ s₂
          → Does p (begin_until a) s₂ s'
          → Does p (begin_until a) s s'
      while_true :
          {a b : Source} {s s₁ s₂ s₃ s' : S}
          → Does p a s s₁
          → eff.decides p.zbra.ref false s₁ s₂
          → Does p b s₂ s₃
          → Does p (begin_while a b) s₃ s'
          → Does p (begin_while a b) s s'
      while_false :
          {a b : Source} {s s₁ s' : S}
          → Does p a s s₁
          → eff.decides p.zbra.ref true s₁ s'
          → Does p (begin_while a b) s s'
      counted :
          {a : Source} {s s₁ s' : S}
          → eff.does p.push.ref s s₁
          → Counts p a s₁ s'
          → Does p (for_next a) s s'

    pub data Counts (p : Primitives) : Source → S → S → Type 0 where
      used_up : {a : Source} {s s' : S} → eff.decides p.dofor.ref true s s' → Counts p a s s'
      once_more :
          {a : Source} {s s₁ s₂ s' : S}
          → eff.decides p.dofor.ref false s s₁
          → Does p a s₁ s₂
          → Counts p a s₂ s'
          → Counts p a s s'
