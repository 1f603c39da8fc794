-- ===== src/Bfc/Structures/Runs.antt =====
-- The code of structured source does what the source does.
use fip.Base.{
  ℕ, ◌+◌, ◌≤◌, ◌<◌, ◌≡◌, refl, sym, subst, true, some, List, [], ◌∷◌, ◌++◌, append_assoc, arith,
}
use fip.Bfc.Output.{Line, label, address, cell}
use fip.Bfc.Structures.{
  Source, nothing, run, num, seq, if_then, if_else, begin_again, begin_until, begin_while, for_next,
  Primitives, labels, code, called,
}
use fip.Bfc.Structures.Labels.{definitions}
use fip.Bfc.Structures.Meaning.{
  Effects, Steps, stop, at_call, at_literal, jumping, going_on, past_label, Does, Counts,
  nothing_to_do, runs, pushes, in_turn, if_taken, if_skipped, first_arm, second_arm, until_true,
  until_false, while_true, while_false, counted, used_up, once_more, behind_label,
}
use fip.Bfc.Structures.Jumps.{IsSuffix, behind, jump_target}

module _ (p : Primitives) where
  -- The code in front of other code
  unfoldable code_before : ℕ → Source → List Line → List Line
  unfolding labels
  code_before n nothing k = k
  code_before n (run _ e) k = called e ∷ k
  code_before n (num _ x) k = called p.lit ∷ cell x ∷ k
  code_before n (seq a b) k = code_before n a (code_before (n + labels a) b k)
  code_before n (if_then a) k = called p.zbra ∷ address n ∷ code_before (n + 1) a (label n ∷ k)
  code_before n (if_else a b) k =
      let m = n + 1 + labels a in
      called p.zbra
      ∷ address n
      ∷ code_before (n + 1) a
          (called p.bra ∷ address m ∷ label n ∷ code_before (m + 1) b (label m ∷ k))
  code_before n (begin_again a) k = label n ∷ code_before (n + 1) a (called p.bra ∷ address n ∷ k)
  code_before n (begin_until a) k = label n ∷ code_before (n + 1) a (called p.zbra ∷ address n ∷ k)
  code_before n (begin_while a b) k =
      let m = n + 1 + labels a in
      label n
      ∷ code_before (n + 1) a (
          called p.zbra
          ∷ address m
          ∷ code_before (m + 1) b (called p.bra ∷ address n ∷ label m ∷ k))
  code_before n (for_next a) k =
      called p.push
      ∷ label n
      ∷ called p.dofor
      ∷ address (n + 1)
      ∷ code_before (n + 2) a (called p.bra ∷ address n ∷ label (n + 1) ∷ k)

  code_before_lem : (a : Source) (n : ℕ) (k : List Line) → code_before n a k ≡ code p n a ++ k
  unfolding code_before code
  code_before_lem nothing n k = refl
  code_before_lem (run _ e) n k = refl
  code_before_lem (num _ x) n k = refl
  code_before_lem (seq a b) n k = simp (append_assoc, code_before_lem a, code_before_lem b)
  code_before_lem (if_then a) n k = simp (append_assoc, code_before_lem a)
  code_before_lem (if_else a b) n k = simp (append_assoc, code_before_lem a, code_before_lem b)
  code_before_lem (begin_again a) n k = simp (append_assoc, code_before_lem a)
  code_before_lem (begin_until a) n k = simp (append_assoc, code_before_lem a)
  code_before_lem (begin_while a b) n k = simp (append_assoc, code_before_lem a, code_before_lem b)
  code_before_lem (for_next a) n k = simp (append_assoc, code_before_lem a)

  tail_of :
      (a : Source) (n : ℕ) (k prog : List Line)
      → IsSuffix (code_before n a k) prog
      → IsSuffix k prog
  tail_of a n k prog h =
      behind (code p n a) k prog (subst (λ t. IsSuffix t prog) (code_before_lem a n k) h)

  module _ {S : Type 0} (eff : Effects S) (always : (s : S) → eff.decides p.bra.ref true s s)
      (prog : List Line) where
    -- The labels of the code are defined once.
    abbrev Unique : ℕ → ℕ → Type 0
    Unique l n = (m : ℕ) → l ≤ m → m < l + n → definitions m prog ≡ 1

    -- The labels of a part
    part : (l n l' n' : ℕ) → Unique l n → l ≤ l' → l' + n' ≤ l + n → Unique l' n'
    part l n l' n' u h h' m a b = u m (omega arith) (omega arith)

    -- From the front of the code `c` the source `a` runs to the code `k`.
    abbrev Carries : Source → List Line → List Line → Type 0
    Carries a c k =
        (s s' s₂ : S) (j : List Line)
        → Does eff p a s s'
        → Steps eff prog k s' j s₂
        → Steps eff prog c s j s₂

    -- A loop from behind its first label, whose parts run
    module _ (a : Source) (l : ℕ) (body : List Line) (back : behind_label l prog ≡ some body) where
      until-runs :
          (k : List Line)
          → Carries a body (called p.zbra ∷ address l ∷ k)
          → Carries (begin_until a) body k
      until-runs k r s s' s₂ j (until_true x y) g = r _ _ _ _ x (going_on y g)
      until-runs k r s s' s₂ j (until_false x y z) g =
          r _ _ _ _ x (jumping y back (until-runs k r _ _ _ _ z g))

      while-runs :
          (b : Source) (m : ℕ) (second k : List Line)
          → behind_label m prog ≡ some k
          → Carries a body (called p.zbra ∷ address m ∷ second)
          → Carries b second (called p.bra ∷ address l ∷ label m ∷ k)
          → Carries (begin_while a b) body k
      while-runs b m second k end r q s s' s₂ j (while_true x y z w) g = r _ _ _ _ x (
          going_on y
            (q _ _ _ _ z (jumping (always _) back (while-runs b m second k end r q _ _ _ _ w g))))
      while-runs b m second k end r q s s' s₂ j (while_false x y) g = r _ _ _ _ x (jumping y end g)

    Counts-runs :
        (a : Source) (l m : ℕ) (body k : List Line)
        → behind_label l prog ≡ some (called p.dofor ∷ address m ∷ body)
        → behind_label m prog ≡ some k
        → Carries a body (called p.bra ∷ address l ∷ label m ∷ k)
        → (s s' s₂ : S) (j : List Line) → Counts eff p a s s'
        → Steps eff prog k s' j s₂
        → Steps eff prog (called p.dofor ∷ address m ∷ body) s j s₂
    Counts-runs a l m body k back end r s s' s₂ j (used_up x) g = jumping x end g
    Counts-runs a l m body k back end r s s' s₂ j (once_more x y z) g =
        going_on x
          (r _ _ _ _ y (jumping (always _) back (Counts-runs a l m body k back end r _ _ _ _ z g)))

    code_before-runs :
        (a : Source) (l : ℕ) (k : List Line)
        → IsSuffix (code_before l a k) prog
        → Unique l (labels a)
        → Carries a (code_before l a k) k
    unfolding code_before labels
    code_before-runs nothing l k h u s s' s₂ j nothing_to_do g = g
    code_before-runs (run _ _) l k h u s s' s₂ j (runs e) g = at_call e g
    code_before-runs (num _ _) l k h u s s' s₂ j (pushes e) g = at_literal e g
    code_before-runs (seq a b) l k h u s s' s₂ j (in_turn x y) g =
        code_before-runs a l _ h (part _ _ l (labels a) u (omega arith) (omega arith)) _ _ _ _ x (
          code_before-runs b (l + labels a) k (tail_of a l _ prog h)
            (part _ _ (l + labels a) (labels b) u (omega arith) (omega arith)) _ _ _ _ y g)
    code_before-runs (if_then a) l k h u s s' s₂ j (if_taken x y) g = going_on x (
        code_before-runs a (l + 1) _ (behind (called p.zbra ∷ address l ∷ []) _ prog h)
          (part _ _ (l + 1) (labels a) u (omega arith) (omega arith)) _ _ _ _ y (past_label g))
    code_before-runs (if_then a) l k h u s s' s₂ j (if_skipped x) g =
        let end = tail_of a (l + 1) _ prog (behind (called p.zbra ∷ address l ∷ []) _ prog h) in
        jumping x (jump_target l k prog end (u l (omega arith) (omega arith))) g
    code_before-runs (if_else a b) l k h u s s' s₂ j (first_arm x y) g =
        let m = l + 1 + labels a in
        let first = behind (called p.zbra ∷ address l ∷ []) _ prog h in
        let else_at =
          behind (called p.bra ∷ address m ∷ []) _ prog (tail_of a (l + 1) _ prog first) in
        let end = tail_of b (m + 1) _ prog (behind (label l ∷ []) _ prog else_at) in
        going_on x (
          code_before-runs a (l + 1) _ first
            (part _ _ (l + 1) (labels a) u (omega arith) (omega arith)) _ _ _ _ y
            (jumping (always _) (jump_target m k prog end (u m (omega arith) (omega arith))) g))
    code_before-runs (if_else a b) l k h u s s' s₂ j (second_arm x y) g =
        let m = l + 1 + labels a in
        let first = behind (called p.zbra ∷ address l ∷ []) _ prog h in
        let else_at =
          behind (called p.bra ∷ address m ∷ []) _ prog (tail_of a (l + 1) _ prog first) in
        jumping x (jump_target l _ prog else_at (u l (omega arith) (omega arith))) (
          code_before-runs b (m + 1) _ (behind (label l ∷ []) _ prog else_at)
            (part _ _ (m + 1) (labels b) u (omega arith) (omega arith)) _ _ _ _ y (past_label g))
    code_before-runs (begin_again _) l k h u s s' s₂ j d g = elim d [ ]
    code_before-runs (begin_until a) l k h u s s' s₂ j d g =
        let back = jump_target l _ prog h (u l (omega arith) (omega arith)) in
        let body =
          code_before-runs a (l + 1) (called p.zbra ∷ address l ∷ k)
            (behind (label l ∷ []) _ prog h)
            (part _ _ (l + 1) (labels a) u (omega arith) (omega arith)) in
        past_label (until-runs a l _ back k body _ _ _ _ d g)
    code_before-runs (begin_while a b) l k h u s s' s₂ j d g =
        let m = l + 1 + labels a in
        let back = jump_target l _ prog h (u l (omega arith) (omega arith)) in
        let first = behind (label l ∷ []) _ prog h in
        let second =
          behind (called p.zbra ∷ address m ∷ []) _ prog (tail_of a (l + 1) _ prog first) in
        let last =
          behind (called p.bra ∷ address l ∷ []) _ prog (tail_of b (m + 1) _ prog second) in
        past_label (
          while-runs a l _ back b m _ k
            (jump_target m k prog last (u m (omega arith) (omega arith)))
            (code_before-runs a (l + 1) _ first
              (part _ _ (l + 1) (labels a) u (omega arith) (omega arith)))
            (code_before-runs b (m + 1) _ second
              (part _ _ (m + 1) (labels b) u (omega arith) (omega arith)))
            _ _ _ _ d g)
    code_before-runs (for_next a) l k h u s s' s₂ j (counted x y) g =
        let start = behind (called p.push ∷ []) _ prog h in
        let back = jump_target l _ prog start (u l (omega arith) (omega arith)) in
        let body = behind (label l ∷ called p.dofor ∷ address (l + 1) ∷ []) _ prog start in
        let last = behind (called p.bra ∷ address l ∷ []) _ prog (tail_of a (l + 2) _ prog body) in
        at_call x (
          past_label (
            Counts-runs a l (l + 1) _ k back
              (jump_target (l + 1) k prog last (u (l + 1) (omega arith) (omega arith)))
              (code_before-runs a (l + 2) _ body
                (part _ _ (l + 2) (labels a) u (omega arith) (omega arith)))
              _ _ _ _ y g))

    pub code-runs :
        (a : Source) (l : ℕ) (k : List Line) {s s' : S}
        → IsSuffix (code p l a ++ k) prog
        → Unique l (labels a)
        → Does eff p a s s'
        → Steps eff prog (code p l a ++ k) s k s'
    code-runs a l k {s = s} {s' = s'} h u d =
        subst (λ t. Steps eff prog t s k s') (code_before_lem a l k)
          (code_before-runs a l k (subst (λ t. IsSuffix t prog) (sym (code_before_lem a l k)) h) u s
            s' s' k d stop)
