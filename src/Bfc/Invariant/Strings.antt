-- ===== src/Bfc/Invariant/Strings.antt =====
-- The words that read on within the bounds.
use fip.Base.{
  ℕ, zero, suc, ◌-◌, ◌^◌, ◌≤◌, ◌≡◌, refl, sym, subst, inl, inr, Bool, true, false, Option, none,
  some, List, [], ◌∷◌, arith, ltb, ◌==◌, if◌then◌else◌, Bool-cases, ltb→lt, length, if-true,
  if-false,
}
use fip.Bfc.Input.{skip_blanks, take_word, take_until, fgets, behind_comment, isfblank}
use fip.Bfc.State.{Compiler, Result, ok, ◌>>=◌, pull_number, put_line, eof_in_string, quite, wild}
use fip.Bfc.Dictionary.{comp_entry, mkentry, deref}
use fip.Bfc.Strings.{
  into_wordb, at_word, word, at_string, wordb_str, dostring, docstring, asm_loop, doasm, doprim,
  docolon, dodovar, doallot, dolcom,
}
use fip.Bfc.Invariant.{IsWithin, Ends, Ends-bind, Ends-if, printed, pull_number-IsWithin, quite}
use fip.Bfc.Invariant.Dictionary.{deref-Ends, comp_entry-IsWithin, mkentry-IsWithin}
use fip.Bfc.Invariant.Control.{Keeps, then-Keeps}

-- Nothing is read twice.
skip_blanks-le : (s : List ℕ) → length (skip_blanks s) ≤ length s
unfolding skip_blanks
skip_blanks-le [] = omega arith
skip_blanks-le (c ∷ s) = ground (arith, skip_blanks-le s)

take_word-le : (s : List ℕ) → length ((take_word s).1) ≤ length s
unfolding take_word
take_word-le [] = omega arith
take_word-le (c ∷ s) = ground (arith, take_word-le s)

behind_comment-le : (s : List ℕ) → length (behind_comment s) ≤ length s
unfolding behind_comment
behind_comment-le [] = omega arith
behind_comment-le (c ∷ s) = ground (arith, behind_comment-le s)

fgets-le : (n : ℕ) (s : List ℕ) → length ((fgets n s).1) ≤ length s
unfolding fgets
fgets-le zero s = omega arith
fgets-le (suc n) [] = omega arith
fgets-le (suc n) (c ∷ s) = ground (arith, fgets-le n s)

le_trans : (a b c : ℕ) → a ≤ b → b ≤ c → a ≤ c
le_trans a b c h k = omega arith

either_le :
    {A : Type 0} (b : Bool) (x y : A × List ℕ) (n : ℕ)
    → length (x.1) ≤ n
    → length (y.1) ≤ n
    → length ((if b then x else y).1) ≤ n
either_le true x y n h k = h
either_le false x y n h k = k

asm_loop-le : (f : ℕ) (s : List ℕ) → length ((asm_loop f s).1) ≤ length s
unfolding asm_loop
asm_loop-le zero s = omega arith
asm_loop-le (suc f) [] = omega arith
asm_loop-le (suc f) (c ∷ s) =
    let rest = (fgets 255 (c ∷ s)).1 in
    either_le _ _ _ (suc (length s)) (fgets-le 255 (c ∷ s))
      (le_trans _ (length rest) (suc (length s)) (asm_loop-le f rest) (fgets-le 255 (c ∷ s)))

-- A string ends within what is left.
abbrev Inside : ℕ → Option (List ℕ × List ℕ) → Type 0
Inside n none = Unit
Inside n (some (_, r)) = length r ≤ n

Inside-cons :
    (n x : ℕ) (o : Option (List ℕ × List ℕ))
    → Inside n o
    → Inside (suc n) (elim o [ none ↦ none | some (t, r) ↦ some (x ∷ t, r) ])
Inside-cons n x none h = tt
Inside-cons n x (some (t, r)) h = omega arith

take_until-Inside : (d : ℕ) (s : List ℕ) → Inside (length s) (take_until d s)
unfolding take_until
take_until-Inside d [] = tt
take_until-Inside d (c ∷ s) = elim (Bool-cases (c == d)) [
  | inl e ↦ subst (Inside (suc (length s))) (sym (if-true _ _ e)) (omega arith)
  | inr e ↦
      subst (Inside (suc (length s))) (sym (if-false _ _ e))
        (Inside-cons (length s) c (take_until d s) (take_until-Inside d s))
]

-- `true` is a word, behind which there is less than before.
abbrev pub WordRead : ℕ → Bool × Compiler → Type 0
WordRead n (true, c) = (1 ≤ n) × IsWithin (n - 1) c
WordRead n (false, c) = IsWithin n c × (c.infile ≡ [])

moved :
    (n m : ℕ) (c : Compiler) (s : List ℕ)
    → IsWithin n c
    → length s ≤ m
    → IsWithin m (record c { infile = s })
moved n m c s h l = record {
  entries = h.entries;
  controls = h.controls;
  numbers = h.numbers;
  letters = h.letters;
  pointers = h.pointers;
  left = l;
}

pub weaker : (n m : ℕ) (c : Compiler) → IsWithin n c → n ≤ m → IsWithin m c
weaker n m c h l = moved n m c c.infile h (omega (arith, h.left))

into_wordb-IsWithin :
    (n m : ℕ) (w rest : List ℕ) (c : Compiler)
    → IsWithin n c
    → length rest ≤ m
    → Ends (IsWithin m) (into_wordb w rest c)
into_wordb-IsWithin n m w rest c h l =
    Ends-if (IsWithin m) (ltb (length w) 64) _ _
      (λ e. record {
        entries = h.entries;
        controls = h.controls;
        numbers = h.numbers;
        letters = ltb→lt (length w) 64 e;
        pointers = h.pointers;
        left = l;
      })
      (λ e. tt)

take_word-lt : (c : ℕ) (s : List ℕ) → length ((take_word (c ∷ s)).1) ≤ length s
unfolding take_word
take_word-lt c s = either_le (isfblank c) _ _ _ (omega arith) (take_word-le s)

at_word-WordRead :
    (n : ℕ) (s : List ℕ) (c : Compiler)
    → IsWithin n c
    → length s ≤ n
    → Ends (WordRead n) (at_word s c)
at_word-WordRead n [] c h l = (moved n n c [] h (omega arith), refl)
at_word-WordRead n (x ∷ s) c h l =
    let t = take_word (x ∷ s) in
    Ends-bind (IsWithin (n - 1)) (WordRead n) (into_wordb (t.0) (t.1) c) (λ c₁. ok (true, c₁))
      (into_wordb-IsWithin n (n - 1) (t.0) (t.1) c h (omega (arith, take_word-lt x s)))
      λ c₁ h₁. (omega arith, h₁)

pub word-WordRead : (n : ℕ) (c : Compiler) → IsWithin n c → Ends (WordRead n) (word c)
unfolding word
word-WordRead n c h =
    at_word-WordRead n (skip_blanks c.infile) c h (omega (arith, skip_blanks-le c.infile, h.left))

at_string-IsWithin :
    (n : ℕ) (s : List ℕ) (c : Compiler)
    → IsWithin n c
    → length s ≤ n
    → Ends (λ r. IsWithin n (r.1)) (at_string s c)
at_string-IsWithin n [] c h l = tt
at_string-IsWithin n (d ∷ s) c h l = read (take_until d s) (take_until-Inside d s)
  where
    read :
        (o : Option (List ℕ × List ℕ))
        → Inside (length s) o
        → Ends {A = ℕ × Compiler}
            (λ r. IsWithin n (r.1))
            (elim o [
              | none ↦ if ltb 64 (length s) then wild else quite eof_in_string
              | some (w, rest) ↦ do c₁ ← into_wordb w rest c; ok (d, c₁)
            ])
    read none i = Ends-if (λ r. IsWithin n (r.1)) (ltb 64 (length s)) _ _ (λ e. tt) (λ e. tt)
    read (some (w, rest)) i =
        Ends-bind (IsWithin n) (λ r. IsWithin n (r.1)) (into_wordb w rest c) _
          (into_wordb-IsWithin n n w rest c h (omega arith)) λ c₁ h₁. h₁

module _ (n : ℕ) where
  word-Keeps :
      (c : Compiler) (f : Bool × Compiler → Result Compiler)
      → IsWithin n c
      → ((b : Bool) → Keeps n (λ c₁. f (b, c₁)))
      → Ends (IsWithin n) (word c >>= f)
  word-Keeps c f h k =
      Ends-bind (WordRead n) (IsWithin n) (word c) f (word-WordRead n c h)
        λ r h'. k r.0 r.1 (either r h')
    where
      either : (r : Bool × Compiler) → WordRead n r → IsWithin n (r.1)
      either (true, c₁) (_, h₁) = weaker (n - 1) n c₁ h₁ (omega arith)
      either (false, c₁) (h₁, _) = h₁

  string-Keeps :
      (c : Compiler) (f : ℕ × Compiler → Result Compiler)
      → IsWithin n c
      → ((d : ℕ) → Keeps n (λ c₁. f (d, c₁)))
      → Ends (IsWithin n) (wordb_str c >>= f)
  unfolding wordb_str
  string-Keeps c f h k =
      Ends-bind (λ r. IsWithin n (r.1)) (IsWithin n) (wordb_str c) f
        (at_string-IsWithin n (skip_blanks c.infile) c h
          (omega (arith, skip_blanks-le c.infile, h.left)))
        λ r h'. k r.0 r.1 h'

  pub dostring-Keeps : Keeps n dostring
  unfolding dostring
  dostring-Keeps c h = string-Keeps c _ h λ d c₁ h₁.
      then-Keeps n (comp_entry c.runtime.slit c₁) _ (comp_entry-IsWithin n c.runtime.slit c₁ h₁)
        λ c₂ h₂. printed n c₂ _ c₂.labeli c₂.state h₂

  pub docstring-Keeps : Keeps n docstring
  unfolding docstring
  docstring-Keeps c h = string-Keeps c _ h λ d c₁ h₁.
      then-Keeps n (comp_entry c.runtime.slit c₁) _ (comp_entry-IsWithin n c.runtime.slit c₁ h₁)
        λ c₂ h₂. printed n c₂ _ c₂.labeli c₂.state h₂

  pub doasm-Keeps : Keeps n (λ c. ok (doasm c))
  unfolding doasm
  doasm-Keeps c h = printed n _ _ c.labeli c.state (
      moved n n c ((asm_loop (length c.infile) c.infile).1) h
        (omega (arith, asm_loop-le (length c.infile) c.infile, h.left)))

  pub dolcom-Keeps : Keeps n (λ c. ok (dolcom c))
  unfolding dolcom
  dolcom-Keeps c h = moved n n c _ h (omega (arith, behind_comment-le c.infile, h.left))

  pub doprim-Keeps : Keeps n doprim
  unfolding doprim
  doprim-Keeps c h =
      word-Keeps c _ h λ b c₁ h₁. then-Keeps n (mkentry c₁) _ (mkentry-IsWithin n c₁ h₁) doasm-Keeps

  pub docolon-Keeps : Keeps n docolon
  unfolding docolon
  docolon-Keeps c h = word-Keeps c _ h λ b c₁ h₁.
      then-Keeps n (mkentry c₁) _ (mkentry-IsWithin n c₁ h₁)
        λ c₂ h₂. printed n c₂ c₂.outfile c₂.labeli 1 h₂

  pub doallot-Keeps : Keeps n doallot
  unfolding doallot
  doallot-Keeps c h =
      Ends-bind (λ r. IsWithin n (r.1)) (IsWithin n) (pull_number c) _ (pull_number-IsWithin n c h)
        λ (k, c₁) h₁.
          Ends-if (IsWithin n) (ltb k (2 ^ 31)) _ _ (λ e. printed n c₁ _ c₁.labeli c₁.state h₁)
            (λ e. tt)

  pub dodovar-Keeps : Keeps n dodovar
  unfolding dodovar
  dodovar-Keeps c h = word-Keeps c _ h λ b c₁ h₁.
      then-Keeps n (mkentry c₁) _ (mkentry-IsWithin n c₁ h₁) λ c₂ h₂.
        then-Keeps n (comp_entry c₂.runtime.dodoes c₂) _
          (comp_entry-IsWithin n c₂.runtime.dodoes c₂ h₂)
          λ c₃ h₃.
            Ends-bind (λ _. Unit) (IsWithin n) (deref c₃.dict c₃.runtime.noop) _
              (deref-Ends c₃.dict c₃.runtime.noop)
              λ e _.
                Ends-bind (λ r. IsWithin n (r.1)) (IsWithin n) (pull_number (put_line _ c₃)) _
                  (pull_number-IsWithin n _ (printed n c₃ _ c₃.labeli c₃.state h₃))
                  λ (k, c₄) h₄. printed n c₄ _ c₄.labeli c₄.state h₄
