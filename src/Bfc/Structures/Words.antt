-- ===== src/Bfc/Structures/Words.antt =====
-- What the words of structured source have in common.
use mathlib.Core.Path.{◌∙◌}
use fip.Base.{ℕ, ◌≡◌, refl, ap, ◌∙◌, Option, List, [], ◌∷◌, ◌++◌}
use fip.Bfc.Output.{Line}
use fip.Bfc.State.{Entry, Compiler, Result, ok, ◌>>=◌}
use fip.Bfc.Dictionary.{comp_entry, deref}
use fip.Bfc.Structures.{Primitives, IsReady, called}
use fip.Bfc.Structures.Steps.{at_words, comp_entry_at}

pub three_lines :
    (o : List Line) (x y z : Line) → ((o ++ x ∷ []) ++ y ∷ []) ++ z ∷ [] ≡ o ++ x ∷ y ∷ z ∷ []
three_lines [] x y z = refl
three_lines (a ∷ o) x y z = ap (λ t. a ∷ t) (three_lines o x y z)

module _ (c : Compiler) (rest : List ℕ) (p : Primitives) (ready : IsReady c.dict c.runtime p)
    (f : ℕ) (ws : List (List ℕ)) (o : List Line) (l : ℕ) (s : List ℕ) where
  -- The compiler behind a word `w`
  abbrev pub after : List ℕ → List Line → ℕ → List ℕ → Result Compiler
  after w o' l' s' = ok (at_words c rest ws o' l' s' w)

  -- A call of the runtime in front of what follows
  pub called_then :
      (k : Compiler → Result Compiler) (t : List ℕ) (w : List ℕ) (q : Option ℕ) (e : Entry)
      (r : Result Compiler)
      → deref c.dict q ≡ ok e
      → k (at_words c rest ws (o ++ called e ∷ []) l t w) ≡ r
      → (comp_entry q (at_words c rest ws o l t w) >>= k) ≡ r
  called_then k t w q e r h h' = ap (λ r'. r' >>= k) (comp_entry_at c rest ws o l t w q e h) ∙ h'
