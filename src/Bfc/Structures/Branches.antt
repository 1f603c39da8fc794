-- ===== src/Bfc/Structures/Branches.antt =====
-- What `process_file` does with `if`, `else` and `then`.
use mathlib.Core.Path.{◌∙◌}
use fip.Base.{
  ℕ, ◌+◌, ◌<◌, ◌≡◌, refl, ap, ◌∙◌, List, [], ◌∷◌, ◌++◌, append_assoc, arith, length, bytes,
  same_bytes,
}
use fip.Bfc.Output.{Line, label, address}
use fip.Bfc.State.{Compiler, ok, ◌>>=◌, pull_cntl, put_line}
use fip.Bfc.Control.{forward, doif, dothen, doelse}
use fip.Bfc.Process.{host_word, host_words, interpret}
use fip.Bfc.Structures.{Primitives, IsReady, called}
use fip.Bfc.Structures.Steps.{at_words, reading, reading_word, forward_at}
use fip.Bfc.Structures.Words.{three_lines, after, called_then}

module _ (c : Compiler) (rest : List ℕ) (p : Primitives) (ready : IsReady c.dict c.runtime p)
    (f : ℕ) (ws : List (List ℕ)) (o : List Line) (l : ℕ) (s : List ℕ) where
  if_at :
      length s < 16
      → l < 256
      → doif (at_words c rest ws o l (s) (bytes "if"))
        ≡ after c rest p ready f ws o l s
            (bytes "if")
            (o ++ called p.zbra ∷ address l ∷ [])
            (l + 1)
            (l ∷ s)
  unfolding doif
  if_at h m =
      called_then c rest p ready f ws o l s forward s (bytes "if") c.runtime.zbra p.zbra _
        ready.has_zbra (forward_at c rest ws (o ++ called p.zbra ∷ []) l s (bytes "if") h m)
      ∙ ap (λ t. after c rest p ready f ws o l s (bytes "if") t (l + 1) (l ∷ s))
          (append_assoc o _ _)

  pub reading_if :
      length s < 16
      → l < 256
      → (v : List ℕ)
      → reading c rest f (bytes "if" ∷ ws) o l (s) v
        ≡ reading c rest f ws (o ++ called p.zbra ∷ address l ∷ []) (l + 1) (l ∷ s) (bytes "if")
  unfolding interpret host_word host_words same_bytes
  reading_if h m v =
      reading_word c rest f (bytes "if") ws o _ l _ (s) _ v
        (record { not_empty = omega arith; fits = omega arith; solid = (refl, (refl, tt)) })
        (if_at h m)

  then_at :
      (i : ℕ)
      → dothen (at_words c rest ws o l (i ∷ s) (bytes "then"))
        ≡ after c rest p ready f ws o l s (bytes "then") (o ++ label i ∷ []) (l) (s)
  unfolding dothen pull_cntl
  then_at i = refl

  pub reading_then :
      (i : ℕ)
      → (v : List ℕ)
      → reading c rest f (bytes "then" ∷ ws) o l (i ∷ s) v
        ≡ reading c rest f ws (o ++ label i ∷ []) (l) (s) (bytes "then")
  unfolding interpret host_word host_words same_bytes
  reading_then i v =
      reading_word c rest f (bytes "then") ws o _ l _ (i ∷ s) _ v
        (record {
          not_empty = omega arith;
          fits = omega arith;
          solid = (refl, (refl, (refl, (refl, tt))));
        })
        (then_at i)

  else_at :
      (i : ℕ)
      → length s < 16
      → l < 256
      → doelse (at_words c rest ws o l (i ∷ s) (bytes "else"))
        ≡ after c rest p ready f ws o l s
            (bytes "else")
            (o ++ called p.bra ∷ address l ∷ label i ∷ [])
            (l + 1)
            (l ∷ s)
  unfolding doelse pull_cntl
  else_at i h m =
      called_then c rest p ready f ws o l s (λ c₂. forward c₂ >>= λ c₃. ok (put_line (label i) c₃))
        s (bytes "else") c.runtime.bra p.bra _ ready.has_bra
        (ap (λ r. r >>= λ c₃. ok (put_line (label i) c₃))
          (forward_at c rest ws (o ++ called p.bra ∷ []) l s (bytes "else") h m))
      ∙ ap (λ t. after c rest p ready f ws o l s (bytes "else") t (l + 1) (l ∷ s))
          (three_lines o _ _ _)

  pub reading_else :
      (i : ℕ)
      → length s < 16
      → l < 256
      → (v : List ℕ)
      → reading c rest f (bytes "else" ∷ ws) o l (i ∷ s) v
        ≡ reading c rest f ws
            (o ++ called p.bra ∷ address l ∷ label i ∷ [])
            (l + 1)
            (l ∷ s)
            (bytes "else")
  unfolding interpret host_word host_words same_bytes
  reading_else i h m v =
      reading_word c rest f (bytes "else") ws o _ l _ (i ∷ s) _ v
        (record {
          not_empty = omega arith;
          fits = omega arith;
          solid = (refl, (refl, (refl, (refl, tt))));
        })
        (else_at i h m)
