-- ===== src/Bfc/Structures/Loops.antt =====
-- What `process_file` does with the words of loops.
use mathlib.Core.Path.{◌∙◌}
use fip.Base.{
  ℕ, ◌+◌, ◌<◌, ◌≡◌, refl, ap, ◌∙◌, List, [], ◌∷◌, ◌++◌, append_assoc, arith, length, bytes,
  same_bytes,
}
use fip.Bfc.Output.{Line, label, address}
use fip.Bfc.State.{Compiler, ◌>>=◌, push_cntl, pull_cntl}
use fip.Bfc.Control.{forward, backward, dothen, dobegin, doagain, dountil, dowhile, dorepeat}
use fip.Bfc.Process.{host_word, host_words, interpret}
use fip.Bfc.Structures.{Primitives, IsReady, called}
use fip.Bfc.Structures.Steps.{at_words, reading, reading_word, push_cntl_at, forward_at, dobegin_at}
use fip.Bfc.Structures.Words.{three_lines, after, called_then}

module _ (c : Compiler) (rest : List ℕ) (p : Primitives) (ready : IsReady c.dict c.runtime p)
    (f : ℕ) (ws : List (List ℕ)) (o : List Line) (l : ℕ) (s : List ℕ) where
  begin_at :
      length s < 16
      → l < 256
      → dobegin (at_words c rest ws o l (s) (bytes "begin"))
        ≡ after c rest p ready f ws o l s (bytes "begin") (o ++ label l ∷ []) (l + 1) (l ∷ s)
  begin_at h m = dobegin_at c rest ws o l s (bytes "begin") h m

  pub reading_begin :
      length s < 16
      → l < 256
      → (v : List ℕ)
      → reading c rest f (bytes "begin" ∷ ws) o l (s) v
        ≡ reading c rest f ws (o ++ label l ∷ []) (l + 1) (l ∷ s) (bytes "begin")
  unfolding interpret host_word host_words same_bytes
  reading_begin h m v =
      reading_word c rest f (bytes "begin") ws o _ l _ (s) _ v
        (record {
          not_empty = omega arith;
          fits = omega arith;
          solid = (refl, (refl, (refl, (refl, (refl, tt)))));
        })
        (begin_at h m)

  again_at :
      (i : ℕ)
      → doagain (at_words c rest ws o l (i ∷ s) (bytes "again"))
        ≡ after c rest p ready f ws o l s
            (bytes "again")
            (o ++ called p.bra ∷ address i ∷ [])
            (l)
            (s)
  unfolding doagain backward pull_cntl
  again_at i =
      called_then c rest p ready f ws o l s backward (i ∷ s) (bytes "again") c.runtime.bra p.bra _
        ready.has_bra refl
      ∙ ap (λ t. after c rest p ready f ws o l s (bytes "again") t l (s)) (append_assoc o _ _)

  pub reading_again :
      (i : ℕ)
      → (v : List ℕ)
      → reading c rest f (bytes "again" ∷ ws) o l (i ∷ s) v
        ≡ reading c rest f ws (o ++ called p.bra ∷ address i ∷ []) (l) (s) (bytes "again")
  unfolding interpret host_word host_words same_bytes
  reading_again i v =
      reading_word c rest f (bytes "again") ws o _ l _ (i ∷ s) _ v
        (record {
          not_empty = omega arith;
          fits = omega arith;
          solid = (refl, (refl, (refl, (refl, (refl, tt)))));
        })
        (again_at i)

  until_at :
      (i : ℕ)
      → dountil (at_words c rest ws o l (i ∷ s) (bytes "until"))
        ≡ after c rest p ready f ws o l s
            (bytes "until")
            (o ++ called p.zbra ∷ address i ∷ [])
            (l)
            (s)
  unfolding dountil backward pull_cntl
  until_at i =
      called_then c rest p ready f ws o l s backward (i ∷ s) (bytes "until") c.runtime.zbra p.zbra _
        ready.has_zbra refl
      ∙ ap (λ t. after c rest p ready f ws o l s (bytes "until") t l (s)) (append_assoc o _ _)

  pub reading_until :
      (i : ℕ)
      → (v : List ℕ)
      → reading c rest f (bytes "until" ∷ ws) o l (i ∷ s) v
        ≡ reading c rest f ws (o ++ called p.zbra ∷ address i ∷ []) (l) (s) (bytes "until")
  unfolding interpret host_word host_words same_bytes
  reading_until i v =
      reading_word c rest f (bytes "until") ws o _ l _ (i ∷ s) _ v
        (record {
          not_empty = omega arith;
          fits = omega arith;
          solid = (refl, (refl, (refl, (refl, (refl, tt)))));
        })
        (until_at i)

  while_at :
      (i : ℕ)
      → length s < 15
      → l < 256
      → dowhile (at_words c rest ws o l (i ∷ s) (bytes "while"))
        ≡ after c rest p ready f ws o l s
            (bytes "while")
            (o ++ called p.zbra ∷ address l ∷ [])
            (l + 1)
            (i ∷ l ∷ s)
  unfolding dowhile pull_cntl
  while_at i h m =
      called_then c rest p ready f ws o l s (λ c₂. forward c₂ >>= push_cntl i) s (bytes "while")
        c.runtime.zbra p.zbra _ ready.has_zbra
        (ap (λ r. r >>= push_cntl i)
            (forward_at c rest ws (o ++ called p.zbra ∷ []) l s (bytes "while") (omega arith) m)
          ∙ push_cntl_at c rest ws ((o ++ called p.zbra ∷ []) ++ address l ∷ []) (l + 1) (l ∷ s)
              (bytes "while") i (omega arith))
      ∙ ap (λ t. after c rest p ready f ws o l s (bytes "while") t (l + 1) (i ∷ l ∷ s))
          (append_assoc o _ _)

  pub reading_while :
      (i : ℕ)
      → length s < 15
      → l < 256
      → (v : List ℕ)
      → reading c rest f (bytes "while" ∷ ws) o l (i ∷ s) v
        ≡ reading c rest f ws
            (o ++ called p.zbra ∷ address l ∷ [])
            (l + 1)
            (i ∷ l ∷ s)
            (bytes "while")
  unfolding interpret host_word host_words same_bytes
  reading_while i h m v =
      reading_word c rest f (bytes "while") ws o _ l _ (i ∷ s) _ v
        (record {
          not_empty = omega arith;
          fits = omega arith;
          solid = (refl, (refl, (refl, (refl, (refl, tt)))));
        })
        (while_at i h m)

  repeat_at :
      (i : ℕ) (j : ℕ)
      → dorepeat (at_words c rest ws o l (i ∷ j ∷ s) (bytes "repeat"))
        ≡ after c rest p ready f ws o l s
            (bytes "repeat")
            (o ++ called p.bra ∷ address i ∷ label j ∷ [])
            (l)
            (s)
  unfolding dorepeat doagain dothen backward pull_cntl
  repeat_at i j =
      ap (λ r. r >>= dothen)
        (called_then c rest p ready f ws o l s backward (i ∷ j ∷ s) (bytes "repeat") c.runtime.bra
          p.bra _ ready.has_bra refl)
      ∙ ap (λ t. after c rest p ready f ws o l s (bytes "repeat") t l s) (three_lines o _ _ _)

  pub reading_repeat :
      (i : ℕ) (j : ℕ)
      → (v : List ℕ)
      → reading c rest f (bytes "repeat" ∷ ws) o l (i ∷ j ∷ s) v
        ≡ reading c rest f ws
            (o ++ called p.bra ∷ address i ∷ label j ∷ [])
            (l)
            (s)
            (bytes "repeat")
  unfolding interpret host_word host_words same_bytes
  reading_repeat i j v =
      reading_word c rest f (bytes "repeat") ws o _ l _ (i ∷ j ∷ s) _ v
        (record {
          not_empty = omega arith;
          fits = omega arith;
          solid = (refl, (refl, (refl, (refl, (refl, (refl, tt))))));
        })
        (repeat_at i j)
