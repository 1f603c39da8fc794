-- ===== src/Bfc/Structures/Counted.antt =====
-- What `process_file` does with `for` and `next`.
use mathlib.Core.Path.{◌∙◌}
use fip.Base.{
  ℕ, ◌+◌, ◌<◌, ◌≡◌, refl, ap, ap₂, ◌∙◌, List, [], ◌∷◌, ◌++◌, append_assoc, arith, length, bytes,
  same_bytes,
}
use fip.Bfc.Output.{Line, label, address}
use fip.Bfc.State.{Compiler, Result, ◌>>=◌, push_cntl, pull_cntl, put_line}
use fip.Bfc.Dictionary.{comp_entry}
use fip.Bfc.Control.{forward, backward, dothen, doagain, dodofor, donext}
use fip.Bfc.Process.{host_word, host_words, interpret}
use fip.Bfc.Structures.{Primitives, IsReady, called}
use fip.Bfc.Structures.Steps.{
  at_words, reading, reading_word, comp_entry_at, push_cntl_at, forward_at, next_label_lem,
}
use fip.Bfc.Structures.Words.{three_lines, after, called_then}

module _ (c : Compiler) (rest : List ℕ) (p : Primitives) (ready : IsReady c.dict c.runtime p)
    (f : ℕ) (ws : List (List ℕ)) (o : List Line) (l : ℕ) (s : List ℕ) where
  next_at :
      (i : ℕ) (j : ℕ)
      → donext (at_words c rest ws o l (i ∷ j ∷ s) (bytes "next"))
        ≡ after c rest p ready f ws o l s
            (bytes "next")
            (o ++ called p.bra ∷ address i ∷ label j ∷ [])
            (l)
            (s)
  unfolding donext doagain dothen backward pull_cntl
  next_at i j =
      ap (λ r. r >>= dothen)
        (called_then c rest p ready f ws o l s backward (i ∷ j ∷ s) (bytes "next") c.runtime.bra
          p.bra _ ready.has_bra refl)
      ∙ ap (λ t. after c rest p ready f ws o l s (bytes "next") t l s) (three_lines o _ _ _)

  pub reading_next :
      (i : ℕ) (j : ℕ)
      → (v : List ℕ)
      → reading c rest f (bytes "next" ∷ ws) o l (i ∷ j ∷ s) v
        ≡ reading c rest f ws (o ++ called p.bra ∷ address i ∷ label j ∷ []) (l) (s) (bytes "next")
  unfolding interpret host_word host_words same_bytes
  reading_next i j v =
      reading_word c rest f (bytes "next") ws o _ l _ (i ∷ j ∷ s) _ v
        (record {
          not_empty = omega arith;
          fits = omega arith;
          solid = (refl, (refl, (refl, (refl, tt))));
        })
        (next_at i j)

  for_at :
      length s < 15
      → l < 255
      → dodofor (at_words c rest ws o l s (bytes "for"))
        ≡ after c rest p ready f ws o l s
            (bytes "for")
            (o ++ called p.push ∷ label l ∷ called p.dofor ∷ address (l + 1) ∷ [])
            (l + 2)
            (l ∷ (l + 1) ∷ s)
  unfolding dodofor
  for_at h m =
      let w = bytes "for" in
      let inner : Compiler → Result Compiler = λ c₂. forward c₂ >>= push_cntl l in
      let o₁ = (o ++ called p.push ∷ []) ++ label l ∷ [] in
      let o₂ = o₁ ++ called p.dofor ∷ [] in
      ap
        (λ k. comp_entry c.runtime.push (at_words c rest ws o k s w) >>= λ c₁.
          comp_entry c.runtime.dofor (put_line (label l) c₁) >>= inner)
        (next_label_lem l (omega arith))
      ∙ ap (λ r. r >>= λ c₁. comp_entry c.runtime.dofor (put_line (label l) c₁) >>= inner)
          (comp_entry_at c rest ws o (l + 1) s w c.runtime.push p.push ready.has_push)
      ∙ ap (λ r. r >>= inner)
          (comp_entry_at c rest ws o₁ (l + 1) s w c.runtime.dofor p.dofor ready.has_dofor)
      ∙ ap (λ r. r >>= push_cntl l)
          (forward_at c rest ws o₂ (l + 1) s w (omega arith) (omega arith))
      ∙ push_cntl_at c rest ws (o₂ ++ address (l + 1) ∷ []) (l + 1 + 1) ((l + 1) ∷ s) w l
          (omega arith)
      ∙ ap₂ (λ t k. after c rest p ready f ws o l s w t k (l ∷ (l + 1) ∷ s)) four_lines two_more
    where
      four_lines :
          (((o ++ called p.push ∷ []) ++ label l ∷ []) ++ called p.dofor ∷ [])
            ++ address (l + 1) ∷ []
          ≡ o ++ called p.push ∷ label l ∷ called p.dofor ∷ address (l + 1) ∷ []
      four_lines = simp append_assoc

      two_more : l + 1 + 1 ≡ l + 2
      two_more = omega arith

  pub reading_for :
      length s < 15
      → l < 255
      → (v : List ℕ)
      → reading c rest f (bytes "for" ∷ ws) o l s v
        ≡ reading c rest f ws
            (o ++ called p.push ∷ label l ∷ called p.dofor ∷ address (l + 1) ∷ [])
            (l + 2)
            (l ∷ (l + 1) ∷ s)
            (bytes "for")
  unfolding interpret host_word host_words same_bytes
  reading_for h m v =
      reading_word c rest f (bytes "for") ws o _ l _ s _ v
        (record { not_empty = omega arith; fits = omega arith; solid = (refl, (refl, (refl, tt))) })
        (for_at h m)
