-- ===== src/Bfc/Structures/Compiles.antt =====
-- The text of structured source is compiled to its code.
use fip.Base.{
  bytes, ℕ, ◌+◌, ◌≤◌, ◌≡◌, sym, ap, ap₂, ◌∙◌, List, [], ◌∷◌, ◌++◌, append-nil, append_assoc, arith,
  length,
}
use fip.Bfc.Output.{Line, label, address, cell}
use fip.Bfc.State.{Compiler}
use fip.Bfc.Structures.{
  Source, nothing, run, num, seq, if_then, if_else, begin_again, begin_until, begin_while, for_next,
  Primitives, IsReady, IsUnderstood, words, last_word, labels, depth, code, called,
}
use fip.Bfc.Structures.Steps.{reading}
use fip.Bfc.Structures.Branches.{reading_if, reading_then, reading_else}
use fip.Bfc.Structures.Loops.{
  reading_begin, reading_again, reading_until, reading_while, reading_repeat,
}
use fip.Bfc.Structures.Counted.{reading_for, reading_next}
use fip.Bfc.Structures.User.{reading_run, reading_num}

module _ (c : Compiler) (rest : List ℕ) (p : Primitives) (ready : IsReady c.dict c.runtime p)
    (on : c.state ≡ 1) (f : ℕ) where
  pub compile_lem :
      (a : Source) (ws : List (List ℕ)) (o : List Line) (l : ℕ) (s v : List ℕ)
      → IsUnderstood c.dict a
      → length c.dict ≤ l
      → l + labels a ≤ 256
      → length s + depth a ≤ 16
      → reading c rest f (words a ws) o l s v
        ≡ reading c rest f ws (o ++ code p l a) (l + labels a) s (last_word a v)
  unfolding words last_word labels depth code
  compile_lem nothing ws o l s v hu hd hl hs =
      ap₂ (λ t k. reading c rest f ws t k s v) (sym (append-nil o)) (omega arith)
  compile_lem (run w e) ws o l s v hu hd hl hs =
      reading_run c rest p ready f ws o l s w e hu hd (omega arith) v
      ∙ ap (λ k. reading c rest f ws (o ++ called e ∷ []) k s w) (omega arith)
  compile_lem (num w x) ws o l s v hu hd hl hs =
      reading_num c rest p ready f ws o l s w x hu on hd (omega arith) v
      ∙ ap (λ k. reading c rest f ws (o ++ called p.lit ∷ cell x ∷ []) k s w) (omega arith)
  compile_lem (seq a b) ws o l s v (ha, hb) hd hl hs =
      compile_lem a (words b ws) o l s v ha hd (omega arith) (ground arith)
      ∙ compile_lem b ws (o ++ code p l a) (l + labels a) s (last_word a v) hb (omega arith)
          (omega arith) (ground arith)
      ∙ ap₂ (λ t k. reading c rest f ws t k s (last_word b (last_word a v))) (append_assoc o _ _)
          (omega arith)
  compile_lem (if_then a) ws o l s v hu hd hl hs =
      reading_if c rest p ready f (words a (bytes "then" ∷ ws)) o l s (omega arith) (omega arith) v
      ∙ compile_lem a (bytes "then" ∷ ws) (o ++ called p.zbra ∷ address l ∷ []) (l + 1) (l ∷ s)
          (bytes "if") hu (omega arith) (omega arith) (omega arith)
      ∙ reading_then c rest p ready f ws _ (l + 1 + labels a) s l _
      ∙ ap₂ (λ t k. reading c rest f ws t k s (bytes "then")) (simp append_assoc) (omega arith)
  compile_lem (if_else a b) ws o l s v (ha, hb) hd hl hs =
      let o₁ = o ++ called p.zbra ∷ address l ∷ [] in
      let m = l + 1 + labels a in
      reading_if c rest p ready f _ o l s (omega arith) (omega arith) v
      ∙ compile_lem a _ o₁ (l + 1) (l ∷ s) (bytes "if") ha (omega arith) (omega arith)
          (ground arith)
      ∙ reading_else c rest p ready f _ _ m s l (omega arith) (omega arith) _
      ∙ compile_lem b _ _ (m + 1) (m ∷ s) (bytes "else") hb (omega arith) (omega arith)
          (ground arith)
      ∙ reading_then c rest p ready f ws _ (m + 1 + labels b) s m _
      ∙ ap₂ (λ t k. reading c rest f ws t k s (bytes "then")) (simp append_assoc) (omega arith)
  compile_lem (begin_again a) ws o l s v hu hd hl hs =
      reading_begin c rest p ready f _ o l s (omega arith) (omega arith) v
      ∙ compile_lem a _ (o ++ label l ∷ []) (l + 1) (l ∷ s) (bytes "begin") hu (omega arith)
          (omega arith) (omega arith)
      ∙ reading_again c rest p ready f ws _ (l + 1 + labels a) s l _
      ∙ ap₂ (λ t k. reading c rest f ws t k s (bytes "again")) (simp append_assoc) (omega arith)
  compile_lem (begin_until a) ws o l s v hu hd hl hs =
      reading_begin c rest p ready f _ o l s (omega arith) (omega arith) v
      ∙ compile_lem a _ (o ++ label l ∷ []) (l + 1) (l ∷ s) (bytes "begin") hu (omega arith)
          (omega arith) (omega arith)
      ∙ reading_until c rest p ready f ws _ (l + 1 + labels a) s l _
      ∙ ap₂ (λ t k. reading c rest f ws t k s (bytes "until")) (simp append_assoc) (omega arith)
  compile_lem (begin_while a b) ws o l s v (ha, hb) hd hl hs =
      let m = l + 1 + labels a in
      reading_begin c rest p ready f _ o l s (omega arith) (omega arith) v
      ∙ compile_lem a _ (o ++ label l ∷ []) (l + 1) (l ∷ s) (bytes "begin") ha (omega arith)
          (omega arith) (ground arith)
      ∙ reading_while c rest p ready f _ _ m s l (omega arith) (omega arith) _
      ∙ compile_lem b _ _ (m + 1) (l ∷ m ∷ s) (bytes "while") hb (omega arith) (omega arith)
          (ground arith)
      ∙ reading_repeat c rest p ready f ws _ (m + 1 + labels b) s l m _
      ∙ ap₂ (λ t k. reading c rest f ws t k s (bytes "repeat")) (simp append_assoc) (omega arith)
  compile_lem (for_next a) ws o l s v hu hd hl hs =
      reading_for c rest p ready f _ o l s (omega arith) (omega arith) v
      ∙ compile_lem a _ _ (l + 2) (l ∷ (l + 1) ∷ s) (bytes "for") hu (omega arith) (omega arith)
          (omega arith)
      ∙ reading_next c rest p ready f ws _ (l + 2 + labels a) s l (l + 1) _
      ∙ ap₂ (λ t k. reading c rest f ws t k s (bytes "next")) (simp append_assoc) (omega arith)
