-- ===== src/Bfc/Structures/User.antt =====
-- What `process_file` does with words that have an entry, and with numbers.
use mathlib.Core.Path.{◌∙◌}
use fip.Base.{
  ℕ, ◌≤◌, ◌≡◌, ap, ◌∙◌, Option, none, some, List, [], ◌∷◌, ◌++◌, append_assoc, ◌==◌, if◌then◌else◌,
  length, if-true, le→leb,
}
use fip.Bfc.Output.{Line, cell}
use fip.Bfc.State.{Entry, Compiler, ok, wild, ◌>>=◌, put_line, quite, word_not_found, push_number}
use fip.Bfc.Dictionary.{findentry, find_loop}
use fip.Bfc.Process.{host_word, host_words, interpret, compile_word, literal, comp_literal}
use fip.Bfc.Dictionary.Laws.{find_loop_beyond}
use fip.Bfc.Structures.{run, num, Primitives, IsReady, IsWord, IsUnderstood, called}
use fip.Bfc.Structures.Steps.{at_words, reading, reading_word, comp_entry_at}
use fip.Bfc.Structures.Words.{after}

module _ (c : Compiler) (rest : List ℕ) (p : Primitives) (ready : IsReady c.dict c.runtime p)
    (f : ℕ) (ws : List (List ℕ)) (o : List Line) (l : ℕ) (s : List ℕ) where
  found :
      (w : List ℕ) (q : Option ℕ)
      → IsWord w
      → find_loop (length c.dict) w c.dict ≡ q
      → length c.dict ≤ l
      → l ≤ 256
      → findentry (at_words c rest ws o l s w) ≡ ok q
  unfolding findentry
  found w q hw hf hd h =
      if-true _ _ (le→leb l 256 h) ∙ ap ok (find_loop_beyond w c.dict l hw.not_empty hd ∙ hf)

  -- A word that is none of the compiler's own
  interpret_user :
      (w : List ℕ) (q : Option ℕ)
      → IsWord w
      → host_word w host_words ≡ none
      → find_loop (length c.dict) w c.dict ≡ q
      → length c.dict ≤ l
      → l ≤ 256
      → interpret (at_words c rest ws o l s w) ≡ compile_word q (at_words c rest ws o l s w)
  unfolding interpret
  interpret_user w q hw hn hf hd h =
      let here = at_words c rest ws o l s w in
      ap (λ r. elim r [ none ↦ findentry here >>= λ e. compile_word e here | some g ↦ g here ]) hn
      ∙ ap (λ r. r >>= λ e. compile_word e here) (found w q hw hf hd h)

  -- A word that has an entry, and a number
  pub reading_run :
      (w : List ℕ) (e : Entry)
      → IsUnderstood c.dict (run w e)
      → length c.dict ≤ l
      → l ≤ 256
      → (v : List ℕ)
      → reading c rest f (w ∷ ws) o l s v ≡ reading c rest f ws (o ++ called e ∷ []) l s w
  unfolding interpret compile_word
  reading_run w e (hw, hn, i, hf, he) hd h v = reading_word c rest f w ws o _ l _ s _ v hw (
      interpret_user w (some i) hw hn hf hd h
      ∙ comp_entry_at c rest ws o l s w (some i) e
          (ap (λ r. elim r [ none ↦ wild | some x ↦ ok x ]) he))

  pub reading_num :
      (w : List ℕ) (k : ℕ)
      → IsUnderstood c.dict (num w k)
      → c.state ≡ 1
      → length c.dict ≤ l
      → l ≤ 256
      → (v : List ℕ)
      → reading c rest f (w ∷ ws) o l s v
        ≡ reading c rest f ws (o ++ called p.lit ∷ cell k ∷ []) l s w
  unfolding interpret compile_word literal
  reading_num w k (hw, hn, hf, hk) on hd h v =
      let here = at_words c rest ws o l s w in
      reading_word c rest f w ws o _ l _ s _ v hw (
        interpret_user w none hw hn hf hd h
        ∙ ap
            (λ r. elim r [
              | none ↦ quite word_not_found
              | some x ↦ if c.state == 0 then push_number x here else comp_literal x here
            ])
            hk
        ∙ ap (λ b. if b == 0 then push_number k here else comp_literal k here) on
        ∙ ap (λ r. r >>= λ c₁. ok (put_line (cell k) c₁))
            (comp_entry_at c rest ws o l s w c.runtime.lit p.lit ready.has_lit)
        ∙ ap (λ t. after c rest p ready f ws o l s w t l s) (append_assoc o _ _))
