-- ===== src/Bfc/Structures/Steps.antt =====
-- One word of structured source: what `process_file` does with it, between the words behind it.
use fip.Base.{
  ℕ, suc, ◌+◌, ◌%◌, ◌^◌, ◌<◌, ◌≡◌, refl, ap, ◌∙◌, Option, List, [], ◌∷◌, ◌++◌, arith, if◌then◌else◌,
  lt→ltb, length, if-true,
}
use fip.Bfc.Output.{Line, label, address}
use fip.Bfc.State.{Entry, Compiler, Result, ok, ◌>>=◌, push_cntl}
use fip.Bfc.Dictionary.{deref, comp_entry}
use fip.Bfc.Control.{forward, dobegin}
use fip.Bfc.Strings.Laws.{word_lem}
use fip.Bfc.Process.{interpret, process_file}
use fip.Bfc.Structures.{IsWord, called}

-- Words as text, with a blank behind each
unfoldable pub spaced : List (List ℕ) → List ℕ → List ℕ
spaced [] rest = rest
spaced (w ∷ ws) rest = w ++ 32 ∷ spaced ws rest

-- Fuel for these words and `f` more
unfoldable pub with_words : ℕ → List (List ℕ) → ℕ
with_words f [] = f
with_words f (w ∷ ws) = suc (with_words f ws)

pub next_label_lem : (l : ℕ) → l < 256 → (l + 1) % 2 ^ 32 ≡ l + 1
next_label_lem l h = omega arith

module _ (c : Compiler) (rest : List ℕ) where
  -- The compiler at these words, with this output, label, control stack and `wordb`
  abbrev pub at_words : List (List ℕ) → List Line → ℕ → List ℕ → List ℕ → Compiler
  at_words ws o l s w = record c {
    infile = spaced ws rest;
    outfile = o;
    labeli = l;
    cstack = s;
    wordb = w;
  }

  -- What it comes to from there
  unfoldable pub reading : ℕ → List (List ℕ) → List Line → ℕ → List ℕ → List ℕ → Result Compiler
  unfolding spaced process_file with_words
  reading f ws o l s w = process_file (with_words f ws) (at_words ws o l s w)

  pub reading_word :
      (f : ℕ) (w : List ℕ) (ws : List (List ℕ)) (o o' : List Line) (l l' : ℕ) (s s' v : List ℕ)
      → IsWord w
      → interpret (at_words ws o l s w) ≡ ok (at_words ws o' l' s' w)
      → reading f (w ∷ ws) o l s v ≡ reading f ws o' l' s' w
  unfolding reading
  reading_word f w ws o o' l l' s s' v hw e =
      ap
        (λ r. r >>= λ (found, c₁).
          if found then (interpret c₁ >>= process_file (with_words f ws)) else ok c₁)
        (word_lem [] w (spaced ws rest) 32 (at_words (w ∷ ws) o l s v) tt hw refl)
      ∙ ap (λ r. r >>= process_file (with_words f ws)) e

  module _ (ws : List (List ℕ)) (o : List Line) (l : ℕ) (s : List ℕ) (w : List ℕ) where
    pub comp_entry_at :
        (p : Option ℕ) (e : Entry)
        → deref c.dict p ≡ ok e
        → comp_entry p (at_words ws o l s w) ≡ ok (at_words ws (o ++ called e ∷ []) l s w)
    unfolding comp_entry
    comp_entry_at p e h = ap (λ r. r >>= λ x. ok (at_words ws (o ++ called x ∷ []) l s w)) h

    pub push_cntl_at :
        (i : ℕ) → length s < 16 → push_cntl i (at_words ws o l s w) ≡ ok (at_words ws o l (i ∷ s) w)
    unfolding push_cntl
    push_cntl_at i h =
        ap (λ r. r >>= λ t. ok (at_words ws o l t w)) (if-true _ _ (lt→ltb (length s) 16 h))

    pub forward_at :
        length s < 16
        → l < 256
        → forward (at_words ws o l s w) ≡ ok (at_words ws (o ++ address l ∷ []) (l + 1) (l ∷ s) w)
    unfolding forward push_cntl
    forward_at h m =
        ap (λ r. r >>= λ t. ok (at_words ws (o ++ address l ∷ []) ((l + 1) % 2 ^ 32) t w))
          (if-true _ _ (lt→ltb (length s) 16 h))
        ∙ ap (λ k. ok (at_words ws (o ++ address l ∷ []) k (l ∷ s) w)) (next_label_lem l m)

    pub dobegin_at :
        length s < 16
        → l < 256
        → dobegin (at_words ws o l s w) ≡ ok (at_words ws (o ++ label l ∷ []) (l + 1) (l ∷ s) w)
    unfolding dobegin push_cntl
    dobegin_at h m =
        ap (λ r. r >>= λ t. ok (at_words ws (o ++ label l ∷ []) ((l + 1) % 2 ^ 32) t w))
          (if-true _ _ (lt→ltb (length s) 16 h))
        ∙ ap (λ k. ok (at_words ws (o ++ label l ∷ []) k (l ∷ s) w)) (next_label_lem l m)
