-- ===== src/Bfc/Structures/Whole.antt =====
-- Structured source from its text to what its code does.
use fip.Base.{
  ℕ, ◌+◌, ◌-◌, ◌≤◌, ◌<◌, ◌≡◌, sym, ap, ◌∙◌, subst, true, List, [], ◌∷◌, ◌++◌, append-nil, arith,
  length, drop, drop-append_length,
}
use fip.Bfc.State.{Compiler}
use fip.Bfc.Process.{process_file}
use fip.Bfc.Structures.{
  Source, Primitives, IsReady, IsUnderstood, words, last_word, labels, depth, code,
}
use fip.Bfc.Structures.Steps.{spaced, with_words, reading}
use fip.Bfc.Structures.Compiles.{compile_lem}
use fip.Bfc.Structures.Labels.{definitions, definitions-append, definitions-code, between}
use fip.Bfc.Structures.Meaning.{Effects, Steps, Does}
use fip.Bfc.Structures.Runs.{code-runs}

with_words_lem : (f : ℕ) (ws : List (List ℕ)) → with_words f ws ≡ length ws + f
unfolding with_words
with_words_lem f [] = omega arith
with_words_lem f (w ∷ ws) = omega (arith, with_words_lem f ws)

-- Everything of the state that the compiler leaves behind the source `a`
abbrev pub behind_source : Primitives → Source → List ℕ → Compiler → Compiler
behind_source p a rest c = record c {
  infile = rest;
  outfile = c.outfile ++ code p c.labeli a;
  labeli = c.labeli + labels a;
  wordb = last_word a c.wordb;
}

-- The source is understood, in a definition, and there are labels and space on the stack for it.
pub record IsAccepted (a : Source) (c : Compiler) (p : Primitives) : Type 0 where
  pub ready : IsReady c.dict c.runtime p
  pub compiling : c.state ≡ 1
  pub understood : IsUnderstood c.dict a
  pub numbered : length c.dict ≤ c.labeli
  pub few_labels : c.labeli + labels a ≤ 256
  pub shallow : length c.cstack + depth a ≤ 16

module _ (a : Source) (c : Compiler) (p : Primitives) (good : IsAccepted a c p) (rest : List ℕ)
    (f : ℕ) where
  -- Let `a` be structured source in a definition whose words all have an entry or are numbers,
  -- with at most 256 labels in all and room for its depth on the control stack. With a round for
  -- each of its words and `f` more, `process_file` on its text in front of `rest` goes on with
  -- `f` rounds at `rest`: with the code of `a` behind the output, its labels taken, the last word
  -- in `wordb`, and everything else, the control stack too, as it was.
  pub process_file-code :
      process_file (length (words a []) + f) (record c { infile = spaced (words a []) rest })
      ≡ process_file f (behind_source p a rest c)
  unfolding reading spaced with_words
  process_file-code =
      ap (λ n. process_file n (record c { infile = spaced (words a []) rest }))
        (sym (with_words_lem f (words a [])))
      ∙ compile_lem c rest p good.ready good.compiling f a [] c.outfile c.labeli c.cstack c.wordb
          good.understood good.numbered good.few_labels good.shallow

  code_adds :
      (k : ℕ)
      → definitions k (c.outfile ++ code p c.labeli a)
        ≡ definitions k c.outfile + between c.labeli (labels a) k
  code_adds k =
      definitions-append k c.outfile _
      ∙ ap (λ n. definitions k c.outfile + n) (definitions-code p k a c.labeli)

  -- Let `a` be structured source in a definition whose words all have an entry or are numbers,
  -- with at most 256 labels in all and room for its depth on the control stack. From its text
  -- `process_file` goes on in a state whose output defines each label that was taken for `a` once
  -- more than before, and every other label as often as before.
  pub process_file-definitions :
      (c' : Compiler) × (process_file
          (length (words a []) + f)
          (record c { infile = spaced (words a []) rest })
        ≡ process_file f c')
      × ((k : ℕ)
          → definitions k c'.outfile
            ≡ definitions k c.outfile + between c.labeli (c'.labeli - c.labeli) k)
  process_file-definitions =
      let size : labels a ≡ c.labeli + labels a - c.labeli = omega arith in
      (
        behind_source p a rest c,
        process_file-code,
        λ k. code_adds k ∙ ap (λ n. definitions k c.outfile + between c.labeli n k) size,
      )

  -- Let `a` be structured source in a definition whose words all have an entry or are numbers,
  -- with at most 256 labels in all, room for its depth on the control stack, and a runtime whose
  -- entry `bra` always jumps and changes nothing; and let no label from `labeli` on be defined in
  -- the output. `process_file` takes the words of `a` off its text, and goes on in a state `c'`.
  -- If the source, run by itself, leads from a state `s` of the program to `s'`, then so does the
  -- code that was put out for it, by the jumps to the labels in the whole output.
  pub process_file-runs :
      {S : Type 0} (eff : Effects S) (s s' : S)
      → ((t : S) → eff.decides p.bra.ref true t t)
      → ((k : ℕ) → c.labeli ≤ k → definitions k c.outfile ≡ 0)
      → Does eff p a s s'
      → (c' : Compiler) × (process_file
            (length (words a []) + f)
            (record c { infile = spaced (words a []) rest })
          ≡ process_file f c')
        × Steps eff c'.outfile (drop (length c.outfile) c'.outfile) s [] s'
  process_file-runs eff s s' always fresh d =
      let added = code p c.labeli a in
      let prog = c.outfile ++ added in
      let from_code =
        code-runs p eff always prog a c.labeli []
          (c.outfile, ap (λ t. c.outfile ++ t) (sym (append-nil added))) once d in
      (
        behind_source p a rest c,
        process_file-code,
        subst (λ t. Steps eff prog t s [] s')
            (append-nil added ∙ sym (drop-append_length c.outfile added)) from_code,
      )
    where
      once :
          (m : ℕ)
          → c.labeli ≤ m
          → m < c.labeli + labels a
          → definitions m (c.outfile ++ code p c.labeli a) ≡ 1
      once m h h' = ground (arith, code_adds m, fresh m h)
