-- ===== src/Bfc/Structures/Labels.antt =====
-- The labels of the code for structured source.
use fip.Base.{ℕ, ◌+◌, ◌≡◌, refl, ◌&&◌, List, [], ◌∷◌, ◌++◌, arith, ltb, leb, ◌==◌, if◌then◌else◌}
use fip.Bfc.Output.{Line, label, entry_label, address}
use fip.Bfc.Structures.{
  Source, nothing, run, num, seq, if_then, if_else, begin_again, begin_until, begin_while, for_next,
  Primitives, labels, code, called,
}

abbrev is_one : ℕ → ℕ → ℕ
is_one k n = if k == n then 1 else 0

-- How often a line of the output defines the label `k`.
abbrev defines : ℕ → Line → ℕ
defines k (label n) = is_one k n
defines k (entry_label n _) = is_one k n
defines k _ = 0

unfoldable pub definitions : ℕ → List Line → ℕ
definitions k [] = 0
definitions k (x ∷ xs) = defines k x + definitions k xs

pub definitions-append :
    (k : ℕ) (xs ys : List Line) → definitions k (xs ++ ys) ≡ definitions k xs + definitions k ys
unfolding definitions
definitions-append k [] ys = omega arith
definitions-append k (x ∷ xs) ys = omega (arith, definitions-append k xs ys)

-- One definition for each of the `n` labels from `l` on
abbrev pub between : ℕ → ℕ → ℕ → ℕ
between l n k = if leb l k && ltb k (l + n) then 1 else 0

module _ (p : Primitives) (k : ℕ) where
  both :
      (xs ys : List Line) (l n l' n' : ℕ)
      → definitions k xs ≡ between l n k
      → definitions k ys ≡ between l' n' k
      → l' ≡ l + n
      → definitions k (xs ++ ys) ≡ between l (n + n') k
  both xs ys l n l' n' h h' e = ground (arith, definitions-append k xs ys, h, h', e)

  pub definitions-code : (a : Source) (l : ℕ) → definitions k (code p l a) ≡ between l (labels a) k
  unfolding definitions code labels
  definitions-code nothing l = ground arith
  definitions-code (run w e) l = ground arith
  definitions-code (num w x) l = ground arith
  definitions-code (seq a b) l =
      both _ _ l _ _ _ (definitions-code a l) (definitions-code b (l + labels a)) refl
  definitions-code (if_then a) l =
      ground
        (arith, definitions-append k (code p (l + 1) a) (label l ∷ []), definitions-code a (l + 1))
  definitions-code (if_else a b) l =
      let m = l + 1 + labels a in
      let second = code p (m + 1) b ++ label m ∷ [] in
      ground (
        arith,
        definitions-append k (code p (l + 1) a) (called p.bra ∷ address m ∷ label l ∷ second),
        definitions-append k (code p (m + 1) b) (label m ∷ []),
        definitions-code a (l + 1),
        definitions-code b (m + 1),
      )
  definitions-code (begin_again a) l = ground (
    arith,
    definitions-append k (code p (l + 1) a) (called p.bra ∷ address l ∷ []),
    definitions-code a (l + 1),
  )
  definitions-code (begin_until a) l = ground (
    arith,
    definitions-append k (code p (l + 1) a) (called p.zbra ∷ address l ∷ []),
    definitions-code a (l + 1),
  )
  definitions-code (begin_while a b) l =
      let m = l + 1 + labels a in
      let back = called p.bra ∷ address l ∷ label m ∷ [] in
      ground (
        arith,
        definitions-append k (code p (l + 1) a)
            (called p.zbra ∷ address m ∷ (code p (m + 1) b ++ back)),
        definitions-append k (code p (m + 1) b) back,
        definitions-code a (l + 1),
        definitions-code b (m + 1),
      )
  definitions-code (for_next a) l = ground (
    arith,
    definitions-append k (code p (l + 2) a) (called p.bra ∷ address l ∷ label (l + 1) ∷ []),
    definitions-code a (l + 2),
  )
