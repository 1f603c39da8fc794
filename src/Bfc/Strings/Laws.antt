-- ===== src/Bfc/Strings/Laws.antt =====
-- What `word` reads.
use fip.Base.{
  ℕ, ◌≡◌, refl, ap, ◌∙◌, true, false, List, [], ◌∷◌, ◌++◌, arith, lt→ltb, length, All, if-true,
  if-false,
}
use fip.Bfc.Input.{isfblank, skip_blanks, take_word}
use fip.Bfc.State.{Compiler, ok, ◌>>=◌}
use fip.Bfc.Strings.{word, at_word, into_wordb}
use fip.Bfc.Structures.{IsWord}

skip_blanks-append :
    (bs s : List ℕ) → All (λ c. isfblank c ≡ true) bs → skip_blanks (bs ++ s) ≡ skip_blanks s
unfolding skip_blanks
skip_blanks-append [] s h = refl
skip_blanks-append (b ∷ bs) s (h, hs) = if-true _ _ h ∙ skip_blanks-append bs s hs

skip_blanks_solid : (x : ℕ) (s : List ℕ) → isfblank x ≡ false → skip_blanks (x ∷ s) ≡ x ∷ s
unfolding skip_blanks
skip_blanks_solid x s h = if-false _ _ h

take_word-append :
    (w s : List ℕ) (b : ℕ)
    → All (λ c. isfblank c ≡ false) w
    → isfblank b ≡ true
    → take_word (w ++ b ∷ s) ≡ (w, s)
unfolding take_word
take_word-append [] s b h hb = if-true _ _ hb
take_word-append (c ∷ w) s b (h, hs) hb =
    if-false _ _ h ∙ ap (λ r. (c ∷ r.0, r.1)) (take_word-append w s b hs hb)

pub word_lem :
    (bs w s : List ℕ) (b : ℕ) (c : Compiler)
    → All (λ c. isfblank c ≡ true) bs
    → IsWord w
    → isfblank b ≡ true
    → word (record c { infile = bs ++ (w ++ b ∷ s) })
      ≡ ok (true, record c { wordb = w; infile = s })
unfolding word
word_lem bs [] s b c hbs hw hb = absurd (omega (arith, hw.not_empty))
word_lem bs (x ∷ w) s b c hbs hw hb =
    let (hx, _) = hw.solid in
    ap (λ t. at_word t (record c { infile = bs ++ (x ∷ w ++ b ∷ s) }))
      (skip_blanks-append bs (x ∷ w ++ b ∷ s) hbs ∙ skip_blanks_solid x (w ++ b ∷ s) hx)
    ∙ ap
        (λ r.
          into_wordb r.0 r.1 (record c { infile = bs ++ (x ∷ w ++ b ∷ s) }) >>= λ c₁. ok (true, c₁))
        (take_word-append (x ∷ w) s b hw.solid hb)
    ∙ ap (λ r. r >>= λ c₁. ok (true, c₁)) (if-true _ _ (lt→ltb (length (x ∷ w)) 64 hw.fits))
