-- ===== src/Uncompress/Writer.antt =====
-- The output buffer of uncompress/uncompress.c: `obuf`, `opos`, `outflush` and `outbyte`.
-- `file` is what `write(out, ...)` has taken so far; a `write` that fails or is short is not
-- modelled.
use fip.Base.{
  ℕ, ◌+◌, ◌<◌, ◌≡◌, List, [], ◌∷◌, ◌++◌, arith, append-nil, length, set, take, u8, Bool-cases,
  if◌then◌else◌, refl, suc, ap, ◌==◌, subst, take-set_next, ◌∙◌, sym, append_assoc, inl, length-set,
  inr,
}
use fip.Uncompress.Reader.{bufz}

pub record Writer : Type 0 where
  pub file : List ℕ
  pub obuf : List ℕ
  pub opos : ℕ

-- `write(out, &obuf, opos); opos = 0;`
unfoldable pub outflush : Writer → Writer
outflush w = record w { file = w.file ++ take w.opos w.obuf; opos = 0 }

unfoldable pub outbyte : ℕ → Writer → Writer
outbyte c w =
    let w' = record w { obuf = set w.obuf w.opos (u8 c); opos = w.opos + 1 } in
    if w'.opos == bufz then outflush w' else w'

pub record IsWriting (w : Writer) : Type 0 where
  pub whole : length w.obuf ≡ bufz
  pub room : w.opos < bufz

-- All bytes put out so far, in the file or still in the buffer.
abbrev pub written : Writer → List ℕ
written w = w.file ++ take w.opos w.obuf

-- `outflush` loses nothing, and leaves nothing in the buffer.
pub outflush_lem :
    (w : Writer)
    → IsWriting w
    → ((outflush w).file ≡ written w) × (written (outflush w) ≡ written w) × IsWriting (outflush w)
unfolding outflush
outflush_lem w v = (refl, append-nil _, ground arith)

-- On a valid output buffer, `outbyte` appends its byte to what was put out, in the buffer or the
-- file, and leaves the buffer valid, with room for the next byte.
pub outbyte_lem :
    (c : ℕ) (w : Writer)
    → IsWriting w
    → (written (outbyte c w) ≡ written w ++ u8 c ∷ []) × IsWriting (outbyte c w)
unfolding outbyte outflush
outbyte_lem c w v = elim (Bool-cases (w.opos + 1 == bufz)) [
  | inl full ↦ rw full (append-nil _ ∙ stored, ground (arith, length-set w.obuf w.opos (u8 c)))
  | inr more ↦ rw more (stored, ground (arith, more, length-set w.obuf w.opos (u8 c)))
]
  where
    next : suc w.opos ≡ w.opos + 1
    next = omega arith

    stored :
        w.file ++ take (w.opos + 1) (set w.obuf w.opos (u8 c))
        ≡ (w.file ++ take w.opos w.obuf) ++ u8 c ∷ []
    stored =
        ap (λ t. w.file ++ t)
          (subst (λ k. take k (set w.obuf w.opos (u8 c)) ≡ take w.opos w.obuf ++ u8 c ∷ []) next
            (take-set_next w.obuf w.opos (u8 c) (omega (arith, v.whole, v.room))))
        ∙ sym (append_assoc w.file (take w.opos w.obuf) (u8 c ∷ []))
