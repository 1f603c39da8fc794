-- ===== src/Bfc/Structures/Jumps.antt =====
-- Jumps in code whose labels are defined once.
use fip.Base.{
  ℕ, ◌+◌, ◌≡◌, refl, sym, ap, ◌∙◌, false, some, List, [], ◌∷◌, ◌++◌, append_assoc, arith, ◌==◌,
  if◌then◌else◌, ==_iff, if-true, if-false,
}
use fip.Bfc.Output.{
  Line, label, entry_label, call, address, cell, byte, decimal, ascii, asciz, exit, copied,
  dict_label, link, flags_byte, last_entry, here,
}
use fip.Bfc.Structures.Labels.{definitions, definitions-append}
use fip.Bfc.Structures.Meaning.{behind_label}

-- A jump finds the only definition of its label.
not_here : (k n : ℕ) (d : ℕ) → (if k == n then 1 else 0) + d ≡ 0 → ((k == n) ≡ false) × (d ≡ 0)
not_here k n d h = ground arith

behind_label_unique :
    (k : ℕ) (pre suf : List Line)
    → definitions k pre ≡ 0
    → behind_label k (pre ++ label k ∷ suf) ≡ some suf
unfolding behind_label definitions
behind_label_unique k [] suf h = if-true _ _ ((==_iff k k).1 refl)
behind_label_unique k (label n ∷ pre) suf h =
    let (ne, h') = not_here k n _ h in if-false _ _ ne ∙ behind_label_unique k pre suf h'
behind_label_unique k (entry_label n _ ∷ pre) suf h =
    let (ne, h') = not_here k n _ h in if-false _ _ ne ∙ behind_label_unique k pre suf h'
behind_label_unique k (call _ _ ∷ pre) suf h = behind_label_unique k pre suf (omega (arith, h))
behind_label_unique k (address _ ∷ pre) suf h = behind_label_unique k pre suf (omega (arith, h))
behind_label_unique k (cell _ ∷ pre) suf h = behind_label_unique k pre suf (omega (arith, h))
behind_label_unique k (byte _ ∷ pre) suf h = behind_label_unique k pre suf (omega (arith, h))
behind_label_unique k (decimal _ ∷ pre) suf h = behind_label_unique k pre suf (omega (arith, h))
behind_label_unique k (ascii _ _ ∷ pre) suf h = behind_label_unique k pre suf (omega (arith, h))
behind_label_unique k (asciz _ _ ∷ pre) suf h = behind_label_unique k pre suf (omega (arith, h))
behind_label_unique k (exit ∷ pre) suf h = behind_label_unique k pre suf (omega (arith, h))
behind_label_unique k (copied _ ∷ pre) suf h = behind_label_unique k pre suf (omega (arith, h))
behind_label_unique k (dict_label _ _ ∷ pre) suf h =
    behind_label_unique k pre suf (omega (arith, h))
behind_label_unique k (link _ ∷ pre) suf h = behind_label_unique k pre suf (omega (arith, h))
behind_label_unique k (flags_byte _ ∷ pre) suf h = behind_label_unique k pre suf (omega (arith, h))
behind_label_unique k (last_entry _ ∷ pre) suf h = behind_label_unique k pre suf (omega (arith, h))
behind_label_unique k (here ∷ pre) suf h = behind_label_unique k pre suf (omega (arith, h))

abbrev pub IsSuffix : List Line → List Line → Type 0
IsSuffix xs prog = (pre : List Line) × (prog ≡ pre ++ xs)

pub behind : (x : List Line) (k prog : List Line) → IsSuffix (x ++ k) prog → IsSuffix k prog
behind x k prog (pre, e) = (pre ++ x, e ∙ sym (append_assoc pre x k))

pub jump_target :
    (k : ℕ) (suf prog : List Line)
    → IsSuffix (label k ∷ suf) prog
    → definitions k prog ≡ 1
    → behind_label k prog ≡ some suf
unfolding definitions
jump_target k suf prog (pre, e) h =
    let one : ◌≡◌ {A = ℕ} (if k == k then 1 else 0) 1 = ground arith in
    let d : definitions k pre + definitions k (label k ∷ suf) ≡ 1 =
      sym (definitions-append k pre _) ∙ ap (definitions k) (sym e) ∙ h in
    ap (behind_label k) e ∙ behind_label_unique k pre suf (omega (arith, d, one))
