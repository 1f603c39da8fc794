-- ===== src/Bfc/Invariant/Control.antt =====
-- The words for control structures within the bounds.
use fip.Base.{ℕ, Option}
use fip.Bfc.State.{Compiler, Result, ◌>>=◌, push_cntl, pull_cntl, put_line, next_label}
use fip.Bfc.Dictionary.{comp_entry}
use fip.Bfc.Control.{
  forward, backward, doif, dothen, dobegin, doagain, dountil, dowhile, dorepeat, doelse, dodofor,
  donext, dosemi, dorbrack,
}
use fip.Bfc.Invariant.{IsWithin, Ends, Ends-bind, printed, push_cntl-IsWithin, pull_cntl-IsWithin}
use fip.Bfc.Invariant.Dictionary.{comp_entry-IsWithin}

module _ (n : ℕ) where
  -- A step, and then what follows it
  abbrev pub Keeps : (Compiler → Result Compiler) → Type 0
  Keeps f = (c : Compiler) → IsWithin n c → Ends (IsWithin n) (f c)

  pub then-Keeps :
      (r : Result Compiler) (f : Compiler → Result Compiler)
      → Ends (IsWithin n) r
      → Keeps f
      → Ends (IsWithin n) (r >>= f)
  then-Keeps r f h k = Ends-bind (IsWithin n) (IsWithin n) r f h k

  pulled-Keeps :
      (c : Compiler) (f : ℕ × Compiler → Result Compiler)
      → IsWithin n c
      → ((i : ℕ) → Keeps (λ c₁. f (i, c₁)))
      → Ends (IsWithin n) (pull_cntl c >>= f)
  pulled-Keeps c f h k =
      Ends-bind (λ r. IsWithin n (r.1)) (IsWithin n) (pull_cntl c) f (pull_cntl-IsWithin n c h)
        λ r h'. k r.0 r.1 h'

  called-Keeps :
      (p : Option ℕ) (c : Compiler) (f : Compiler → Result Compiler)
      → IsWithin n c
      → Keeps f
      → Ends (IsWithin n) (comp_entry p c >>= f)
  called-Keeps p c f h k = then-Keeps (comp_entry p c) f (comp_entry-IsWithin n p c h) k

  forward-Keeps : Keeps forward
  unfolding forward
  forward-Keeps c h = push_cntl-IsWithin n _ (printed n c _ _ c.state h) c.labeli

  backward-Keeps : Keeps backward
  unfolding backward
  backward-Keeps c h = pulled-Keeps c _ h λ i c₁ h₁. printed n c₁ _ c₁.labeli c₁.state h₁

  pub doif-Keeps : Keeps doif
  unfolding doif
  doif-Keeps c h = called-Keeps c.runtime.zbra c _ h forward-Keeps

  pub dothen-Keeps : Keeps dothen
  unfolding dothen
  dothen-Keeps c h = pulled-Keeps c _ h λ i c₁ h₁. printed n c₁ _ c₁.labeli c₁.state h₁

  pub dobegin-Keeps : Keeps dobegin
  unfolding dobegin
  dobegin-Keeps c h = push_cntl-IsWithin n _ (printed n c _ _ c.state h) c.labeli

  pub doagain-Keeps : Keeps doagain
  unfolding doagain
  doagain-Keeps c h = called-Keeps c.runtime.bra c _ h backward-Keeps

  pub dountil-Keeps : Keeps dountil
  unfolding dountil
  dountil-Keeps c h = called-Keeps c.runtime.zbra c _ h backward-Keeps

  pub dowhile-Keeps : Keeps dowhile
  unfolding dowhile
  dowhile-Keeps c h = pulled-Keeps c _ h λ i c₁ h₁. called-Keeps c.runtime.zbra c₁ _ h₁ λ c₂ h₂.
      then-Keeps (forward c₂) (push_cntl i) (forward-Keeps c₂ h₂)
        λ c₃ h₃. push_cntl-IsWithin n c₃ h₃ i

  pub dorepeat-Keeps : Keeps dorepeat
  unfolding dorepeat
  dorepeat-Keeps c h = then-Keeps (doagain c) dothen (doagain-Keeps c h) dothen-Keeps

  pub doelse-Keeps : Keeps doelse
  unfolding doelse
  doelse-Keeps c h = pulled-Keeps c _ h λ i c₁ h₁. called-Keeps c.runtime.bra c₁ _ h₁ λ c₂ h₂.
      then-Keeps (forward c₂) _ (forward-Keeps c₂ h₂) λ c₃ h₃. printed n c₃ _ c₃.labeli c₃.state h₃

  pub dodofor-Keeps : Keeps dodofor
  unfolding dodofor
  dodofor-Keeps c h =
      called-Keeps c.runtime.push (next_label c) _ (printed n c c.outfile _ c.state h) λ c₁ h₁.
        called-Keeps c.runtime.dofor (put_line _ c₁) _ (printed n c₁ _ c₁.labeli c₁.state h₁)
          λ c₂ h₂.
            then-Keeps (forward c₂) (push_cntl c.labeli) (forward-Keeps c₂ h₂)
              λ c₃ h₃. push_cntl-IsWithin n c₃ h₃ c.labeli

  pub donext-Keeps : Keeps donext
  unfolding donext
  donext-Keeps c h = then-Keeps (doagain c) dothen (doagain-Keeps c h) dothen-Keeps

  pub dosemi-Keeps : Keeps dosemi
  unfolding dosemi
  dosemi-Keeps c h = printed n c _ c.labeli 0 h

  pub dorbrack-Keeps : Keeps dorbrack
  unfolding dorbrack
  dorbrack-Keeps c h = printed n c c.outfile c.labeli 1 h
