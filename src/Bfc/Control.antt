-- ===== src/Bfc/Control.antt =====
-- The words of bfc/bfc.c for control structures, which leave labels on the control stack.
use fip.Bfc.Output.{label, address, exit}
use fip.Bfc.State.{Compiler, Result, ok, ◌>>=◌, put_line, next_label, push_cntl, pull_cntl}
use fip.Bfc.Dictionary.{comp_entry}

-- `fprintf( outfile, "\t\tdw L%x\n", labeli ); push_cntl( labeli++ )`
unfoldable pub forward : Compiler → Result Compiler
unfolding push_cntl
forward c = push_cntl c.labeli (next_label (put_line (address c.labeli) c))

-- `fprintf( outfile, "\t\tdw L%x\n", pull_cntl() )`
unfoldable pub backward : Compiler → Result Compiler
unfolding pull_cntl
backward c = do (i, c₁) ← pull_cntl c; ok (put_line (address i) c₁)

unfoldable pub doif : Compiler → Result Compiler
unfolding comp_entry forward
doif c = do c₁ ← comp_entry c.runtime.zbra c; forward c₁

unfoldable pub dothen : Compiler → Result Compiler
unfolding pull_cntl
dothen c = do (i, c₁) ← pull_cntl c; ok (put_line (label i) c₁)

unfoldable pub dobegin : Compiler → Result Compiler
unfolding push_cntl
dobegin c = push_cntl c.labeli (next_label (put_line (label c.labeli) c))

unfoldable pub doagain : Compiler → Result Compiler
unfolding comp_entry backward
doagain c = do c₁ ← comp_entry c.runtime.bra c; backward c₁

unfoldable pub dountil : Compiler → Result Compiler
unfolding comp_entry backward
dountil c = do c₁ ← comp_entry c.runtime.zbra c; backward c₁

unfoldable pub dowhile : Compiler → Result Compiler
unfolding pull_cntl comp_entry forward push_cntl
dowhile c = do
  (i, c₁) ← pull_cntl c
  c₂ ← comp_entry c.runtime.zbra c₁
  c₃ ← forward c₂
  push_cntl i c₃

unfoldable pub dorepeat : Compiler → Result Compiler
unfolding doagain dothen
dorepeat c = do c₁ ← doagain c; dothen c₁

unfoldable pub doelse : Compiler → Result Compiler
unfolding pull_cntl comp_entry forward
doelse c = do
  (i, c₁) ← pull_cntl c
  c₂ ← comp_entry c.runtime.bra c₁
  c₃ ← forward c₂
  ok (put_line (label i) c₃)

unfoldable pub dodofor : Compiler → Result Compiler
unfolding comp_entry forward push_cntl
dodofor c = do
  c₁ ← comp_entry c.runtime.push (next_label c)
  c₂ ← comp_entry c.runtime.dofor (put_line (label c.labeli) c₁)
  c₃ ← forward c₂
  push_cntl c.labeli c₃

unfoldable pub donext : Compiler → Result Compiler
unfolding doagain dothen
donext c = do c₁ ← doagain c; dothen c₁

unfoldable pub dosemi : Compiler → Result Compiler
dosemi c = ok (record (put_line exit c) { state = 0 })

unfoldable pub dorbrack : Compiler → Result Compiler
dorbrack c = ok (record c { state = 1 })
