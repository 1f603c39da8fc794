-- ===== src/Bfc/Dictionary.antt =====
-- The dictionary of bfc/bfc.c: `mkentry`, `findentry`, `comp_entry` and `do_dict`.
pub mod Laws
use fip.Base.{
  ℕ, zero, suc, bit_or, ◌&&◌, not, Option, none, some, List, [], ◌∷◌, ◌++◌, ltb, leb, ◌==◌,
  if◌then◌else◌, length, get_elem?, take, same_bytes, bytes,
}
use fip.Bfc.Output.{
  Line, entry_label, call, cell, address, decimal, ascii, dict_label, link, flags_byte, last_entry,
}
use fip.Bfc.State.{Entry, Runtime, Compiler, Result, ok, wild, ◌>>=◌, put_line, next_label}

abbrev pub maxdict : ℕ
maxdict = 256

abbrev pub maxname : ℕ
maxname = 32

-- The string at an entry's name. A name that fills its array has no end: the flags are behind it,
-- and a zero behind these.
unfoldable pub spelled : Entry → List ℕ
spelled e =
    if length e.name == maxname && not (e.flags == 0) then e.name ++ e.flags ∷ [] else e.name

-- The chain of `strcmp` in `mkentry`
unfoldable pub noted : List ℕ → ℕ → Runtime → Runtime
noted w i r =
    let is : List ℕ → Option ℕ → Option ℕ = λ n old. if same_bytes n w then some i else old in
    record {
      lit = is (bytes "lit") r.lit;
      zbra = is (bytes "0bra") r.zbra;
      bra = is (bytes "bra") r.bra;
      slit = is (bytes "slit") r.slit;
      dodoes = is (bytes "dodoes") r.dodoes;
      noop = is (bytes "noop") r.noop;
      dofor = is (bytes "dofor") r.dofor;
      push = is (bytes "push") r.push;
    }

abbrev pub entered : Compiler → Entry
entered c = record { name = take maxname c.wordb; flags = 0; ref = c.labeli }

unfoldable pub mkentry : Compiler → Result Compiler
unfolding spelled noted
mkentry c =
    if ltb (length c.dict) maxdict
    then ok (
        put_line (entry_label c.labeli (spelled (entered c))) (
          next_label (record c {
            dict = c.dict ++ entered c ∷ [];
            runtime = noted c.wordb (length c.dict) c.runtime;
          })))
    else wild

-- The name at `dict[i]`, which is empty where nothing is allocated yet.
unfoldable pub name_at : List Entry → ℕ → List ℕ
unfolding spelled
name_at d i = elim (get_elem? d i) [ none ↦ [] | some e ↦ spelled e ]

unfoldable pub find_loop : ℕ → List ℕ → List Entry → Option ℕ
unfolding name_at
find_loop zero w d = none
find_loop (suc i) w d =
    let rest = find_loop i w d in if same_bytes (name_at d i) w then some i else rest

-- The search starts at `labeli`, so it is inside of the array while there are few labels.
unfoldable pub findentry : Compiler → Result (Option ℕ)
unfolding find_loop
findentry c = if leb c.labeli maxdict then ok (find_loop c.labeli c.wordb c.dict) else wild

abbrev pub entry_at : List Entry → ℕ → Result Entry
entry_at d i = elim (get_elem? d i) [ none ↦ wild | some e ↦ ok e ]

-- A pointer to an entry is followed.
abbrev pub deref : List Entry → Option ℕ → Result Entry
deref d none = wild
deref d (some i) = entry_at d i

unfoldable pub comp_entry : Option ℕ → Compiler → Result Compiler
unfolding spelled
comp_entry p c = do e ← deref c.dict p; ok (put_line (call e.ref (spelled e)) c)

-- `doimm`
unfoldable pub flag_last : List Entry → Result (List Entry)
flag_last [] = wild
flag_last (e ∷ []) = ok (record e { flags = bit_or e.flags 0x80 } ∷ [])
flag_last (e ∷ es) = do es' ← flag_last es; ok (e ∷ es')

unfoldable pub doimm : Compiler → Result Compiler
unfolding flag_last
doimm c = do d ← flag_last c.dict; ok (record c { dict = d })

-- `comp_name`
unfoldable pub comp_name : Entry → List Line
unfolding spelled
comp_name e = decimal (length (spelled e)) ∷ ascii 34 (spelled e) ∷ []

-- A round of the loop of `do_dict`, behind an entry at the label `last` or none
unfoldable pub dict_lines : ℕ → Option ℕ → Entry → List Line
unfolding spelled comp_name
dict_lines n last e =
    dict_label n (spelled e)
    ∷ elim last [ none ↦ cell 0 | some l ↦ link l ]
    ∷ address e.ref
    ∷ flags_byte e.flags
    ∷ comp_name e

unfoldable pub dict_loop : Option ℕ → List Entry → Compiler → Compiler
unfolding dict_lines
dict_loop last [] c = put_line (last_entry (elim last [ none ↦ 0 | some l ↦ l ])) c
dict_loop last (e ∷ es) c =
    dict_loop (some c.labeli) es
      (next_label (record c { outfile = c.outfile ++ dict_lines c.labeli last e }))

unfoldable pub do_dict : Compiler → Compiler
unfolding dict_loop
do_dict c = dict_loop none c.dict c
