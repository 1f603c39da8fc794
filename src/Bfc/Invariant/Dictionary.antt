-- ===== src/Bfc/Invariant/Dictionary.antt =====
-- The dictionary within its bounds.
use fip.Base.{
  ℕ, suc, ◌+◌, ◌<◌, ◌≡◌, refl, sym, ap, subst, Bool, true, false, Option, none, some, List, [], ◌∷◌,
  ◌++◌, arith, ltb, if◌then◌else◌, ltb→lt, length, get_elem?, length-append,
}
use fip.Bfc.Output.{Line}
use fip.Bfc.State.{Entry, Runtime, Compiler, ok, wild}
use fip.Bfc.Dictionary.{noted, mkentry, comp_entry, deref, flag_last, doimm}
use fip.Bfc.Invariant.{InBounds, ArePointers, IsWithin, Ends, Ends-bind, Ends-if, printed}

-- The dictionary
pub deref-Ends : (d : List Entry) (p : Option ℕ) → Ends (λ _. Unit) (deref d p)
deref-Ends d none = tt
deref-Ends d (some i) = at_index (get_elem? d i)
  where
    at_index : (o : Option Entry) → Ends (λ _. Unit) (elim o [ none ↦ wild | some e ↦ ok e ])
    at_index none = tt
    at_index (some e) = tt

pub comp_entry-IsWithin :
    (n : ℕ) (p : Option ℕ) (c : Compiler) → IsWithin n c → Ends (IsWithin n) (comp_entry p c)
unfolding comp_entry
comp_entry-IsWithin n p c h =
    Ends-bind (λ _. Unit) (IsWithin n) (deref c.dict p) _ (deref-Ends c.dict p)
      λ e _. printed n c _ c.labeli c.state h

one_more :
    (n i : ℕ) (b : Bool) (p : Option ℕ)
    → i < n + 1
    → InBounds n p
    → InBounds (n + 1) (if b then some i else p)
one_more n i true p h k = h
one_more n i false none h k = tt
one_more n i false (some j) h k = omega arith

noted-ArePointers :
    (w : List ℕ) (n : ℕ) (r : Runtime) → ArePointers n r → ArePointers (n + 1) (noted w n r)
unfolding noted
noted-ArePointers w n r h =
    let l : n < n + 1 = omega arith in
    record {
      lit_in = one_more n n _ r.lit l h.lit_in;
      zbra_in = one_more n n _ r.zbra l h.zbra_in;
      bra_in = one_more n n _ r.bra l h.bra_in;
      slit_in = one_more n n _ r.slit l h.slit_in;
      dodoes_in = one_more n n _ r.dodoes l h.dodoes_in;
      noop_in = one_more n n _ r.noop l h.noop_in;
      dofor_in = one_more n n _ r.dofor l h.dofor_in;
      push_in = one_more n n _ r.push l h.push_in;
    }

pub mkentry-IsWithin : (n : ℕ) (c : Compiler) → IsWithin n c → Ends (IsWithin n) (mkentry c)
unfolding mkentry
mkentry-IsWithin n c h =
    Ends-if (IsWithin n) (ltb (length c.dict) 256) _ _
      (λ e. entered_in _ _ _ (ltb→lt (length c.dict) 256 e)) (λ e. tt)
  where
    longer : (e : Entry) → length (c.dict ++ e ∷ []) ≡ length c.dict + 1
    longer e = length-append c.dict (e ∷ [])

    entered_in :
        (e : Entry) (o : List Line) (l' : ℕ)
        → length c.dict < 256
        → IsWithin n (record c {
          dict = c.dict ++ e ∷ [];
          runtime = noted c.wordb (length c.dict) c.runtime;
          outfile = o;
          labeli = l';
        })
    entered_in e o l' l = record {
      entries = omega (arith, longer e);
      controls = h.controls;
      numbers = h.numbers;
      letters = h.letters;
      pointers =
          subst (λ k. ArePointers k (noted c.wordb (length c.dict) c.runtime)) (sym (longer e))
            (noted-ArePointers c.wordb (length c.dict) c.runtime h.pointers);
      left = h.left;
    }

flag_last-length : (d : List Entry) → Ends (λ d'. length d' ≡ length d) (flag_last d)
unfolding flag_last
flag_last-length [] = tt
flag_last-length (e ∷ []) = refl
flag_last-length (e ∷ x ∷ d) =
    Ends-bind (λ d'. length d' ≡ length (x ∷ d)) (λ d'. length d' ≡ length (e ∷ x ∷ d))
      (flag_last (x ∷ d)) _ (flag_last-length (x ∷ d)) λ d' q. ap suc q

pub doimm-IsWithin : (n : ℕ) (c : Compiler) → IsWithin n c → Ends (IsWithin n) (doimm c)
unfolding doimm
doimm-IsWithin n c h =
    Ends-bind (λ d. length d ≡ length c.dict) (IsWithin n) (flag_last c.dict) _
      (flag_last-length c.dict)
      λ d q. record {
        entries = omega (arith, q, h.entries);
        controls = h.controls;
        numbers = h.numbers;
        letters = h.letters;
        pointers = subst (λ k. ArePointers k c.runtime) (sym q) h.pointers;
        left = h.left;
      }
