-- ===== src/Detoken/Program.antt =====
-- Whole lines and programs: what decb/detoken.c prints of a file.
use fip.Base.{
  ℕ, zero, suc, ◌+◌, ◌*◌, ◌≤◌, ◌<◌, ◌≡◌, refl, sym, ap, ◌∙◌, ◌≢◌, Bool, false, List, [], ◌∷◌, ◌++◌,
  append-nil, append_assoc, arith, ◌==◌, if◌then◌else◌, length, get_or, All, length-append,
}
use fip.Detoken.Words.{tokens, second}
use fip.Detoken.{Source, ok, mygetc_err, digits, line_loop, lines_loop, foo, reset, mygetw}
use fip.Detoken.Bytes.{remaining, IsSource, mygetc_err_lem, mygetw_lem, reset_lem}
use fip.Detoken.Text.{
  Item, character, keyword, function, IsItem, items_bytes, items_text, line_loop-character,
  line_loop-keyword, line_loop-prefix, line_loop-function, line_loop-end,
}

-- The items of one line.
line_loop_lem :
    (f : ℕ) (unix : Bool) (i : Source) (out : List ℕ) (xs : List Item) {rest : List ℕ}
    → All IsItem xs
    → IsSource i
    → remaining i ≡ items_bytes xs ++ rest
    → length (items_bytes xs) ≤ f
    → (i' : Source) × (line_loop f unix false i out ≡ ok (i', out ++ items_text unix xs))
      × IsSource i'
      × (remaining i' ≡ rest)
line_loop_lem zero unix i out [] a v e l = elim l [ ]
line_loop_lem zero unix i out (character c ∷ xs) a v e l = elim l [ ]
line_loop_lem zero unix i out (keyword t ∷ xs) a v e l = elim l [ ]
line_loop_lem zero unix i out (function t ∷ xs) a v e l = elim l [ ]
line_loop_lem (suc f) unix i out [] a v e l =
    let (i₁, got, v₁, e₁) = mygetc_err_lem i v e in (i₁, line_loop-end f unix i i₁ out got, v₁, e₁)
line_loop_lem (suc f) unix i out (character c ∷ xs) (x, a) v e l =
    let (i₁, got, v₁, e₁) = mygetc_err_lem i v e in
    let (i₂, runs, v₂, e₂) =
      line_loop_lem f unix i₁ (out ++ c ∷ []) xs a v₁ e₁ (omega (arith, l)) in
    (
      i₂,
      line_loop-character f unix i i₁ out c got x
          ∙ runs
          ∙ ap (λ o. ok (i₂, o)) (append_assoc out (c ∷ []) (items_text unix xs)),
      v₂,
      e₂,
    )
line_loop_lem (suc f) unix i out (keyword t ∷ xs) (x, a) v e l =
    let (i₁, got, v₁, e₁) = mygetc_err_lem i v e in
    let (i₂, runs, v₂, e₂) =
      line_loop_lem f unix i₁ (out ++ get_or tokens t []) xs a v₁ e₁ (omega (arith, l)) in
    (
      i₂,
      line_loop-keyword f unix i i₁ out t got x
          ∙ runs
          ∙ ap (λ o. ok (i₂, o)) (append_assoc out (get_or tokens t []) (items_text unix xs)),
      v₂,
      e₂,
    )
line_loop_lem (suc zero) unix i out (function t ∷ xs) a v e l = absurd (omega (arith, l))
line_loop_lem (suc (suc f)) unix i out (function t ∷ xs) (x, a) v e l =
    let (i₁, got, v₁, e₁) = mygetc_err_lem i v e in
    let (i₂, got₂, v₂, e₂) = mygetc_err_lem i₁ v₁ e₁ in
    let (i₃, runs, v₃, e₃) =
      line_loop_lem f unix i₂ (out ++ get_or second t []) xs a v₂ e₂ (omega (arith, l)) in
    (
      i₃,
      line_loop-prefix (suc f) unix i i₁ out got
          ∙ line_loop-function f unix i₁ i₂ out t got₂ x
          ∙ runs
          ∙ ap (λ o. ok (i₃, o)) (append_assoc out (get_or second t []) (items_text unix xs)),
      v₃,
      e₃,
    )

-- A line: the two bytes of its link, which is not 0, those of its number, and its items.
pub record Line : Type 0 where
  pub link_hi : ℕ
  pub link_lo : ℕ
  pub number_hi : ℕ
  pub number_lo : ℕ
  pub items : List Item

pub record IsLine (n : Line) : Type 0 where
  pub linked : n.link_hi * 256 + n.link_lo ≢ 0
  pub bytes : (n.link_hi < 256) × (n.link_lo < 256) × (n.number_hi < 256) × (n.number_lo < 256)
  pub items : All IsItem n.items

-- A program ends by the link 0.
abbrev pub program_bytes : List Line → List ℕ
program_bytes [] = 0 ∷ 0 ∷ []
program_bytes (n ∷ ns) =
    n.link_hi ∷ n.link_lo ∷ n.number_hi ∷ n.number_lo ∷ (items_bytes n.items ++ program_bytes ns)

abbrev pub line_text : Bool → Line → List ℕ
line_text unix n = digits 5 (n.number_hi * 256 + n.number_lo) ++ 32 ∷ items_text unix n.items

abbrev pub program_text : Bool → List Line → List ℕ
program_text unix [] = []
program_text unix (n ∷ ns) = line_text unix n ++ program_text unix ns

module _ (unix : Bool) where
  lines_loop-more :
      (f g link number : ℕ) (i i₁ i₂ i₃ : Source) (out out' : List ℕ)
      → mygetw i ≡ ok (link, i₁)
      → link ≢ 0
      → mygetw i₁ ≡ ok (number, i₂)
      → line_loop g unix false i₂ (out ++ (digits 5 number ++ 32 ∷ [])) ≡ ok (i₃, out')
      → lines_loop (suc f) g unix i out ≡ lines_loop f g unix i₃ out'
  unfolding lines_loop
  lines_loop-more f g link number i i₁ i₂ i₃ out out' got ne got₂ runs =
      let linked : (link == 0) ≡ false = ground (arith, ne) in
      rw (got, linked, got₂, runs, lines_loop) refl

  lines_loop-last :
      (f g : ℕ) (i i' : Source) (out : List ℕ)
      → mygetw i ≡ ok (0, i')
      → lines_loop (suc f) g unix i out ≡ ok (i', out)
  unfolding lines_loop
  lines_loop-last f g i i' out got = rw (got, lines_loop) refl

  text_assoc :
      (out d t p : List ℕ) → ((out ++ (d ++ 32 ∷ [])) ++ t) ++ p ≡ out ++ ((d ++ 32 ∷ t) ++ p)
  text_assoc out d t p =
      append_assoc (out ++ (d ++ 32 ∷ [])) t p
      ∙ append_assoc out (d ++ 32 ∷ []) (t ++ p)
      ∙ ap (λ k. out ++ k) (append_assoc d (32 ∷ []) (t ++ p) ∙ sym (append_assoc d (32 ∷ t) p))

  lines_loop_lem :
      (f g : ℕ) (i : Source) (out : List ℕ) (ns : List Line) (rest : List ℕ)
      → All IsLine ns
      → IsSource i
      → remaining i ≡ program_bytes ns ++ rest
      → length (program_bytes ns) ≤ f
      → length (program_bytes ns) ≤ g
      → (i' : Source) × (lines_loop f g unix i out ≡ ok (i', out ++ program_text unix ns))
        × IsSource i'
  lines_loop_lem zero g i out [] rest a v e l m = elim l [ ]
  lines_loop_lem zero g i out (n ∷ ns) rest a v e l m = elim l [ ]
  lines_loop_lem (suc f) g i out [] rest a v e l m =
      let (i₁, got, v₁, e₁) = mygetw_lem i 0 0 (omega arith) (omega arith) v e in
      (i₁, lines_loop-last f g i i₁ out got ∙ ap (λ o. ok (i₁, o)) (sym (append-nil out)), v₁)
  lines_loop_lem (suc f) g i out (n ∷ ns) rest (x, a) v e l m =
      let (i₁, got₁, v₁, e₁) = mygetw_lem i n.link_hi n.link_lo x.bytes.0 x.bytes.1 v e in
      let (i₂, got₂, v₂, e₂) = mygetw_lem i₁ n.number_hi n.number_lo x.bytes.2 x.bytes.3 v₁ e₁ in
      let size = length-append (items_bytes n.items) (program_bytes ns) in
      let number = n.number_hi * 256 + n.number_lo in
      let out' = out ++ (digits 5 number ++ 32 ∷ []) in
      let (i₃, runs, v₃, e₃) =
        line_loop_lem g unix i₂ out' n.items x.items v₂
          (e₂ ∙ append_assoc (items_bytes n.items) (program_bytes ns) rest)
          (omega (arith, size, m)) in
      let (i₄, goes_on, v₄) =
        lines_loop_lem f g i₃ (out' ++ items_text unix n.items) ns rest a v₃ e₃
          (omega (arith, size, l)) (omega (arith, size, m)) in
      (
        i₄,
        lines_loop-more f g (n.link_hi * 256 + n.link_lo) number i i₁ i₂ i₃ out
              (out' ++ items_text unix n.items) got₁ x.linked got₂ runs
            ∙ goes_on
            ∙ ap (λ o. ok (i₄, o))
                (text_assoc out (digits 5 number) (items_text unix n.items) (program_text unix ns)),
        v₄,
      )

  foo-lines :
      (f : ℕ) (pflag : Bool) (i i₁ i₂ i₃ : Source) (size : ℕ) (text : List ℕ)
      → mygetc_err (reset i) ≡ ok (0xff, i₁)
      → mygetw i₁ ≡ ok (size, i₂)
      → lines_loop f f unix i₂ [] ≡ ok (i₃, text)
      → foo f unix pflag i ≡ ok (i₃, if pflag then text else [])
  unfolding foo
  foo-lines f pflag i i₁ i₂ i₃ size text got got₂ runs = rw (got, got₂, runs, foo) refl

  -- Let the file be 0xff, two bytes of size, a program of lines and anything behind it, where
  -- each line has a link other than 0, a number of two bytes, and items that are a character from
  -- 1 to 127, one of the 121 keywords or one of the 45 functions. From a valid input buffer in
  -- any state, with as many rounds as the program has bytes, `foo` returns 0; with `pflag` it has
  -- printed the text of the program, without it nothing; and the buffer is valid.
  pub foo_lem :
      (f hi lo : ℕ) (pflag : Bool) (i : Source) (ns : List Line) (rest : List ℕ)
      → (hi < 256) × (lo < 256)
      → All IsLine ns
      → IsSource i
      → i.whole ≡ 0xff ∷ hi ∷ lo ∷ (program_bytes ns ++ rest)
      → length (program_bytes ns) ≤ f
      → (i' : Source) × (foo f unix pflag i ≡ ok (i', if pflag then program_text unix ns else []))
        × IsSource i'
  foo_lem f hi lo pflag i ns rest (lh, ll) a v e l =
      let (v₀, e₀) = reset_lem i v in
      let (i₁, got₁, v₁, e₁) = mygetc_err_lem (reset i) v₀ (e₀ ∙ e) in
      let (i₂, got₂, v₂, e₂) = mygetw_lem i₁ hi lo lh ll v₁ e₁ in
      let (i₃, runs, v₃) = lines_loop_lem f f i₂ [] ns rest a v₂ e₂ l l in
      (i₃, foo-lines f pflag i i₁ i₂ i₃ (hi * 256 + lo) (program_text unix ns) got₁ got₂ runs, v₃)
