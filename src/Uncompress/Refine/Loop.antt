-- ===== src/Uncompress/Refine/Loop.antt =====
-- The loop of `decompress` against the specification: step by step, and to its end.
use mathlib.Core.Path.{subst₂}
use fip.Base.{
  ℕ, zero, suc, ◌-◌, ◌^◌, ◌≤◌, ◌<◌, ◌≡◌, refl, sym, ap, ap₂, ◌∙◌, subst, inl, inr, true, false,
  ◌||◌, Option, none, some, List, [], ◌++◌, arith, ltb, ◌==◌, Bool-cases, Option-cases, lt→ltb,
  length, take, drop,
}
use fip.Uncompress.Bits.{getsym}
use fip.Uncompress.Bits.Laws.{value}
use fip.Uncompress.Table.{clear}
use fip.Uncompress.Table.Laws.{Spells}
use fip.Uncompress.Decode.{Decoder, Step, go, stop, done, flushed, emit, start, turn, step, run}
use fip.Uncompress.Lzw.{
  Lzw, finished, corrupt, unspecified, out_of_fuel, Next, more, final, spell, symbols, width,
  opening, follow, next, decode, string_of,
}
use fip.Uncompress.Refine.Width.{width_from_small}
use fip.Uncompress.Refine.Dictionary.{Holds, width_bounds, spell-Spells, cleardict-Holds, nexti-le}
use fip.Uncompress.Refine.Link.{
  Linked, Place, Meets, Agrees, read_lem, emit_lem, flushed_done, flushed_abort,
}
use fip.Uncompress.Refine.Turn.{
  follow_short, follow_corrupt, follow_clear, follow_string, turn_over, turn_end, turn_corrupt,
  turn-clear, turn-extend, code, rest, read,
}
use fip.Uncompress.Refine.Extend.{extend_lem}

opening-none : (z : Lzw) → spell [] (value (take 9 z.bits)) ≡ none → opening z ≡ final unspecified
unfolding opening
opening-none z e = rw (e, opening) refl

opening-some :
    (z : Lzw) {t : List ℕ}
    → spell [] (value (take 9 z.bits)) ≡ some t
    → opening z
      ≡ more (record z { entries = []; prev = some t; bits = drop 9 z.bits; out = z.out ++ t })
unfolding opening
opening-some z e = rw (e, opening) refl

module _ (max : ℕ) (z : Lzw) where
  after : Option (List ℕ) → Next
  after none = opening z
  after (some p) = follow max p z

  next-after :
      (o : Option (List ℕ)) → elim o [ none ↦ opening z | some p ↦ follow max p z ] ≡ after o
  unfolding after
  next-after none = refl
  next-after (some p) = refl

  next-eq : (o : Option (List ℕ)) → z.prev ≡ o → next max z ≡ after o
  unfolding next
  next-eq o e = next-after z.prev ∙ ap after e

module _ (max : ℕ) (low : 9 ≤ max) (high : max ≤ 14) where
  -- Behind `again`: the first symbol.
  opening_some :
      (d : Decoder) (z : Lzw) {t : List ℕ}
      → Linked d z
      → Holds max d.table []
      → spell [] (value (take 9 z.bits)) ≡ some t
      → Agrees max
          (more (record z { entries = []; prev = some t; bits = drop 9 z.bits; out = z.out ++ t }))
          (start d)
  unfolding start emit
  opening_some d z {t} l h e =
      let (c, _, l', _) = read_lem d.table.bits d z l (omega (arith, nine)) in
      let b = (getsym d.table.bits d.source).1 in
      let found : spell [] (getsym d.table.bits d.source).0 ≡ some t =
        ap (spell []) (c ∙ ap (λ k. value (take k z.bits)) nine) ∙ e in
      let (sp, below) = spell-Spells max low high _ h found in
      emit_lem max _ (record d { source = b }) _ _ l' sp
        (below, omega (arith, nexti-le max low high h))
        (ap (λ k. drop k z.bits) (sym nine), refl, refl) h
    where
      nine : d.table.bits ≡ 9
      nine = h.wide ∙ unfold width in width_from_small 9 (max - 9) 257 (omega arith)

  start_lem :
      (d : Decoder) (z : Lzw) → Linked d z → Holds max d.table [] → Agrees max (opening z) (start d)
  start_lem d z l h = elim (Option-cases (spell [] (value (take 9 z.bits)))) [
    | inl gone ↦ subst (λ n. Agrees max n (start d)) (sym (opening-none z gone)) tt
    | inr (t, e) ↦
        subst (λ n. Agrees max n (start d)) (sym (opening-some z e)) (opening_some d z l h e)
  ]

  module _ (prev : ℕ) (p : List ℕ) (d : Decoder) (z : Lzw) (l : Linked d z)
      (sp : Spells d.table prev p) (below : prev < d.table.nexti)
      (h : Holds max d.table z.entries) where
    turn_ended : z.bits ≡ [] → Agrees max (follow max p z) (stop (done (flushed d)))
    turn_ended e =
        rw
          (follow_short max p z
            (lt→ltb _ _ (omega (arith, ap length e, width_bounds max low high z.entries))))
          (done (flushed d), refl, flushed_done d z l e)

    -- Before the end of the input.
    module _ (still : d.source.eof ≡ false) where
      sym_read : ℕ
      sym_read = (getsym d.table.bits d.source).0

      read_in :
          (sym_read ≡ code max p z)
          × (sym_read < 2 ^ d.table.bits)
          × Linked (read prev d still) (record z { bits = rest max p z })
          × ((read prev d still).source.eof ≡ ltb (length z.bits) (width max z.entries))
      unfolding sym_read
      read_in =
          let (c, small, l', ended) =
            read_lem d.table.bits d z l
              (omega (arith, h.wide, width_bounds max low high z.entries)) in
          (
            c ∙ ap (λ k. value (take k z.bits)) h.wide,
            small,
            subst (λ k. Linked (read prev d still) (record z { bits = drop k z.bits })) h.wide l',
            ended ∙ ap₂ (λ e k. e || ltb (length z.bits) k) still h.wide,
          )

      turn_short :
          ltb (length z.bits) (width max z.entries) ≡ true
          → Agrees max (follow max p z) (turn prev d)
      turn_short e =
          let (_, _, l', ended) = read_in in
          subst₂ (Agrees max) (sym (follow_short max p z e))
            (sym (turn_end prev d still (ended ∙ e)))
            (_, refl, flushed_done (read prev d still) _ l' (l'.over (ended ∙ e)))

      -- A whole symbol has been read.
      module _ (long : ltb (length z.bits) (width max z.entries) ≡ false) where
        goes_on : (read prev d still).source.eof ≡ false
        goes_on = read_in.3 ∙ long

        symbol-code : ltb d.table.nexti sym_read ≡ ltb (symbols z.entries) (code max p z)
        symbol-code = ap₂ ltb h.count read_in.0

        turn_bad :
            ltb (symbols z.entries) (code max p z) ≡ true
            → Agrees max (follow max p z) (turn prev d)
        unfolding sym_read
        turn_bad e =
            subst₂ (Agrees max) (sym (follow_corrupt max p z long e))
              (sym (turn_corrupt prev d still goes_on (symbol-code ∙ e)))
              (_, refl, flushed_abort (read prev d still) _ read_in.2)

        module _ (known : ltb (symbols z.entries) (code max p z) ≡ false) where
          known' : ltb d.table.nexti sym_read ≡ false
          known' = symbol-code ∙ known

          turn_cleared : (code max p z == 256) ≡ true → Agrees max (follow max p z) (turn prev d)
          unfolding sym_read
          turn_cleared e =
              subst₂ (Agrees max) (sym (follow_clear max p z long known e))
                (sym (turn-clear prev d still goes_on known' (ap (λ c. c == clear) read_in.0 ∙ e)))
                (
                  none,
                  _,
                  refl,
                  record {
                    valid = read_in.2.valid;
                    bits = read_in.2.bits;
                    over = read_in.2.over;
                    sink = read_in.2.sink;
                    out = read_in.2.out;
                  },
                  (refl, cleardict-Holds max low high d.table h.limit),
                )

          turn_learns : (code max p z == 256) ≡ false → Agrees max (follow max p z) (turn prev d)
          unfolding sym_read
          turn_learns e =
              let (c, small, l', _) = read_in in
              let (u, f, a) =
                extend_lem max low high prev sym_read (read prev d still)
                  (record z { bits = rest max p z }) l' sp below h
                  (ground (arith, known'), small, ground (arith, e, c)) in
              subst₂ (Agrees max)
                (sym (follow_string max p z long known e (ap (string_of z.entries p) (sym c) ∙ f)))
                (sym (turn-extend prev d still goes_on known' (ap (λ k. k == clear) c ∙ e))) a

      turn_long :
          ltb (length z.bits) (width max z.entries) ≡ false
          → Agrees max (follow max p z) (turn prev d)
      turn_long e = elim (Bool-cases (ltb (symbols z.entries) (code max p z))) [
        | inl bad ↦ turn_bad e bad
        | inr known ↦ elim (Bool-cases (code max p z == 256)) [
          | inl cleared ↦ turn_cleared e known cleared
          | inr plain ↦ turn_learns e known plain
        ]
      ]

      turn_read : Agrees max (follow max p z) (turn prev d)
      turn_read = elim (Bool-cases (ltb (length z.bits) (width max z.entries))) [
        | inl short ↦ turn_short short
        | inr long ↦ turn_long long
      ]

    turn_lem : Agrees max (follow max p z) (turn prev d)
    turn_lem = elim (Bool-cases d.source.eof) [
      | inl over ↦ rw (turn_over prev d over) (turn_ended (l.over over))
      | inr still ↦ turn_read still
    ]

  step_lem :
      (at : Option ℕ) (d : Decoder) (z : Lzw)
      → Linked d z
      → Place max at d z
      → Agrees max (next max z) (step at d)
  unfolding after step
  step_lem none d z l (e, h) =
      subst (λ n. Agrees max n (start d)) (sym (next-eq max z none e)) (start_lem d z l h)
  step_lem (some prev) d z l (p, e, sp, below, h) =
      subst (λ n. Agrees max n (turn prev d)) (sym (next-eq max z (some p) e))
        (turn_lem prev p d z l sp below h)

  decode_step :
      (f : ℕ) (n : Next) (s : Step)
      → Agrees max n s
      → ((at : Option ℕ) (d : Decoder) (z : Lzw)
          → Linked d z
          → Place max at d z
          → Meets (decode max f z) (run f at d))
      → Meets
          (elim n [ more z' ↦ decode max f z' | final r ↦ r ])
          (elim s [ go at' d' ↦ run f at' d' | stop o ↦ o ])
  decode_step f (more z) s (at, d, e, l, pl) ih = rw e (ih at d z l pl)
  decode_step f (final unspecified) s a ih = tt
  decode_step f (final (finished out)) s (o, e, m) ih = rw e m
  decode_step f (final (corrupt out)) s (o, e, m) ih = rw e m
  decode_step f (final out_of_fuel) s (o, e, m) ih = rw e m

  -- The two loops run side by side.
  pub decode_lem :
      (f : ℕ) (at : Option ℕ) (d : Decoder) (z : Lzw)
      → Linked d z
      → Place max at d z
      → Meets (decode max f z) (run f at d)
  unfolding decode run
  decode_lem zero at d z l pl = refl
  decode_lem (suc f) at d z l pl =
      decode_step f (next max z) (step at d) (step_lem at d z l pl) (decode_lem f)
