-- ===== src/Uncompress/Reader.antt =====
-- The input buffer of uncompress/uncompress.c: `ibuf`, `ipos`, `isize` and `inbyte`.
-- `file` is what `read(in, ...)` has not returned yet. A `read` of a regular file returns as many
-- bytes as are left, up to the size asked for; one that fails is not modelled.
use fip.Base.{
  ℕ, zero, suc, ◌+◌, ◌≤◌, ◌<◌, ◌≡◌, refl, ap, ap₂, ◌∙◌, ◌≢◌, inl, inr, Option, none, some, List, [],
  ◌∷◌, ◌++◌, arith, ◌==◌, if◌then◌else◌, Bool-cases, length, get_or, take, drop, length-append,
  length-take, length-drop, take-append-drop, take-append_length, drop_all, drop-get_or,
  get_or-take, sym,
}

abbrev pub bufz : ℕ
bufz = 512

pub record Reader : Type 0 where
  pub file : List ℕ
  pub ibuf : List ℕ
  pub ipos : ℕ
  pub isize : ℕ

-- `isize = read(in, &ibuf, BUFZ); ipos = 0;`
unfoldable pub refill : Reader → Reader
refill r =
    let chunk = take bufz r.file in
    record {
      file = drop bufz r.file;
      ibuf = chunk ++ drop (length chunk) r.ibuf;
      ipos = 0;
      isize = length chunk;
    }

-- `c = ibuf[ipos++]; if (ipos == isize) isize = 0; return c;`
unfoldable pub next_byte : Reader → Option ℕ × Reader
next_byte r = (
  some (get_or r.ibuf r.ipos 0),
  record r { ipos = r.ipos + 1; isize = if r.ipos + 1 == r.isize then 0 else r.isize },
)

-- `inbyte`: `none` is the -1 at the end of the file.
unfoldable pub inbyte : Reader → Option ℕ × Reader
inbyte r =
    if r.isize == 0
    then (let r' = refill r in if r'.isize == 0 then (none, r') else next_byte r')
    else next_byte r

-- The buffer holds `isize` bytes, of which those from `ipos` on are not yet handed out.
pub record IsReading (r : Reader) : Type 0 where
  pub whole : length r.ibuf ≡ bufz
  pub filled : r.isize ≤ bufz
  pub within : r.isize ≢ 0 → r.ipos < r.isize

-- The bytes that `inbyte` has still to hand out.
unfoldable pub pending : Reader → List ℕ
pending r = if r.isize == 0 then r.file else drop r.ipos (take r.isize r.ibuf) ++ r.file

-- What one call hands out of a stream, and what it leaves.
unfoldable pub uncons : List ℕ → Option ℕ × List ℕ
uncons [] = (none, [])
uncons (x ∷ xs) = (some x, xs)

pub pending_drained : (r : Reader) → r.isize ≡ 0 → pending r ≡ r.file
unfolding pending
pending_drained r e = ground arith

pending_held : (r : Reader) → r.isize ≢ 0 → pending r ≡ drop r.ipos (take r.isize r.ibuf) ++ r.file
unfolding pending
pending_held r ne = ground arith

-- In the middle of the buffer.
module _ (r : Reader) (v : IsReading r) (ne : r.isize ≢ 0) where
  next : suc r.ipos ≡ r.ipos + 1
  next = omega arith

  size : length (take r.isize r.ibuf) ≡ r.isize
  size = omega (arith, length-take r.isize r.ibuf, v.whole, v.filled)

  opened :
      drop r.ipos (take r.isize r.ibuf)
      ≡ get_or r.ibuf r.ipos 0 ∷ drop (r.ipos + 1) (take r.isize r.ibuf)
  opened =
      drop-get_or r.ipos (take r.isize r.ibuf) 0 (omega (arith, size, v.within ne))
      ∙ ap₂ (λ b k. b ∷ drop k (take r.isize r.ibuf))
          (get_or-take r.isize r.ipos r.ibuf 0 (v.within ne)) next

  pending-next_byte : pending (next_byte r).1 ≡ drop (r.ipos + 1) (take r.isize r.ibuf) ++ r.file
  unfolding next_byte pending
  pending-next_byte = elim (Bool-cases (r.ipos + 1 == r.isize)) [
    | inl last ↦ rw (last, drop_all (r.ipos + 1) (take r.isize r.ibuf) (ground (arith, size)))
    | inr more ↦ ground (arith, more)
  ]

  next_byte-IsReading : IsReading (next_byte r).1
  unfolding next_byte
  next_byte-IsReading = ground (arith, v, v.within ne)

  next_byte_lem : let (c, r') = next_byte r in (uncons (pending r) ≡ (c, pending r')) × IsReading r'
  unfolding uncons next_byte
  next_byte_lem = (
    ap uncons (pending_held r ne ∙ ap (λ t. t ++ r.file) opened)
        ∙ ap (λ t. (some (get_or r.ibuf r.ipos 0), t)) (sym pending-next_byte),
    next_byte-IsReading,
  )

-- The facts about a `read` of `n` bytes into a buffer of that size.
module _ (n : ℕ) (file ibuf : List ℕ) where
  length_refilled : length ibuf ≡ n → length (take n file ++ drop (length (take n file)) ibuf) ≡ n
  length_refilled e = omega (
    arith,
    length-append (take n file) (drop (length (take n file)) ibuf),
    length-drop (length (take n file)) ibuf,
    length-take n file,
  )

  refilled :
      take (length (take n file)) (take n file ++ drop (length (take n file)) ibuf) ++ drop n file
      ≡ file
  refilled =
      ap (λ t. t ++ drop n file) (take-append_length (take n file) _) ∙ take-append-drop n file

refill-IsReading : (r : Reader) → IsReading r → IsReading (refill r)
unfolding refill
refill-IsReading r v = record {
  whole = length_refilled bufz r.file r.ibuf v.whole;
  filled = omega (arith, length-take bufz r.file);
  within = λ ne. omega arith;
}

refill-pending : (r : Reader) → (refill r).isize ≢ 0 → pending (refill r) ≡ r.file
unfolding refill
refill-pending r ne = pending_held (refill r) ne ∙ refilled bufz r.file r.ibuf

take-eq-nil : (n : ℕ) (xs : List ℕ) → 0 < n → length (take n xs) ≡ 0 → xs ≡ []
take-eq-nil n [] l e = refl
take-eq-nil zero (x ∷ xs) l e = elim l [ ]
take-eq-nil (suc n) (x ∷ xs) l e = absurd (omega arith)

refill_empty : (r : Reader) → (refill r).isize ≡ 0 → (r.file ≡ []) × (pending (refill r) ≡ [])
unfolding refill
refill_empty r e =
    let gone : r.file ≡ [] = take-eq-nil bufz r.file (omega arith) e in
    (gone, pending_drained (refill r) e ∙ ap (λ f. drop bufz f) gone)

-- On a valid input buffer, `inbyte` hands out the bytes still to come in order, across the
-- refills, returns -1 exactly if none is left, and leaves the buffer valid.
pub inbyte_lem :
    (r : Reader)
    → IsReading r
    → let (c, r') = inbyte r in (uncons (pending r) ≡ (c, pending r')) × IsReading r'
unfolding inbyte uncons
inbyte_lem r v = ground (
  arith,
  next_byte_lem r v,
  next_byte_lem (refill r) (refill-IsReading r v),
  refill-IsReading r v,
  refill-pending r,
  refill_empty r,
  pending_drained r,
)
