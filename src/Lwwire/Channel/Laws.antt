-- ===== src/Lwwire/Channel/Laws.antt =====
-- The line of lwwire/lwwire.c as a stream of bytes and errors.
use fip.Base.{
  ℕ, zero, suc, ◌+◌, ◌-◌, ◌≤◌, ◌≡◌, refl, sym, ap, ap₂, ◌∙◌, inl, inr, Bool, true, List, [], ◌∷◌,
  ◌++◌, append-nil, append_assoc, arith, ltb, Bool-cases, lt→ltb, le→ltb, length, take, drop,
  take-append-drop, take_all, drop_all,
}
use mathlib.Core.Bool.{false≢true}
use native.Mathlib.Decide.{dec_lt}
use fip.Lwwire.Channel.{
  Arrival, chunk, again, broken, Received, got, eof, error, left_over, readdata, Departure, room,
  full, failed, writedata,
}

-- The stream of the bytes, and of the errors between them.
pub data Token : Type 0 where
  byte : ℕ → Token
  fault : Bool → Token

abbrev pub tokens : List ℕ → List Token
tokens [] = []
tokens (b ∷ bs) = byte b ∷ tokens bs

unfoldable pub wire : List Arrival → List Token
wire [] = []
wire (chunk b bs ∷ es) = byte b ∷ (tokens bs ++ wire es)
wire (again ∷ es) = wire es
wire (broken timed_out ∷ es) = fault timed_out ∷ wire es

-- `n` bytes off the stream.
unfoldable pub receive : ℕ → List ℕ → List Token → Received × List Token
receive zero buf ts = (got buf, ts)
receive (suc n) buf [] = (eof, [])
receive (suc n) buf (byte b ∷ ts) = receive n (buf ++ b ∷ []) ts
receive (suc n) buf (fault timed_out ∷ ts) = (error timed_out, ts)

receive_short :
    (n : ℕ) (buf c : List ℕ) (ts : List Token)
    → length c ≤ n
    → receive n buf (tokens c ++ ts) ≡ receive (n - length c) (buf ++ c) ts
unfolding receive
receive_short n buf [] ts l =
    let same : n - 0 ≡ n = omega arith in
    ap₂ (λ k b. receive k b ts) (sym same) (sym (append-nil buf))
receive_short zero buf (x ∷ c) ts l = elim l [ ]
receive_short (suc n) buf (x ∷ c) ts l =
    receive_short n (buf ++ x ∷ []) c ts (omega arith)
    ∙ ap₂ (λ k b. receive k b ts) (omega arith) (append_assoc buf (x ∷ []) c)

receive_long :
    (n : ℕ) (buf c : List ℕ) (ts : List Token)
    → n ≤ length c
    → receive n buf (tokens c ++ ts) ≡ (got (buf ++ take n c), tokens (drop n c) ++ ts)
unfolding receive
receive_long zero buf c ts l = ap (λ b. (got b, tokens c ++ ts)) (sym (append-nil buf))
receive_long (suc n) buf [] ts l = elim l [ ]
receive_long (suc n) buf (x ∷ c) ts l =
    receive_long n (buf ++ x ∷ []) c ts (omega arith)
    ∙ ap (λ b. (got b, tokens (drop n c) ++ ts)) (append_assoc buf (x ∷ []) (take n c))

wire-left_over : (c : List ℕ) (es : List Arrival) → wire (left_over c es) ≡ tokens c ++ wire es
unfolding wire
wire-left_over [] es = refl
wire-left_over (b ∷ bs) es = refl

fewer : (n m : ℕ) → suc n - suc m ≡ n - m
fewer n m = omega arith

-- `readdata` returns the bytes, the end or the error that reading the stream of the line byte by
-- byte returns, and leaves the same stream, however the bytes are cut into pieces, and however
-- often `read` says EAGAIN or EINTR between them: the code has no timeout, although its comment
-- speaks of one.
pub readdata_lem :
    (n : ℕ) (buf : List ℕ) (es : List Arrival)
    → let (r, es') = readdata n buf es in receive n buf (wire es) ≡ (r, wire es')
unfolding readdata wire receive
readdata_lem zero buf es = refl
readdata_lem (suc n) buf [] = refl
readdata_lem (suc n) buf (again ∷ es) = readdata_lem (suc n) buf es
readdata_lem (suc n) buf (broken timed_out ∷ es) = refl
readdata_lem (suc n) buf (chunk b bs ∷ es) = elim (dec_lt (length bs) n) [
  | yes short ↦ rw (lt→ltb (length bs) n short) (
      receive_short (suc n) buf (b ∷ bs) (wire es) (omega arith)
      ∙ ap (λ k. receive k (buf ++ b ∷ bs) (wire es)) (fewer n (length bs))
      ∙ readdata_lem (n - length bs) (buf ++ b ∷ bs) es)
  | no long ↦ rw (le→ltb (length bs) n (omega arith)) (
      receive_long (suc n) buf (b ∷ bs) (wire es) (omega arith)
      ∙ ap (λ t. (got (buf ++ b ∷ take n bs), t)) (sym (wire-left_over (drop n bs) es)))
]

-- No `write` fails otherwise than for a while.
abbrev pub IsOpen : List Departure → Type 0
IsOpen [] = Unit
IsOpen (room k ∷ ds) = IsOpen ds
IsOpen (full ∷ ds) = IsOpen ds
IsOpen (failed ∷ ds) = ⊥

-- What `writedata` may come to: it succeeds on an open line; if it succeeds, all bytes were sent; and
-- otherwise the first of them.
abbrev pub Sends : List ℕ → List Departure → Bool × (List ℕ × List Departure) → Type 0
Sends buf ds (done, (sent, ds')) =
    (IsOpen ds → (done ≡ true) × IsOpen ds')
    × (done ≡ true → sent ≡ buf)
    × ((later : List ℕ) × (sent ++ later ≡ buf))

Sends-more :
    (k : ℕ) (buf : List ℕ) (ds : List Departure) (r : Bool × (List ℕ × List Departure))
    → Sends (drop k buf) ds r
    → Sends buf ds (r.0, (take k buf ++ r.1.0, r.1.1))
Sends-more k buf ds (done, (sent, ds')) (opens, whole, (later, e)) = (
  opens,
  λ d. ap (λ s. take k buf ++ s) (whole d) ∙ take-append-drop k buf,
  (
    later,
    append_assoc (take k buf) sent later ∙ ap (λ s. take k buf ++ s) e ∙ take-append-drop k buf,
  ),
)

-- `writedata` succeeds on a line whose `write` fails only for a while, however often that is, as
-- the code has no timeout, although its comment speaks of one; and that line is then again of
-- that kind. Where it succeeds, it has sent exactly its bytes; otherwise it has sent the first of
-- them.
pub writedata_lem : (buf : List ℕ) (ds : List Departure) → Sends buf ds (writedata buf ds)
unfolding writedata
writedata_lem buf [] = (λ o. (refl, tt), λ e. refl, ([], append-nil buf))
writedata_lem buf (full ∷ ds) = writedata_lem buf ds
writedata_lem buf (failed ∷ ds) = (λ o. absurd o, λ e. absurd (false≢true e), (buf, refl))
writedata_lem buf (room k ∷ ds) = elim (Bool-cases (ltb (k + 1) (length buf))) [
  | inl short ↦ rw short (
      Sends-more (k + 1) buf ds (writedata (drop (k + 1) buf) ds)
        (writedata_lem (drop (k + 1) buf) ds))
  | inr whole ↦ rw whole (λ o. (refl, o), λ e. refl, ([], append-nil buf))
]

-- Bytes at the front of the stream are what a read of so many bytes returns.
pub readdata-tokens :
    (n : ℕ) (xs : List ℕ) (ts : List Token) (es : List Arrival)
    → wire es ≡ tokens xs ++ ts
    → length xs ≡ n
    → (es' : List Arrival) × (readdata n [] es ≡ (got xs, es')) × (wire es' ≡ ts)
readdata-tokens n xs ts es w l =
    let front : receive n [] (wire es) ≡ (got xs, ts) =
      ap (receive n []) w
      ∙ receive_long n [] xs ts (omega arith)
      ∙ ap₂ (λ a b. (got a, tokens b ++ ts)) (take_all n xs (omega arith))
          (drop_all n xs (omega arith)) in
    let same : (got xs, ts) ≡ ((readdata n [] es).0, wire (readdata n [] es).1) =
      sym front ∙ readdata_lem n [] es in
    let bytes : got xs ≡ (readdata n [] es).0 = ap (λ p. p.0) same in
    (
      (readdata n [] es).1,
      ap (λ r. (r, (readdata n [] es).1)) (sym bytes),
      sym (ap (λ p. p.1) same),
    )
