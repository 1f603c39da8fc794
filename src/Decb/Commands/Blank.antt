-- ===== src/Decb/Commands/Blank.antt =====
-- The loop of `mkfs` of decb/decb.c, and the table that it protects.
use fip.Base.{
  ℕ, zero, suc, ◌+◌, ◌-◌, ◌*◌, ◌≤◌, ◌<◌, min, ◌≡◌, refl, ap, ◌∙◌, inl, Bool, true, false, List,
  arith, length, get_or, replicate, get_or_ext, get_or-replicate, if◌then◌else◌,
}
use native.Mathlib.Decide.{dec_lt}
use fip.Decb.Image.{
  Image, granz, fatz, read_at, write_at, bytes, length-bytes, get_or-bytes, byte-write_at_in,
  byte-write_at_out,
}
use fip.Decb.Fat.{granfree}
use fip.Decb.Commands.{Options, blank_from, protect}

pub length-replicate : (n v : ℕ) → length (replicate n v) ≡ n
length-replicate zero v = refl
length-replicate (suc n) v = ap suc (length-replicate n v)

pub size-write_at_end :
    (img : Image) (pos : ℕ) (xs : List ℕ)
    → 0 < length xs
    → pos + length xs ≤ (write_at img pos xs).size
unfolding write_at
size-write_at_end img pos xs l = ground arith

-- A read of as much as the image has there
pub read_at_whole :
    (img : Image) (pos : ℕ) (xs : List ℕ)
    → pos + length xs ≤ img.size
    → ((i : ℕ) → i < length xs → img.byte (pos + i) ≡ get_or xs i 0)
    → read_at img pos (length xs) ≡ xs
unfolding read_at
read_at_whole img pos xs l h =
    let n : min (length xs) (img.size - pos) ≡ length xs = omega arith in
    ap (bytes img.byte pos) n
    ∙ get_or_ext (bytes img.byte pos (length xs)) xs 0 (length-bytes img.byte pos (length xs))
        (λ i li.
          let li' : i < length xs = omega (arith, li, length-bytes img.byte pos (length xs)) in
          get_or-bytes img.byte pos (length xs) i li' ∙ h i li')

abbrev ff : List ℕ
ff = replicate granz 0xff

length-ff : length ff ≡ granz
length-ff = length-replicate granz 0xff

-- The loop of `mkfs`
module _ (o : Options) where
  blank_kept :
      (k pos : ℕ) (img : Image) (q : ℕ) → q < pos → (blank_from o k pos img).byte q ≡ img.byte q
  unfolding blank_from
  blank_kept zero pos img q l = refl
  blank_kept (suc k) pos img q l =
      blank_kept k (pos + granz) (write_at img pos ff) q (omega arith)
      ∙ byte-write_at_out img pos ff q (inl l)

  pub blank_byte :
      (k pos : ℕ) (img : Image) (q : ℕ)
      → pos ≤ q
      → q < pos + k * granz
      → (blank_from o k pos img).byte q ≡ 0xff
  unfolding blank_from
  blank_byte zero pos img q l h = absurd (omega arith)
  blank_byte (suc k) pos img q l h = elim (dec_lt q (pos + granz)) [
    | yes here ↦
        let at : q ≡ pos + (q - pos) = omega arith in
        blank_kept k (pos + granz) (write_at img pos ff) q here
        ∙ ap (λ p. (write_at img pos ff).byte p) at
        ∙ byte-write_at_in img pos ff (q - pos) (omega (arith, length-ff))
        ∙ get_or-replicate granz 0xff (q - pos) (omega arith)
    | no later ↦ blank_byte k (pos + granz) (write_at img pos ff) q (omega arith) (omega arith)
  ]

  pub blank_size :
      (k pos : ℕ) (img : Image) → pos + suc k * granz ≤ (blank_from o (suc k) pos img).size
  unfolding blank_from
  blank_size zero pos img =
      omega (arith, size-write_at_end img pos ff (omega (arith, length-ff)), length-ff)
  blank_size (suc k) pos img = omega (arith, blank_size k (pos + granz) (write_at img pos ff))

-- What a table holds that is protected
abbrev pub reserved : Options → ℕ
reserved o = (if o.mbr then 1 else 0) + (if o.boot then 2 else 0)

pub protect_lem :
    (o : Options) (m b : Bool)
    → o.mbr ≡ m
    → o.boot ≡ b
    → (length (protect o (replicate fatz 0xff)) ≡ fatz)
      × (granfree (protect o (replicate fatz 0xff)) + reserved o ≡ fatz)
unfolding protect granfree
protect_lem o true true e f = rw (e, f) (refl, refl)
protect_lem o true false e f = rw (e, f) (refl, refl)
protect_lem o false true e f = rw (e, f) (refl, refl)
protect_lem o false false e f = rw (e, f) (refl, refl)
