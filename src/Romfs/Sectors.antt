-- ===== src/Romfs/Sectors.antt =====
-- What one sector of decb/romfs.c reads and writes.
use fip.Base.{
  ℕ, ◌+◌, ◌-◌, ◌*◌, ◌/◌, ◌%◌, ◌≤◌, ◌<◌, min, ◌≡◌, refl, ◌∙◌, subst, ◌≢◌, ◌⊎◌, inl, false, List,
  append-nil, arith, ◌==◌, ==_iff, length, get_or, drop_all,
}
use native.Mathlib.Decide.{ℕ_discrete}
use fip.Decb.Image.{Image, bytes, read_at, length-bytes, byte-write_at_in, byte-write_at_out}
use fip.Romfs.{Rom, load, save, append, ones}

-- The sector `i` of an image.
abbrev pub sector : Image → ℕ → List ℕ
sector img i = bytes img.byte (i * 256) 256

-- A sector inside of the image replaces all of `buf`.
pub load_lem :
    (img : Image) (i : ℕ) (buf : List ℕ)
    → (i + 1) * 256 ≤ img.size
    → length buf ≡ 256
    → load img i buf ≡ sector img i
unfolding load read_at
load_lem img i buf h e =
    let full : min 256 (img.size - i * 256) ≡ 256 = omega arith in
    let size : length (bytes img.byte (i * 256) 256) ≡ 256 = length-bytes img.byte (i * 256) 256 in
    rw (full, drop_all (length (sector img i)) buf (omega (arith, e, size)))
      (append-nil (sector img i))

pub save_in :
    (img : Image) (buf : List ℕ) (sec q : ℕ)
    → q < length buf
    → (save img buf sec).byte (sec * 256 + q) ≡ get_or buf q 0
unfolding save
save_in img buf sec q l = byte-write_at_in img (sec * 256) buf q l

pub save_out :
    (img : Image) (buf : List ℕ) (sec q : ℕ)
    → (q < sec * 256) ⊎ (sec * 256 + length buf ≤ q)
    → (save img buf sec).byte q ≡ img.byte q
unfolding save
save_out img buf sec q h = byte-write_at_out img (sec * 256) buf q h

-- The `n`th place of a ROM: those of the form 64 k + 63 are left out.
abbrev pub place : ℕ → ℕ
place n = n + n / 63

pub record Appended (n : ℕ) (r r' : Rom) : Type 0 where
  pub outpos : r'.outpos ≡ place (n + 1)
  pub lsns : r'.lsns ≡ r.lsns
  pub buf : r'.buf ≡ r.buf
  pub kept : (q : ℕ) → q < place n * 256 → r'.out.byte q ≡ r.out.byte q
  pub stored : (q : ℕ) → q < 256 → r'.out.byte (place n * 256 + q) ≡ get_or r.buf q 0

-- `append` stores the block at its place, and goes on to the next.
pub append_lem :
    (n : ℕ) (r : Rom) → r.outpos ≡ place n → length r.buf ≡ 256 → Appended n r (append r)
unfolding append
append_lem n r at e = elim (ℕ_discrete ((r.outpos + 1) % 64) 63) [
  | yes skip ↦ rw ((==_iff ((r.outpos + 1) % 64) 63).1 skip) (record {
    outpos = omega arith;
    lsns = refl;
    buf = refl;
    kept = λ q l.
        save_out (save r.out r.buf r.outpos) ones (r.outpos + 1) q (inl (omega arith))
        ∙ save_out r.out r.buf r.outpos q (inl (omega arith));
    stored = λ q l.
        save_out (save r.out r.buf r.outpos) ones (r.outpos + 1) (place n * 256 + q)
          (inl (omega arith))
        ∙ here q l;
  })
  | no next ↦ rw (continues next) (record {
    outpos = omega (arith, next);
    lsns = refl;
    buf = refl;
    kept = λ q l. save_out r.out r.buf r.outpos q (inl (omega arith));
    stored = here;
  })
]
  where
    continues : (r.outpos + 1) % 64 ≢ 63 → ((r.outpos + 1) % 64 == 63) ≡ false
    continues ne = ground (arith, ne)

    here :
        (q : ℕ) → q < 256 → (save r.out r.buf r.outpos).byte (place n * 256 + q) ≡ get_or r.buf q 0
    here q l =
        subst (λ p. (save r.out r.buf r.outpos).byte (p * 256 + q) ≡ get_or r.buf q 0) at
          (save_in r.out r.buf r.outpos q (omega arith))
