-- ===== src/Lwwire/Drives/Sectors.antt =====
-- A fetch behind a save, on one drive of lwwire/lwwire.c.
use fip.Base.{
  ℕ, ◌+◌, ◌*◌, ◌^◌, ◌<◌, ◌≡◌, refl, sym, ap, ◌∙◌, subst, ◌≢◌, inl, inr, true, false, some, List,
  arith, length, get_or_ext,
}
use fip.Decb.Image.{
  Image, write_at, length-bytes, get_or-bytes, byte-write_at_in, byte-write_at_out,
}
use fip.Lwwire.Drives.{Drive, opened, fetch_drive_fp, load_sector, fetch_sector, save_sector}
use fip.Lwwire.Drives.Laws.{
  Ready, Fetches, fetch_drive_fp-Fetches, sector_of, read_sector_lem, Saves, Saved, save_sector_lem,
}

-- One sector of an image that was written to.
module _ (img : Image) (lsn : ℕ) (sector : List ℕ) (size : length sector ≡ 256) where
  sector_of-write_at : sector_of (write_at img (lsn * 256) sector) lsn ≡ sector
  sector_of-write_at =
      let img' = write_at img (lsn * 256) sector in
      get_or_ext (sector_of img' lsn) sector 0 (length-bytes img'.byte (lsn * 256) 256 ∙ sym size)
        (λ i l.
          let l' : i < 256 = omega (arith, l, length-bytes img'.byte (lsn * 256) 256) in
          get_or-bytes img'.byte (lsn * 256) 256 i l'
          ∙ byte-write_at_in img (lsn * 256) sector i (omega (arith, l', size)))

  sector_of-write_at_ne :
      (other : ℕ)
      → other ≢ lsn
      → sector_of (write_at img (lsn * 256) sector) other ≡ sector_of img other
  sector_of-write_at_ne other ne =
      let img' = write_at img (lsn * 256) sector in
      get_or_ext (sector_of img' other) (sector_of img other) 0
        (length-bytes img'.byte (other * 256) 256 ∙ sym (length-bytes img.byte (other * 256) 256))
        (λ i l.
          let l' : i < 256 = omega (arith, l, length-bytes img'.byte (other * 256) 256) in
          get_or-bytes img'.byte (other * 256) 256 i l'
          ∙ byte-write_at_out img (lsn * 256) sector (other * 256 + i)
              (ground (arith, ne, size, l'))
          ∙ sym (get_or-bytes img.byte (other * 256) 256 i l'))

-- A stream that is open without an error is used again.
fetch_drive_fp-open :
    (d : Drive) → d.path ≡ true → d.fp ≡ opened false → fetch_drive_fp d ≡ (d.file, d)
unfolding fetch_drive_fp
fetch_drive_fp-open d p e = ground (arith, p, e)

fetch_sector-open :
    (lsn : ℕ) (d : Drive) (img : Image)
    → lsn < 2 ^ 24
    → d.path ≡ true
    → d.fp ≡ opened false
    → d.faulty ≡ false
    → d.file ≡ some img
    → fetch_sector lsn d ≡ (0, (sector_of img lsn, d))
unfolding fetch_sector load_sector
fetch_sector-open lsn d img l p e sound there =
    ap (load_sector lsn) (fetch_drive_fp-open d p e ∙ ap (λ o. (o, d)) there)
    ∙ ap (λ r. (0, r)) (read_sector_lem lsn img d l sound)

module _ (lsn : ℕ) (sector : List ℕ) (d d' : Drive) (l : lsn < 2 ^ 24) (size : length sector ≡ 256)
    (s : Saves lsn sector d d') where
  written : Image
  written = write_at s.img (lsn * 256) sector

  file_written : d'.file ≡ some written
  unfolding written
  file_written = s.file ∙ ap (λ p. some (write_at s.img p sector)) (omega arith)

  fetched :
      (other : ℕ) → other < 2 ^ 24 → fetch_sector other d' ≡ (0, (sector_of written other, d'))
  fetched other lo = fetch_sector-open other d' written lo s.path s.fp s.sound file_written

  fetched_before : (other : ℕ) → other < 2 ^ 24 → (fetch_sector other d).1.0 ≡ sector_of s.img other
  unfolding fetch_sector load_sector
  fetched_before other lo =
      let d₁ = (fetch_drive_fp d).1 in
      let r : Ready d s.img d₁ =
        subst (λ o. Fetches d (o, d₁)) s.before (fetch_drive_fp-Fetches d) in
      let sound : d₁.faulty ≡ false = r.settings.faulty ∙ sym s.settings.faulty ∙ s.sound in
      ap (λ o. (load_sector other (o, d₁)).1.0) s.before
      ∙ ap (λ p. p.0) (read_sector_lem other s.img d₁ lo sound)

  kept :
      (other : ℕ)
      → other < 2 ^ 24
      → other ≢ lsn
      → (fetch_sector other d').1.0 ≡ (fetch_sector other d).1.0
  unfolding written
  kept other lo ne =
      ap (λ r. r.1.0) (fetched other lo)
      ∙ sector_of-write_at_ne s.img lsn sector size other ne
      ∙ sym (fetched_before other lo)

  same : fetch_sector lsn d' ≡ (0, (sector, d'))
  unfolding written
  same = fetched lsn l ∙ ap (λ b. (0, (b, d'))) (sector_of-write_at s.img lsn sector size)

-- For a sector of 256 bytes with a number below `2 ^ 24`: where `save_sector` says 0,
-- `fetch_sector` then returns exactly that sector, and each other sector reads as before.
pub save-fetch :
    (lsn : ℕ) (sector : List ℕ) (d d' : Drive)
    → lsn < 2 ^ 24
    → length sector ≡ 256
    → save_sector lsn sector d ≡ (0, d')
    → (fetch_sector lsn d' ≡ (0, (sector, d')))
      × ((other : ℕ)
          → other < 2 ^ 24
          → other ≢ lsn
          → (fetch_sector other d').1.0 ≡ (fetch_sector other d).1.0)
save-fetch lsn sector d d' l size e =
    elim (subst (Saved lsn sector d) e (save_sector_lem lsn sector d)) [
      | inr (ne, _, _) ↦ absurd (ne refl)
      | inl (_, s) ↦ (same lsn sector d d' l size s, kept lsn sector d d' l size s)
    ]
