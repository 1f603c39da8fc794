-- ===== src/Romfs/Tests.antt =====
-- `romfs` on a disk of zeros, and one sector of a disk.
use fip.Base.{
  ℕ, ◌+◌, ◌*◌, ◌/◌, ◌≤◌, ◌<◌, ◌≡◌, refl, ◌⊎◌, [], ◌∷◌, arith, ◌==◌, if◌then◌else◌, take, same_bytes,
}
use fip.Decb.Image.{Image, bytes, read_at, write_at}
use fip.Romfs.{rom, bad_banks, cannot_fit, romfs, load, save, append, convert_sector, blank_rom}
use fip.Romfs.Stored.{busy}
use fip.Romfs.Whole.{fetch, romfs_lem}

abbrev disk_byte : ℕ → ℕ
disk_byte q = if q == 5 then 7 else 0

disk_zeros : (q : ℕ) → 630 * 256 ≤ q → disk_byte q ≡ 0
disk_zeros q l = ground arith

abbrev disk : Image
disk = record { byte = disk_byte; size = 630 * 256; zeros = disk_zeros }

convert_sector-disk :
    let r = convert_sector disk 1 (convert_sector disk 0 blank_rom) in
    (take 2 r.lsns ≡ 3 ∷ 1 ∷ []) × (r.outpos ≡ 4) × (r.out.byte (3 * 256 + 5) ≡ 7)
unfolding convert_sector load read_at bytes same_bytes append save write_at
convert_sector-disk = (refl, refl, refl)

romfs_example :
    let n = 3 + busy disk 630 in
    (((4 < 1) ⊎ (4 < 4)) × (romfs 4 disk ≡ bad_banks))
    ⊎ (((0 < 4) × (4 ≤ 4))
        × (((4 * 64 < n + n / 63) × (romfs 4 disk ≡ cannot_fit))
            ⊎ ((n + n / 63 ≤ 4 * 64)
                × ((out : Image) × (romfs 4 disk ≡ rom out)
                    × ((i q : ℕ) → i < 630 → q < 256 → fetch out i q ≡ disk.byte (i * 256 + q))))))
romfs_example = romfs_lem 4 disk (omega arith)
