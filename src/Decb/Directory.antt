-- ===== src/Decb/Directory.antt =====
-- The directory of decb/decb.c: `struct dirent`, `getentry` with its statics, `saveentry`,
-- `stringconv` and `find`.
use fip.Base.{
  ℕ, zero, suc, ◌+◌, Bool, true, false, ◌||◌, not, List, [], ◌∷◌, ◌++◌, ltb, ◌==◌, if◌then◌else◌,
  length, get_or, set, take, drop, replicate, same_bytes,
}
use fip.Decb.Image.{Image, dirst, read_at, write_at}
use fip.Decb.Store.{Result, ok, fail, endless, ◌>>=◌, read_error, no_entry}

-- An entry of 32 bytes.
pub record Dirent : Type 0 where
  pub name : List ℕ
  pub ext : List ℕ
  pub kind : ℕ
  pub aflag : ℕ
  pub first : ℕ
  pub remainder_hi : ℕ
  pub remainder_lo : ℕ
  pub unused : List ℕ

unfoldable pub of_bytes : List ℕ → Dirent
of_bytes b = record {
  name = take 8 b;
  ext = take 3 (drop 8 b);
  kind = get_or b 11 0;
  aflag = get_or b 12 0;
  first = get_or b 13 0;
  remainder_hi = get_or b 14 0;
  remainder_lo = get_or b 15 0;
  unused = take 16 (drop 16 b);
}

unfoldable pub to_bytes : Dirent → List ℕ
to_bytes e =
    e.name
    ++ (e.ext ++ (e.kind ∷ e.aflag ∷ e.first ∷ e.remainder_hi ∷ e.remainder_lo ∷ [] ++ e.unused))

-- `estate`, the static `count`, the position of the file, `entry_off` and `entry`.
pub record Scan : Type 0 where
  pub estate : ℕ
  pub count : ℕ
  pub pos : ℕ
  pub entry_off : ℕ
  pub entry : Dirent

-- `stringconv` from the index `d` of `buf` on; only the first eleven bytes of `buf` are used. The
-- list is the string up to its NUL.
unfoldable pub stringconv_from : List ℕ → ℕ → List ℕ → List ℕ
stringconv_from [] d b = b
stringconv_from (c ∷ cs) d b =
    stringconv_from cs (if c == b'.' then 8 else d + 1) (if c == b'.' then b else set b d c)

unfoldable pub stringconv : List ℕ → List ℕ
unfolding stringconv_from
stringconv name = stringconv_from name 0 (replicate 11 0x20)

module _ (offset : ℕ) (img : Image) where
  -- `case 0` of `getentry`, which falls through.
  unfoldable pub rewound : Scan → Scan
  rewound d = if d.estate == 0 then record d { estate = 1; count = 0; pos = dirst + offset } else d

  unfoldable pub getentry : Scan → Result (Bool × Scan)
  getentry d₀ =
      let d = rewound d₀ in
      let got = read_at img d.pos 32 in
      let d' = record d {
        entry_off = d.pos;
        pos = d.pos + length got;
        entry = of_bytes got;
        count = d.count + 1;
      } in
      if not (length got == 32)
      then fail read_error img
      else if ltb 72 d'.count
      then ok (false, record d' { estate = 0 })
      else ok (true, d')

  -- The loop of `find` for the eleven bytes `name`. It ends by the 73rd call of `getentry`.
  unfoldable pub find_loop : ℕ → List ℕ → Scan → Result (Bool × Scan)
  find_loop zero name d = endless
  find_loop (suc f) name d = do
    (more, d') ← getentry d
    let e = d'.entry
    let rest = find_loop f name d'
    if not more
        then ok (false, d')
        else if get_or (e.name) 0 0 == 0xff
        then ok (false, d')
        else if same_bytes (e.name ++ e.ext) name
        then ok (true, d')
        else rest

  unfoldable pub find : List ℕ → Scan → Result (Bool × Scan)
  unfolding find_loop stringconv
  find name d = find_loop 74 (stringconv name) d

  -- The loop of `put` for an entry that is not in use.
  unfoldable pub vacant_loop : ℕ → Scan → Result Scan
  vacant_loop zero d = endless
  vacant_loop (suc f) d = do
    (more, d') ← getentry d
    let e = d'.entry
    let rest = vacant_loop f d'
    if not more
        then fail no_entry img
        else if get_or (e.name) 0 0 == 0 || get_or (e.name) 0 0 == 0xff
        then ok d'
        else rest

unfoldable pub saveentry : Image → Scan → Image
unfolding to_bytes
saveentry img d = write_at img d.entry_off (to_bytes d.entry)

-- `estate` is 0 when the program starts; nothing is read before `getentry` fills the entry.
abbrev pub start_scan : Scan
start_scan = record { estate = 0; count = 0; pos = 0; entry_off = 0; entry = of_bytes [] }
