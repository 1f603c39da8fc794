-- ===== src/Booter/Dw/Tests.antt =====
-- The driver of booter/dw.c and the server of lwwire/lwwire.c on a concrete disk.
use fip.Base.{
  ℕ, zero, suc, ◌<◌, ◌≤◌, ltb, if◌then◌else◌, ◌≡◌, refl, true, false, none, some, List, [], ◌∷◌,
  ◌++◌, arith, replicate, All,
}
use fip.Decb.Image.{read_at, bytes, Image}
use fip.Lwwire.Channel.{Arrival, chunk}
use fip.Lwwire.Channel.Laws.{wire}
use fip.Lwwire.Drives.{
  Drive, closed, fetch_sector, load_sector, fetch_drive_fp, reopen, read_sector,
}
use fip.Lwwire.Server.{Extension, Server, returns}
use fip.Lwwire.Serve.{serve}
use fip.Booter.Dw.{dw_read}
use fip.Booter.Dw.Laws.{on_line, conversation, dw_read-serve}

abbrev seven : ℕ → ℕ
seven q = if ltb q 1024 then 7 else 0

seven_zeros : (q : ℕ) → 1024 ≤ q → seven q ≡ 0
seven_zeros q l = ground arith

abbrev seven_image : Image
seven_image = record { size = 1024; byte = seven; zeros = seven_zeros }

-- A drive of four sectors of 7, behind a server
abbrev sevens : Drive
sevens = record {
  path = true;
  isconst = false;
  fp = closed;
  file = some (seven_image);
  locked = false;
  faulty = false;
  part = 0;
}

abbrev no_extensions : ℕ → Extension ℕ
no_extensions n = record { handler = none; disable = none; enable = none; reset = λ x. x }

abbrev server : List ℕ → Server ℕ
server asks = record {
  arrivals = one_by_one asks;
  departures = [];
  sent = [];
  drives = λ i. sevens;
  enabled = λ i. false;
  extension_state = 0;
  log = [];
  silences = 0;
  clock = λ n. record { year = 126; mon = 10; mday = 26; hour = 12; minute = 0; sec = 0 };
  calls = 0;
}
  where
    one_by_one : List ℕ → List Arrival
    one_by_one [] = []
    one_by_one (x ∷ xs) = chunk x [] ∷ one_by_one xs

replicate-All : (n v : ℕ) → v < 256 → All (λ b. b < 256) (replicate n v)
replicate-All zero v l = tt
replicate-All (suc n) v l = (l, replicate-All n v l)

abbrev sector : List ℕ
sector = replicate 256 7

abbrev asks : List ℕ
asks = conversation 2 2 sector ++ conversation 2 3 sector

abbrev answers : List ℕ
answers = sector ++ 0 ∷ (sector ++ 0 ∷ [])

dw_read-serve_example :
    (dw_read on_line 2 1 (answers, []) ≡ (some (sector ++ sector), ([], asks)))
    × (s' : Server ℕ) × (serve no_extensions 2 (server asks) ≡ returns tt s')
    × (s'.sent ≡ answers)
    × (wire s'.arrivals ≡ [])
unfolding fetch_sector load_sector fetch_drive_fp reopen read_sector read_at bytes wire
dw_read-serve_example =
    dw_read-serve no_extensions 2 1 sector sector (fetch_sector 2 sevens).1.1
      (fetch_sector 3 (fetch_sector 2 sevens).1.1).1.1 [] (server asks) (omega arith) (refl, refl)
      (replicate-All 256 7 (omega arith), replicate-All 256 7 (omega arith)) refl refl tt refl
