-- ===== src/Lwwire/Tests.antt =====
-- Runs of the model of lwwire/lwwire.c, and its theorems at concrete states.
use fip.Base.{
  ℕ, ◌+◌, ◌*◌, ◌%◌, ◌^◌, ◌<◌, ◌≡◌, refl, ◌≢◌, ◌⊎◌, true, false, none, some, List, [], ◌∷◌, ◌++◌,
  arith, ◌==◌, if◌then◌else◌, length, take, drop, replicate,
}
use fip.Lwwire.Channel.{Arrival, chunk, again, got, readdata, room, full, failed, writedata}
use fip.Lwwire.Channel.Laws.{byte, wire, receive, readdata_lem, Sends, writedata_lem}
use fip.Lwwire.Drives.{
  Drive, closed, empty, fetch_sector, save_sector, fetch_drive_fp, checksum_error, store_sector,
  write_sector, reopen,
}
use fip.Lwwire.Drives.Laws.{Saved, save_sector_lem}
use fip.Lwwire.Drives.Sectors.{save-fetch}
use fip.Lwwire.Server.{Extension, Server, Tm, returns, exits, protoerror}
use fip.Lwwire.Handlers.{sum, proto_write, proto_readex, request, withdraw, operate}
use fip.Lwwire.Handlers.Sectors.{number, answer, changed, Replies}
use fip.Lwwire.Handlers.Writes.{write_request, proto_write_lem}
use fip.Lwwire.Handlers.Readex.{block, verdict, proto_readex_lem}
use fip.Lwwire.Handlers.Extensions.{operate_lem, handled}
use fip.Lwwire.Serve.{round, serve}
use fip.Lwwire.Serve.Keeps.{Ends}
use fip.Lwwire.Serve.Ends.{serve-Ends, serve_finishes}
use fip.Lwwire.Serve.Sessions.{session, round_unknown, write-read}

abbrev drive : Drive
drive = record {
  path = true;
  isconst = false;
  fp = closed;
  file = some empty;
  locked = false;
  faulty = false;
  part = 0;
}

abbrev extensions : ℕ → Extension ℕ
extensions n = record {
  handler = if n == 5 then some (λ op x. (true, x + op)) else none;
  disable = none;
  enable = if n == 5 then some (λ x. (true, x)) else none;
  reset = λ x. 0;
}

abbrev noon : Tm
noon = record { year = 126; mon = 10; mday = 26; hour = 12; minute = 0; sec = 0 }

abbrev server : List Arrival → Server ℕ
server es = record {
  arrivals = es;
  departures = full ∷ room 0 ∷ [];
  sent = [];
  drives = λ i. drive;
  enabled = λ i. false;
  extension_state = 0;
  log = [];
  silences = 0;
  clock = λ n. noon;
  calls = 0;
}

-- A line that is cut into two pieces, with a wait between them.
abbrev cut : ℕ → List ℕ → List Arrival
cut n [] = []
cut n (b ∷ bs) = chunk b (take n bs) ∷ again ∷ rest (drop n bs)
  where
    rest : List ℕ → List Arrival
    rest [] = []
    rest (c ∷ cs) = chunk c cs ∷ []

abbrev block_of_ones : List ℕ
block_of_ones = replicate 256 1

block_of_ones-length : length block_of_ones ≡ 256
block_of_ones-length = refl

readdata_lem_example :
    receive 3 [] (wire (chunk 1 [] ∷ again ∷ chunk 2 (3 ∷ 4 ∷ []) ∷ []))
    ≡ (got (1 ∷ 2 ∷ 3 ∷ []), wire (chunk 4 [] ∷ []))
unfolding readdata
readdata_lem_example = readdata_lem 3 [] (chunk 1 [] ∷ again ∷ chunk 2 (3 ∷ 4 ∷ []) ∷ [])

writedata_lem_example :
    Sends
      (1 ∷ 2 ∷ 3 ∷ [])
      (room 0 ∷ full ∷ failed ∷ [])
      (writedata (1 ∷ 2 ∷ 3 ∷ []) (room 0 ∷ full ∷ failed ∷ []))
writedata_lem_example = writedata_lem (1 ∷ 2 ∷ 3 ∷ []) (room 0 ∷ full ∷ failed ∷ [])

save_sector_lem_example : Saved 3 block_of_ones drive (save_sector 3 block_of_ones drive)
save_sector_lem_example = save_sector_lem 3 block_of_ones drive

saved : Drive
saved = (save_sector 3 block_of_ones drive).1

save-fetch_example :
    (fetch_sector 3 saved ≡ (0, (block_of_ones, saved)))
    × ((other : ℕ)
        → other < 2 ^ 24
        → other ≢ 3
        → (fetch_sector other saved).1.0 ≡ (fetch_sector other drive).1.0)
unfolding saved save_sector store_sector write_sector fetch_drive_fp reopen
save-fetch_example =
    save-fetch 3 block_of_ones drive (save_sector 3 block_of_ones drive).1 (omega arith)
      block_of_ones-length refl

-- 256 bytes of 1 add up to 1 * 256 + 0.
abbrev writing : List ℕ
writing = write_request 2 0 0 3 block_of_ones 1 0

proto_write_lem_example :
    let s = server (cut 99 writing) in
    let r = save_sector (number 0 0 3) block_of_ones drive in
    ((1 * 256 + 0 ≡ sum block_of_ones % 2 ^ 16)
      × Replies s (proto_write extensions s) (changed 2 r.1 s) (r.0 ∷ []) [])
    ⊎ ((1 * 256 + 0 ≢ sum block_of_ones % 2 ^ 16)
        × Replies s (proto_write extensions s) s.drives (checksum_error ∷ []) [])
unfolding wire
proto_write_lem_example =
    proto_write_lem 2 0 0 3 block_of_ones 1 0 (omega arith) (omega arith) (omega arith)
      block_of_ones-length extensions [] (server (cut 99 writing)) (tt, refl)

proto_readex_lem_example :
    let s = server (cut 4 (2 ∷ 0 ∷ 0 ∷ 3 ∷ 0 ∷ 9 ∷ [])) in
    let r = fetch_sector (number 0 0 3) drive in
    Replies s (proto_readex extensions s) (changed 2 r.1.1 s) (block r ++ verdict 0 9 r ∷ []) []
unfolding wire
proto_readex_lem_example =
    proto_readex_lem extensions 0 9 (omega arith) [] 2 0 0 3
      (server (cut 4 (2 ∷ 0 ∷ 0 ∷ 3 ∷ 0 ∷ 9 ∷ []))) (omega arith, omega arith) (tt, refl)

operate_lem_example :
    (let (answer, s') = request extensions 5 (server []) in
      ((answer ≡ 0x42)
        × (operate extensions 5 7 s' ≡ handled extensions 7 (λ op x. (true, x + op)) s'))
      ⊎ ((answer ≡ 0x55) × (s'.enabled ≡ (server []).enabled)))
    × (let (answer, s') = withdraw extensions 5 (server []) in
        ((answer ≡ 0x42) × (operate extensions 5 7 s' ≡ protoerror extensions s'))
        ⊎ ((answer ≡ 0x55) × (s'.enabled ≡ (server []).enabled)))
operate_lem_example = operate_lem extensions 5 7 (λ op x. (true, x + op)) (server []) refl

serve-Ends_example :
    Ends extensions
      (server (cut 7 (0x57 ∷ writing)))
      (serve extensions 3 (server (cut 7 (0x57 ∷ writing))))
serve-Ends_example = serve-Ends extensions 3 (server (cut 7 (0x57 ∷ writing)))

serve_finishes_example :
    (c : ℕ) × ((s' : Server ℕ) × (serve extensions 6 (server (cut 2 (0x49 ∷ 0x50 ∷ 65 ∷ 0x23 ∷ [])))
        ≡ exits c s'))
unfolding wire
serve_finishes_example =
    serve_finishes extensions 6 (server (cut 2 (0x49 ∷ 0x50 ∷ 65 ∷ 0x23 ∷ []))) (omega arith)

round_unknown_example :
    (s' : Server ℕ) × (round extensions (server (cut 0 (0x99 ∷ 1 ∷ []))) ≡ returns tt s')
    × (wire s'.arrivals ≡ byte 1 ∷ [])
    × (s'.silences ≡ 1)
    × (s'.sent ≡ [])
    × ((i : ℕ) → i < 256 → s'.enabled i ≡ false)
unfolding wire
round_unknown_example =
    round_unknown extensions 0x99 (byte 1 ∷ []) (server (cut 0 (0x99 ∷ 1 ∷ []))) (ground arith) refl

write-read_example :
    (s' : Server ℕ) × (serve extensions 2 (server (cut 200 (session 2 0 0 3 block_of_ones 1 0)))
      ≡ returns tt s')
    × (s'.sent ≡ 0 ∷ 0 ∷ (block_of_ones ++ 1 ∷ 0 ∷ []))
    × (wire s'.arrivals ≡ [])
unfolding wire sum save_sector store_sector write_sector fetch_drive_fp reopen
write-read_example =
    write-read 2 0 0 3 block_of_ones 1 0 (omega arith) (omega arith) (omega arith) (omega arith)
      block_of_ones-length extensions [] (server (cut 200 (session 2 0 0 3 block_of_ones 1 0)))
      (save_sector 3 block_of_ones drive).1 tt refl refl refl
