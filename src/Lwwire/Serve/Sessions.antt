-- ===== src/Lwwire/Serve/Sessions.antt =====
-- Several rounds of lwwire/lwwire.c on one line.
use fip.Base.{
  ℕ, ◌+◌, ◌*◌, ◌/◌, ◌%◌, ◌^◌, ◌<◌, ◌≡◌, refl, ap, ap₂, ◌∙◌, ◌≢◌, ◌⊎◌, inl, inr, false, List, [],
  ◌∷◌, ◌++◌, append_assoc, arith, lt→ltb, ==_iff, length, get_or, All, if-true,
}
use fip.Lwwire.Channel.{Arrival, got, eof, error}
use fip.Lwwire.Channel.Laws.{Token, byte, wire, tokens, IsOpen, readdata-tokens}
use fip.Lwwire.Drives.{Drive, fetch_sector, save_sector}
use fip.Lwwire.Drives.Sectors.{save-fetch}
use fip.Lwwire.Server.{Extension, Server, returns, exits, protoerror, reset}
use fip.Lwwire.Handlers.{sum, proto_read, proto_write}
use fip.Lwwire.Handlers.Sectors.{number, answer, changed, proto_read_lem}
use fip.Lwwire.Handlers.Writes.{write_request, proto_write_lem}
use fip.Lwwire.Serve.{handle, round, serve}

-- Of two cases, the one that holds.
accepted : {P A B : Type 0} → P → (P × A) ⊎ (¬ P × B) → A
accepted p (inl (_, a)) = a
accepted p (inr (np, _)) = absurd (np p)

pub tokens-append : (xs ys : List ℕ) → tokens (xs ++ ys) ≡ tokens xs ++ tokens ys
tokens-append [] ys = refl
tokens-append (x ∷ xs) ys = ap (λ ts. byte x ∷ ts) (tokens-append xs ys)

-- The codes that the server knows.
abbrev pub known : List ℕ
known =
    0x00 ∷ 0x46 ∷ 0x23 ∷ 0x47 ∷ 0x53 ∷ 0x49 ∷ 0x54 ∷ 0xf8 ∷ 0xfe ∷ 0xff ∷ 0x50 ∷ 0x52 ∷ 0x72 ∷ 0x57
    ∷ 0x77 ∷ 0x5a ∷ 0xd2 ∷ 0xf2 ∷ 0xf0 ∷ 0xf1 ∷ 0xf3 ∷ []

module _ {X : Type 0} (extensions : ℕ → Extension X) where
  pub round-handle :
      (op : ℕ) (ts : List Token) (s : Server X)
      → wire s.arrivals ≡ byte op ∷ ts
      → (es : List Arrival) × (round extensions s
          ≡ handle extensions op (record s { arrivals = es }))
        × (wire es ≡ ts)
  unfolding round
  round-handle op ts s w =
      let (es, e, rest) = readdata-tokens 1 (op ∷ []) ts s.arrivals w refl in
      (
        es,
        ap
            (λ r. elim r.0 [
              | error timed_out ↦ returns tt (protoerror extensions (record s { arrivals = r.1 }))
              | eof ↦ exits 0 (record s { arrivals = r.1 })
              | got buf ↦ handle extensions (get_or buf 0 0) (record s { arrivals = r.1 })
            ])
            e,
        rest,
      )

  handle_write : (s : Server X) → handle extensions 0x57 s ≡ proto_write extensions s
  unfolding handle
  handle_write s = refl

  handle_read : (s : Server X) → handle extensions 0x52 s ≡ proto_read extensions s
  unfolding handle
  handle_read s = refl

  pub serve_two :
      (s t u : Server X)
      → round extensions s ≡ returns tt t
      → round extensions t ≡ returns tt u
      → serve extensions 2 s ≡ returns tt u
  unfolding serve
  serve_two s t u p q = rw (p, q, serve) refl

  handle_unknown :
      (op : ℕ) (s : Server X)
      → All (λ k. op ≢ k) known
      → handle extensions op s ≡ returns tt (protoerror extensions s)
  unfolding handle
  handle_unknown op s ne = ground (arith, ne)

  -- On a code that the server does not know, the round takes that byte alone off the line, is
  -- silent once, sends nothing, and disables all 256 extensions.
  pub round_unknown :
      (op : ℕ) (ts : List Token) (s : Server X)
      → All (λ k. op ≢ k) known
      → wire s.arrivals ≡ byte op ∷ ts
      → (s' : Server X) × (round extensions s ≡ returns tt s')
        × (wire s'.arrivals ≡ ts)
        × (s'.silences ≡ s.silences + 1)
        × (s'.sent ≡ s.sent)
        × ((i : ℕ) → i < 256 → s'.enabled i ≡ false)
  unfolding protoerror reset
  round_unknown op ts s ne w =
      let (es, e, rest) = round-handle op ts s w in
      let t = record s { arrivals = es } in
      (
        protoerror extensions t,
        e ∙ handle_unknown op t ne,
        rest,
        refl,
        refl,
        λ i l. if-true _ _ (lt→ltb i 256 l),
      )

-- The bytes of a WRITE operation, and of a READ of the same sector.
abbrev pub session : ℕ → ℕ → ℕ → ℕ → List ℕ → ℕ → ℕ → List ℕ
session dn a b c sector hi lo =
    0x57 ∷ (write_request dn a b c sector hi lo ++ 0x52 ∷ dn ∷ a ∷ b ∷ c ∷ [])

module _ (dn a b c : ℕ) (sector : List ℕ) (hi lo : ℕ) (lb : b < 256) (lc : c < 256) (ll : lo < 256)
    (la : a < 256) (size : length sector ≡ 256) where
  answered :
      {X : Type 0} (s : Server X) (d' : Drive)
      → hi * 256 + lo ≡ sum sector % 2 ^ 16
      → save_sector (number a b c) sector (s.drives dn) ≡ (0, d')
      → answer (
          fetch_sector
            (number a b c)
            (changed dn (save_sector (number a b c) sector (s.drives dn)).1 s dn))
        ≡ 0 ∷ (sector ++ hi ∷ lo ∷ [])
  answered s d' right saved =
      let here : changed dn (save_sector (number a b c) sector (s.drives dn)).1 s dn ≡ d' =
        if-true _ _ ((==_iff dn dn).1 refl) ∙ ap (λ r. r.1) saved in
      let high : sum sector % 2 ^ 16 / 256 ≡ hi = omega (arith, right, ll) in
      let low : sum sector % 256 ≡ lo = omega (arith, right, ll) in
      let (fetched, _) =
        save-fetch (number a b c) sector (s.drives dn) d' (omega (arith, la, lb, lc)) size saved in
      ap (λ d. answer (fetch_sector (number a b c) d)) here
      ∙ ap answer fetched
      ∙ ap₂ (λ u v. 0 ∷ (sector ++ u ∷ v ∷ [])) high low

  -- On an open line that holds a WRITE with the right checksum and then a READ of the same
  -- sector, and where `save_sector` says 0 for the drive, two rounds of the server send 0, 0, and
  -- then exactly the sector and the checksum that the client has sent, and leave what follows on
  -- the line.
  pub write-read :
      {X : Type 0} (extensions : ℕ → Extension X) (ts : List Token) (s : Server X) (d' : Drive)
      → IsOpen s.departures
      → wire s.arrivals ≡ tokens (session dn a b c sector hi lo) ++ ts
      → hi * 256 + lo ≡ sum sector % 2 ^ 16
      → save_sector (number a b c) sector (s.drives dn) ≡ (0, d')
      → (s' : Server X) × (serve extensions 2 s ≡ returns tt s')
        × (s'.sent ≡ s.sent ++ 0 ∷ 0 ∷ (sector ++ hi ∷ lo ∷ []))
        × (wire s'.arrivals ≡ ts)
  unfolding serve
  write-read extensions ts s d' o w right saved =
      let reading = tokens (0x52 ∷ dn ∷ a ∷ b ∷ c ∷ []) ++ ts in
      let cut : wire s.arrivals
          ≡ byte 0x57 ∷ (tokens (write_request dn a b c sector hi lo) ++ reading) =
        w
        ∙ ap (λ xs. byte 0x57 ∷ (xs ++ ts))
            (tokens-append (write_request dn a b c sector hi lo) (0x52 ∷ dn ∷ a ∷ b ∷ c ∷ []))
        ∙ ap (λ xs. byte 0x57 ∷ xs)
            (append_assoc (tokens (write_request dn a b c sector hi lo))
              (tokens (0x52 ∷ dn ∷ a ∷ b ∷ c ∷ [])) ts) in
      let (es₁, first, rest₁) = round-handle extensions 0x57 _ s cut in
      let (es₂, rest₂, (ds₂, wrote, o₂)) = accepted right (
        proto_write_lem dn a b c sector hi lo lb lc ll size extensions reading
          (record s { arrivals = es₁ }) (o, rest₁)) in
      let t = record s {
        arrivals = es₂;
        departures = ds₂;
        drives = changed dn (save_sector (number a b c) sector (s.drives dn)).1 s;
        sent = s.sent ++ (save_sector (number a b c) sector (s.drives dn)).0 ∷ [];
      } in
      let (es₃, second, rest₃) = round-handle extensions 0x52 _ t rest₂ in
      let (es₄, rest₄, (ds₄, read, o₄)) =
        proto_read_lem extensions dn a b c ts (record t { arrivals = es₃ }) (lb, lc) (o₂, rest₃) in
      (
        record t {
          arrivals = es₄;
          departures = ds₄;
          drives = _;
          sent = t.sent ++ answer (fetch_sector (number a b c) (t.drives dn));
        },
        serve_two extensions s t _ (first ∙ handle_write extensions _ ∙ wrote)
            (second ∙ handle_read extensions _ ∙ read),
        ap₂ (λ code xs. (s.sent ++ code ∷ []) ++ xs) (ap (λ r. r.0) saved)
              (answered s d' right saved)
            ∙ append_assoc s.sent (0 ∷ []) (0 ∷ (sector ++ hi ∷ lo ∷ [])),
        rest₄,
      )
