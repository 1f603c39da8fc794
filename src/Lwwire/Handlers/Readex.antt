-- ===== src/Lwwire/Handlers/Readex.antt =====
-- READEX of lwwire/lwwire.c, where the client sends the checksum.
use fip.Base.{
  ℕ, ◌+◌, ◌*◌, ◌<◌, ◌≡◌, refl, ap, ◌∙◌, inl, inr, not, List, [], ◌∷◌, ◌++◌, append_assoc, arith,
  ◌==◌, if◌then◌else◌, replicate, u8,
}
use fip.Lwwire.Channel.Laws.{tokens, Token}
use fip.Lwwire.Drives.{Drive, checksum_error, fetch_sector}
use fip.Lwwire.Server.{Extension, Server, returns}
use fip.Lwwire.Server.Laws.{read_lem, write_lem}
use fip.Lwwire.Handlers.{sum, lsn, set_drive, confirm, answer_readex, proto_readex}
use fip.Lwwire.Handlers.Sectors.{
  word_lem, lsn_lem, number, changed, Replies, Requests, Fetched, fetch_sector-Fetched,
}

-- The block that is sent: the sector, or zeros.
abbrev pub block : ℕ × (List ℕ × Drive) → List ℕ
block (ec, (sector, d)) = if not (ec == 0) then replicate 256 0 else sector

-- The code behind the client's checksum.
abbrev pub verdict : ℕ → ℕ → ℕ × (List ℕ × Drive) → ℕ
verdict hi lo r = if not (hi * 256 + lo == sum (block r)) then checksum_error else r.0

Fetched-u8 : (r : ℕ × (List ℕ × Drive)) → Fetched r → u8 r.0 ≡ r.0
Fetched-u8 (ec, r) (inl (e, size)) = omega (arith, e)
Fetched-u8 (ec, r) (inr e) = omega (arith, e)

module _ {X : Type 0} (extensions : ℕ → Extension X) (hi lo : ℕ) (ll : lo < 256)
    (ts : List Token) where
  confirm-Replies :
      (r : ℕ × (List ℕ × Drive)) (s : Server X)
      → Fetched r
      → Requests s (hi ∷ lo ∷ []) ts
      → Replies s (confirm extensions r.0 (block r) s) s.drives (verdict hi lo r ∷ []) ts
  unfolding confirm
  confirm-Replies r s f (o, w) =
      let (es, got, rest) = read_lem extensions 2 (hi ∷ lo ∷ []) ts s w refl in
      let (ds, sends, o') = write_lem (verdict hi lo r ∷ []) (record s { arrivals = es }) o in
      (es, rest, (ds, rw (got, word_lem hi lo ll, Fetched-u8 r f, confirm) sends, o'))

  answer_readex-Replies :
      (dn : ℕ) (r : ℕ × (List ℕ × Drive)) (s : Server X)
      → Fetched r
      → Requests s (hi ∷ lo ∷ []) ts
      → Replies s
          (answer_readex extensions dn r s)
          (changed dn r.1.1 s)
          (block r ++ verdict hi lo r ∷ [])
          ts
  unfolding answer_readex
  answer_readex-Replies dn r s f (o, w) =
      let s₁ = set_drive dn r.1.1 s in
      let (ds, sends, o₁) = write_lem (block r) s₁ o in
      let s₂ = record s₁ { sent = s.sent ++ block r; departures = ds } in
      let (es, rest, (ds₂, replies, o₂)) = confirm-Replies r s₂ f (o₁, w) in
      (
        es,
        rest,
        (
          ds₂,
          rw (sends, answer_readex)
              (replies
                ∙ ap (λ xs. returns tt (record s₂ { arrivals = es; departures = ds₂; sent = xs }))
                    (append_assoc s.sent (block r) (verdict hi lo r ∷ []))),
          o₂,
        ),
      )

  -- On an open line, and a request and a checksum that arrive whole, `proto_readex` sends the
  -- sector, or 256 zeros where it cannot be fetched, and then 0xf3 if the checksum is not the sum
  -- of that block, else the code of `fetch_sector`. It takes exactly these six bytes off the
  -- line, and changes only that drive.
  pub proto_readex_lem :
      (dn a b c : ℕ) (s : Server X)
      → (b < 256) × (c < 256)
      → Requests s (dn ∷ a ∷ b ∷ c ∷ hi ∷ lo ∷ []) ts
      → let r = fetch_sector (number a b c) (s.drives dn) in
        Replies s
          (proto_readex extensions s)
          (changed dn r.1.1 s)
          (block r ++ verdict hi lo r ∷ [])
          ts
  unfolding proto_readex
  proto_readex_lem dn a b c s (lb, lc) (o, w) =
      let (es, got, rest) =
        read_lem extensions 4 (dn ∷ a ∷ b ∷ c ∷ []) (tokens (hi ∷ lo ∷ []) ++ ts) s w refl in
      let r = fetch_sector (number a b c) (s.drives dn) in
      let (es₂, rest₂, sends) =
        answer_readex-Replies dn r (record s { arrivals = es })
          (fetch_sector-Fetched (number a b c) (s.drives dn)) (o, rest) in
      let begins : proto_readex extensions s
          ≡ answer_readex extensions dn (fetch_sector (lsn (dn ∷ a ∷ b ∷ c ∷ [])) (s.drives dn))
              (record s { arrivals = es }) =
        rw (got, proto_readex) refl in
      (
        es₂,
        rest₂,
        (
          sends.0,
          begins
              ∙ ap
                  (λ n.
                    answer_readex extensions dn (fetch_sector n (s.drives dn))
                      (record s { arrivals = es }))
                  (lsn_lem dn a b c [] lb lc)
              ∙ sends.1,
          sends.2,
        ),
      )
