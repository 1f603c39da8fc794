-- ===== src/Lwwire/Serve/Operations.antt =====
-- The operations of lwwire/lwwire.c in the relation `Follows`, however they end.
use fip.Base.{
  ℕ, ◌+◌, ◌/◌, ◌≡◌, refl, sym, ap, ◌∙◌, subst, inl, inr, Bool, true, false, not, Option, none, some,
  List, [], ◌∷◌, ◌++◌, arith, ◌==◌, if◌then◌else◌, Bool-cases, Option-cases, ==_iff, get_or, take,
  drop, replicate, u8, u16,
}
use mathlib.Core.Option.{IsSome}
use fip.Lwwire.Drives.{Drive, checksum_error, fetch_sector, save_sector}
use fip.Lwwire.Server.{Extension, Server, Outcome, returns, ◌>>=◌, protoerror, reset, read, write}
use fip.Lwwire.Handlers.{
  sum, lsn, set_drive, tm_bytes, answer_read, answer_write, reply_write, proto_read, proto_write,
  confirm, answer_readex, proto_readex, set_enabled, request, proto_requestextension, withdraw,
  proto_disableextension, operate, proto_extensionop,
}
use fip.Lwwire.Serve.{send_time, print, init, burn, handle}
use fip.Lwwire.Serve.Keeps.{
  KeepsDrive, fetch_sector-KeepsDrive, save_sector-KeepsDrive, Follows, Follows-refl, Follows-same,
  Follows-trans, Ends, Ends-from, Ends-bind, reset-Follows, protoerror-Follows, read-Ends,
  write-Ends, set_drive-Follows,
}

module _ {X : Type 0} (extensions : ℕ → Extension X) where
  if-Ends :
      {A : Type 0} (b : Bool) (s : Server X) (x y : Outcome X A)
      → Ends extensions s x
      → Ends extensions s y
      → Ends extensions s (if b then x else y)
  if-Ends true s x y p q = p
  if-Ends false s x y p q = q

  -- A request, and what follows it.
  read-then :
      (n : ℕ) (s : Server X) (k : List ℕ → Server X → Outcome X Unit)
      → ((buf : List ℕ) (t : Server X) → Ends extensions t (k buf t))
      → Ends extensions s (
          read extensions n s >>= λ got s'. elim got [ none ↦ returns tt s' | some buf ↦ k buf s' ])
  read-then n s k p =
      Ends-bind extensions s (read extensions n s) _ (read-Ends extensions n s) after
    where
      after :
          (got : Option (List ℕ)) (t : Server X)
          → Ends extensions t (elim got [ none ↦ returns tt t | some buf ↦ k buf t ])
      after none t = Follows-refl extensions t
      after (some buf) t = p buf t

  -- A change of one drive, and what is sent then.
  write_changed-Ends :
      (dn : ℕ) (d : Drive) (buf : List ℕ) (s : Server X)
      → KeepsDrive (s.drives dn) d
      → Ends extensions s (write buf (set_drive dn d s))
  write_changed-Ends dn d buf s k =
      Ends-from extensions (write buf (set_drive dn d s)) (set_drive-Follows extensions dn d s k)
        (write-Ends extensions buf (set_drive dn d s))

  answer_read-Ends :
      (dn : ℕ) (r : ℕ × (List ℕ × Drive)) (s : Server X)
      → KeepsDrive (s.drives dn) r.1.1
      → Ends extensions s (answer_read dn r s)
  unfolding answer_read
  answer_read-Ends dn (ec, (sector, d)) s k =
      Ends-bind extensions s (write (u8 (u16 ec) ∷ []) (set_drive dn d s)) _
        (write_changed-Ends dn d (u8 (u16 ec) ∷ []) s k)
        (λ a t.
          if-Ends (not (u16 ec == 0)) t (returns tt t)
            (write (sector ++ (u8 (u16 (sum sector) / 256) ∷ u8 (u16 (sum sector)) ∷ [])) t)
            (Follows-refl extensions t)
            (write-Ends extensions
              (sector ++ (u8 (u16 (sum sector) / 256) ∷ u8 (u16 (sum sector)) ∷ [])) t))

  proto_read-Ends : (s : Server X) → Ends extensions s (proto_read extensions s)
  unfolding proto_read
  proto_read-Ends s = read-then 4 s _ (λ buf t.
      answer_read-Ends (get_or buf 0 0) (fetch_sector (lsn buf) (t.drives (get_or buf 0 0))) t
        (fetch_sector-KeepsDrive (lsn buf) (t.drives (get_or buf 0 0))))

  answer_write-Ends :
      (dn : ℕ) (r : ℕ × Drive) (s : Server X)
      → KeepsDrive (s.drives dn) r.1
      → Ends extensions s (answer_write dn r s)
  unfolding answer_write
  answer_write-Ends dn (ec, d) s k = write_changed-Ends dn d (u8 (u16 ec) ∷ []) s k

  proto_write-Ends : (s : Server X) → Ends extensions s (proto_write extensions s)
  unfolding proto_write reply_write
  proto_write-Ends s = read-then 262 s _ (λ buf t.
      if-Ends _ t _ _ (write-Ends extensions (checksum_error ∷ []) t) (
        answer_write-Ends (get_or buf 0 0)
          (save_sector (lsn buf) (take 256 (drop 4 buf)) (t.drives (get_or buf 0 0))) t
          (save_sector-KeepsDrive (lsn buf) (take 256 (drop 4 buf)) (t.drives (get_or buf 0 0)))))

  confirm-Ends :
      (ec : ℕ) (block : List ℕ) (s : Server X) → Ends extensions s (confirm extensions ec block s)
  unfolding confirm
  confirm-Ends ec block s = read-then 2 s _ (λ sums t. write-Ends extensions _ t)

  answer_readex-Ends :
      (dn : ℕ) (r : ℕ × (List ℕ × Drive)) (s : Server X)
      → KeepsDrive (s.drives dn) r.1.1
      → Ends extensions s (answer_readex extensions dn r s)
  unfolding answer_readex
  answer_readex-Ends dn (ec, (sector, d)) s k =
      let block = if not (ec == 0) then replicate 256 0 else sector in
      Ends-bind extensions s (write block (set_drive dn d s)) _ (write_changed-Ends dn d block s k)
        (λ a t. confirm-Ends ec block t)

  proto_readex-Ends : (s : Server X) → Ends extensions s (proto_readex extensions s)
  unfolding proto_readex
  proto_readex-Ends s = read-then 4 s _ (λ buf t.
      answer_readex-Ends (get_or buf 0 0) (fetch_sector (lsn buf) (t.drives (get_or buf 0 0))) t
        (fetch_sector-KeepsDrive (lsn buf) (t.drives (get_or buf 0 0))))

  set_enabled-Follows :
      (n : ℕ) (b : Bool) (x : X) (s : Server X)
      → ((extensions n).enable ≡ none → b ≡ false)
      → Follows extensions s (set_enabled extensions n b x s)
  set_enabled-Follows n b x s h = record {
    line = omega arith;
    drives = λ dn. record { isconst = refl; file = λ c. refl };
    disabled = λ i e off. elim (Bool-cases (i == n)) [
      | inl at ↦ rw at (h (ap (λ k. (extensions k).enable) (sym ((==_iff i n).0 at)) ∙ e))
      | inr elsewhere ↦ rw elsewhere off
    ];
  }

  request-Follows : (n : ℕ) (s : Server X) → Follows extensions s (request extensions n s).1
  unfolding request
  request-Follows n s = elim (Option-cases (extensions n).enable) [
    | inl missing ↦ rw (missing, request) (Follows-refl extensions s)
    | inr (enable, there) ↦
        rw (there, request)
          (elim (Bool-cases (enable s.extension_state).0) [
            | inl accepted ↦ rw accepted (
                set_enabled-Follows n true (enable s.extension_state).1 s
                  (λ e. absurd (subst IsSome (sym there ∙ e) tt)))
            | inr refused ↦ rw refused (Follows-same extensions s _ refl refl refl)
          ])
  ]

  proto_requestextension-Ends :
      (s : Server X) → Ends extensions s (proto_requestextension extensions s)
  unfolding proto_requestextension
  proto_requestextension-Ends s = read-then 1 s _ (λ buf t.
      let r = request extensions (get_or buf 0 0) t in
      Ends-from extensions (write (r.0 ∷ []) r.1) (request-Follows (get_or buf 0 0) t)
        (write-Ends extensions (r.0 ∷ []) r.1))

  withdraw-Follows : (n : ℕ) (s : Server X) → Follows extensions s (withdraw extensions n s).1
  unfolding withdraw
  withdraw-Follows n s = elim (Option-cases (extensions n).disable) [
    | inl missing ↦
        rw (missing, withdraw) (set_enabled-Follows n false s.extension_state s (λ e. refl))
    | inr (disable, there) ↦
        rw (there, withdraw)
          (elim (Bool-cases (disable s.extension_state).0) [
            | inl accepted ↦
                rw accepted
                  (set_enabled-Follows n false (disable s.extension_state).1 s (λ e. refl))
            | inr refused ↦ rw refused (Follows-same extensions s _ refl refl refl)
          ])
  ]

  proto_disableextension-Ends :
      (s : Server X) → Ends extensions s (proto_disableextension extensions s)
  unfolding proto_disableextension
  proto_disableextension-Ends s = read-then 1 s _ (λ buf t.
      let r = withdraw extensions (get_or buf 0 0) t in
      Ends-from extensions (write (r.0 ∷ []) r.1) (withdraw-Follows (get_or buf 0 0) t)
        (write-Ends extensions (r.0 ∷ []) r.1))

  operate-Follows : (n op : ℕ) (s : Server X) → Follows extensions s (operate extensions n op s)
  unfolding operate
  operate-Follows n op s = elim (Bool-cases (s.enabled n)) [
    | inr off ↦ rw off (protoerror-Follows extensions s)
    | inl on ↦ rw on (elim (Option-cases (extensions n).handler) [
      | inl missing ↦ rw missing (protoerror-Follows extensions s)
      | inr (handler, there) ↦ rw there (elim (Bool-cases (handler op s.extension_state).0) [
        | inl accepted ↦ rw accepted (Follows-same extensions s _ refl refl refl)
        | inr refused ↦ rw refused (
            Follows-trans extensions (Follows-same extensions s _ refl refl refl) (
              protoerror-Follows extensions
                (record s { extension_state = (handler op s.extension_state).1 })))
      ])
    ])
  ]

  proto_extensionop-Ends : (s : Server X) → Ends extensions s (proto_extensionop extensions s)
  unfolding proto_extensionop
  proto_extensionop-Ends s =
      read-then 2 s _ (λ buf t. operate-Follows (get_or buf 0 0) (get_or buf 1 0) t)

  send_time-Ends : (s : Server X) → Ends extensions s (send_time extensions s)
  unfolding send_time
  send_time-Ends s =
      Ends-from extensions (write (tm_bytes (s.clock s.calls)) (record s { calls = s.calls + 1 }))
        (Follows-same extensions s (record s { calls = s.calls + 1 }) refl refl refl)
        (write-Ends extensions (tm_bytes (s.clock s.calls)) (record s { calls = s.calls + 1 }))

  print-Ends : (s : Server X) → Ends extensions s (print extensions s)
  unfolding print
  print-Ends s =
      Ends-bind extensions s (read extensions 1 s) _ (read-Ends extensions 1 s)
        (λ got t. Follows-same extensions t _ refl refl refl)

  init-Ends : (s : Server X) → Ends extensions s (init extensions s)
  unfolding init
  init-Ends s =
      Ends-bind extensions s (read extensions 1 (reset extensions s)) _
        (Ends-from extensions (read extensions 1 (reset extensions s)) (reset-Follows extensions s)
          (read-Ends extensions 1 (reset extensions s)))
        after
    where
      after :
          (got : Option (List ℕ)) (t : Server X)
          → Ends extensions t (elim got [ none ↦ returns tt t | some buf ↦ write (0x80 ∷ []) t ])
      after none t = Follows-refl extensions t
      after (some buf) t = write-Ends extensions (0x80 ∷ []) t

  burn-Ends : (s : Server X) → Ends extensions s (burn extensions s)
  unfolding burn
  burn-Ends s =
      Ends-bind extensions s (read extensions 2 s) _ (read-Ends extensions 2 s)
        (λ got t. Follows-refl extensions t)

  if-holds :
      (p : Outcome X Unit → Type 0) (b : Bool) (x y : Outcome X Unit)
      → p x
      → p y
      → p (if b then x else y)
  if-holds p true x y h k = h
  if-holds p false x y h k = k

  -- One of the thirteen branches is taken.
  handle-cases :
      (p : Outcome X Unit → Type 0) (op : ℕ) (s : Server X)
      → p (returns tt s)
      → p (send_time extensions s)
      → p (burn extensions s)
      → p (returns tt (reset extensions s))
      → p (print extensions s)
      → p (proto_read extensions s)
      → p (proto_write extensions s)
      → p (init extensions s)
      → p (proto_readex extensions s)
      → p (proto_requestextension extensions s)
      → p (proto_disableextension extensions s)
      → p (proto_extensionop extensions s)
      → p (returns tt (protoerror extensions s))
      → p (handle extensions op s)
  unfolding handle
  handle-cases p op s nothing time burnt fresh printed reads writes inits readsex requests withdraws
        operates unknown =
      if-holds p _ _ _ nothing (
        if-holds p _ _ _ time (
          if-holds p _ _ _ burnt (
            if-holds p _ _ _ fresh (
              if-holds p _ _ _ printed (
                if-holds p _ _ _ reads (
                  if-holds p _ _ _ writes (
                    if-holds p _ _ _ inits (
                      if-holds p _ _ _ readsex (
                        if-holds p _ _ _ requests
                          (if-holds p _ _ _ withdraws (if-holds p _ _ _ operates unknown)))))))))))

  pub handle-Ends : (op : ℕ) (s : Server X) → Ends extensions s (handle extensions op s)
  handle-Ends op s =
      handle-cases (λ o. Ends extensions s o) op s (Follows-refl extensions s) (send_time-Ends s)
        (burn-Ends s) (reset-Follows extensions s) (print-Ends s) (proto_read-Ends s)
        (proto_write-Ends s) (init-Ends s) (proto_readex-Ends s) (proto_requestextension-Ends s)
        (proto_disableextension-Ends s) (proto_extensionop-Ends s) (protoerror-Follows extensions s)
