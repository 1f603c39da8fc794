-- ===== src/Lwwire/Handlers/Extensions.antt =====
-- The extensions of lwwire/lwwire.c: they are requested, disabled and operated.
use fip.Base.{
  ℕ, ◌≡◌, refl, ◌⊎◌, inl, inr, Bool, true, false, some, if◌then◌else◌, Bool-cases, Option-cases,
  ==_iff, if-true,
}
use fip.Lwwire.Server.{Extension, Server, protoerror}
use fip.Lwwire.Handlers.{set_enabled, request, withdraw, operate}

-- What an answer says: 0x42 sets whether the extension is enabled, and 0x55 leaves it.
abbrev pub Answers : {X : Type 0} → ℕ → Bool → Server X → ℕ × Server X → Type 0
Answers n b s (answer, s') =
    ((answer ≡ 0x42) × (s'.enabled n ≡ b)) ⊎ ((answer ≡ 0x55) × (s'.enabled ≡ s.enabled))

module _ {X : Type 0} (extensions : ℕ → Extension X) where
  set_enabled-at :
      (n : ℕ) (b : Bool) (x : X) (s : Server X) → (set_enabled extensions n b x s).enabled n ≡ b
  set_enabled-at n b x s = if-true _ _ ((==_iff n n).1 refl)

  request-Answers : (n : ℕ) (s : Server X) → Answers n true s (request extensions n s)
  unfolding request
  request-Answers n s = elim (Option-cases (extensions n).enable) [
    | inl missing ↦ rw (missing, request) (inr (refl, refl))
    | inr (enable, there) ↦
        rw (there, request)
          (elim (Bool-cases (enable s.extension_state).0) [
            | inl accepted ↦
                rw accepted (inl (refl, set_enabled-at n true (enable s.extension_state).1 s))
            | inr refused ↦ rw refused (inr (refl, refl))
          ])
  ]

  withdraw-Answers : (n : ℕ) (s : Server X) → Answers n false s (withdraw extensions n s)
  unfolding withdraw
  withdraw-Answers n s = elim (Option-cases (extensions n).disable) [
    | inl missing ↦ rw (missing, withdraw) (inl (refl, set_enabled-at n false s.extension_state s))
    | inr (disable, there) ↦
        rw (there, withdraw)
          (elim (Bool-cases (disable s.extension_state).0) [
            | inl accepted ↦
                rw accepted (inl (refl, set_enabled-at n false (disable s.extension_state).1 s))
            | inr refused ↦ rw refused (inr (refl, refl))
          ])
  ]

  operate_disabled :
      (n op : ℕ) (s : Server X)
      → s.enabled n ≡ false
      → operate extensions n op s ≡ protoerror extensions s
  unfolding operate
  operate_disabled n op s off = rw (off, operate) refl

  -- What the handler does to the state, and the reset where it refuses.
  abbrev pub handled : ℕ → (ℕ → X → Bool × X) → Server X → Server X
  handled op handler s =
      let (accepted, x) = handler op s.extension_state in
      let s' = record s { extension_state = x } in if accepted then s' else protoerror extensions s'

  operate_enabled :
      (n op : ℕ) (handler : ℕ → X → Bool × X) (s : Server X)
      → s.enabled n ≡ true
      → (extensions n).handler ≡ some handler
      → operate extensions n op s ≡ handled op handler s
  unfolding operate
  operate_enabled n op handler s on there = rw (on, there, operate) refl

  -- Let an extension have a handler. If a request to enable it is answered by 0x42, an operation
  -- is then handed to the handler, with a reset where that refuses; if a request to disable it is
  -- answered by 0x42, an operation is then a protocol error. Either request is answered by 0x42
  -- or by 0x55, and then it leaves what is enabled.
  pub operate_lem :
      (n op : ℕ) (handler : ℕ → X → Bool × X) (s : Server X)
      → (extensions n).handler ≡ some handler
      → (let (answer, s') = request extensions n s in
          ((answer ≡ 0x42) × (operate extensions n op s' ≡ handled op handler s'))
          ⊎ ((answer ≡ 0x55) × (s'.enabled ≡ s.enabled)))
        × (let (answer, s') = withdraw extensions n s in
            ((answer ≡ 0x42) × (operate extensions n op s' ≡ protoerror extensions s'))
            ⊎ ((answer ≡ 0x55) × (s'.enabled ≡ s.enabled)))
  operate_lem n op handler s there = (
    elim (request-Answers n s) [
      | inl (e, on) ↦ inl (e, operate_enabled n op handler (request extensions n s).1 on there)
      | inr kept ↦ inr kept
    ],
    elim (withdraw-Answers n s) [
      | inl (e, off) ↦ inl (e, operate_disabled n op (withdraw extensions n s).1 off)
      | inr kept ↦ inr kept
    ],
  )
