-- ===== src/Lwwire/Serve/Keeps.antt =====
-- What a call of lwwire/lwwire.c may change, as a relation of the states before and behind it, and
-- the shared calls in this relation.
use fip.Base.{
  ℕ, zero, suc, ◌+◌, ◌≤◌, ◌≡◌, refl, sym, ap, ◌∙◌, subst, ◌≢◌, inl, inr, Bool, true, false, Option,
  none, some, List, [], ◌∷◌, ◌++◌, arith, ◌==◌, ==_iff, length, if-false,
}
use mathlib.Core.Bool.{false≢true}
use native.Mathlib.Decide.{ℕ_discrete}
use fip.Decb.Image.{Image}
use fip.Lwwire.Channel.{Received, got, eof, error, readdata, writedata, Departure, Arrival}
use fip.Lwwire.Channel.Laws.{wire, Token, byte, fault, receive, readdata_lem}
use fip.Lwwire.Drives.{Drive, read_sector, load_sector, fetch_sector, save_sector, fetch_drive_fp}
use fip.Lwwire.Drives.Laws.{Fetches, fetch_drive_fp-Fetches, save_sector_lem}
use fip.Lwwire.Server.{
  Extension, Server, Outcome, returns, exits, ◌>>=◌, protoerror, reset, received, dispatched, read,
  write,
}
use fip.Lwwire.Handlers.{set_drive}

-- A drive as it was, but for its stream and, where it can be written to, its file.
pub record KeepsDrive (d d' : Drive) : Type 0 where
  pub isconst : d'.isconst ≡ d.isconst
  pub file : d.isconst ≡ true → d'.file ≡ d.file

read_sector-same :
    (n : ℕ) (img : Image) (d : Drive)
    → ((read_sector n img d).1.file ≡ d.file) × ((read_sector n img d).1.isconst ≡ d.isconst)
unfolding read_sector
read_sector-same n img d = ground arith

load_sector-KeepsDrive :
    (n : ℕ) (d : Drive) (r : Option Image × Drive)
    → Fetches d r
    → KeepsDrive d (load_sector n r).1.1
unfolding load_sector
load_sector-KeepsDrive n d (none, d') (same, kept) = record {
  isconst = same.isconst;
  file = λ c. kept;
}
load_sector-KeepsDrive n d (some img, d') r =
    let (file, isconst) = read_sector-same n img d' in
    record {
      isconst = isconst ∙ r.settings.isconst;
      file = λ c. file ∙ r.file ∙ elim r.origin [
        | inl there ↦ sym there
        | inr (_, w, _) ↦ absurd (false≢true (sym w ∙ c))
      ];
    }

pub fetch_sector-KeepsDrive : (n : ℕ) (d : Drive) → KeepsDrive d (fetch_sector n d).1.1
unfolding fetch_sector
fetch_sector-KeepsDrive n d =
    load_sector-KeepsDrive n d (fetch_drive_fp d) (fetch_drive_fp-Fetches d)

pub save_sector-KeepsDrive :
    (n : ℕ) (sector : List ℕ) (d : Drive) → KeepsDrive d (save_sector n sector d).1
save_sector-KeepsDrive n sector d = elim (save_sector_lem n sector d) [
  | inl (_, s) ↦ record {
    isconst = s.settings.isconst;
    file = λ c. absurd (false≢true (sym s.writable ∙ c));
  }
  | inr (_, same, inl kept) ↦ record { isconst = same.isconst; file = λ c. kept }
  | inr (_, same, inr broke) ↦ record {
    isconst = same.isconst;
    file = λ c. absurd (false≢true (sym broke.writable ∙ c));
  }
]

receive-le : (n : ℕ) (buf : List ℕ) (ts : List Token) → length (receive n buf ts).1 ≤ length ts
unfolding receive
receive-le zero buf ts = omega arith
receive-le (suc n) buf [] = omega arith
receive-le (suc n) buf (byte b ∷ ts) = omega (arith, receive-le n (buf ++ b ∷ []) ts)
receive-le (suc n) buf (fault t ∷ ts) = omega arith

readdata-le : (n : ℕ) (es : List Arrival) → length (wire (readdata n [] es).1) ≤ length (wire es)
readdata-le n es =
    omega (arith, receive-le n [] (wire es), ap (λ r. length (r.1)) (readdata_lem n [] es))

module _ {X : Type 0} (extensions : ℕ → Extension X) where
  pub record Follows (s s' : Server X) : Type 0 where
    pub line : length (wire s'.arrivals) ≤ length (wire s.arrivals)
    pub drives : (dn : ℕ) → KeepsDrive (s.drives dn) (s'.drives dn)
    pub disabled :
        (i : ℕ) → (extensions i).enable ≡ none → s.enabled i ≡ false → s'.enabled i ≡ false

  pub Follows-refl : (s : Server X) → Follows s s
  Follows-refl s = record {
    line = omega arith;
    drives = λ dn. record { isconst = refl; file = λ c. refl };
    disabled = λ i n e. e;
  }

  pub Follows-trans : {s t u : Server X} → Follows s t → Follows t u → Follows s u
  Follows-trans p q = record {
    line = omega (arith, p.line, q.line);
    drives = λ dn. record {
      isconst = (q.drives dn).isconst ∙ (p.drives dn).isconst;
      file = λ c. (q.drives dn).file ((p.drives dn).isconst ∙ c) ∙ (p.drives dn).file c;
    };
    disabled = λ i n e. q.disabled i n (p.disabled i n e);
  }

  -- Nothing that matters is changed.
  pub Follows-same :
      (s s' : Server X)
      → s'.arrivals ≡ s.arrivals
      → s'.drives ≡ s.drives
      → s'.enabled ≡ s.enabled
      → Follows s s'
  Follows-same s s' a d e = record {
    line = omega (arith, ap (λ es. length (wire es)) a);
    drives =
        λ dn. record { isconst = ap (λ f. (f dn).isconst) d; file = λ c. ap (λ f. (f dn).file) d };
    disabled = λ i n off. ap (λ f. f i) e ∙ off;
  }

  pub Follows-arrivals :
      (s : Server X) (es : List Arrival)
      → length (wire es) ≤ length (wire s.arrivals)
      → Follows s (record s { arrivals = es })
  Follows-arrivals s es l = record {
    line = l;
    drives = λ dn. record { isconst = refl; file = λ c. refl };
    disabled = λ i n e. e;
  }

  -- However a call ends.
  abbrev pub Ends : {A : Type 0} → Server X → Outcome X A → Type 0
  Ends s (returns a s') = Follows s s'
  Ends s (exits c s') = Follows s s'

  pub Ends-from :
      {A : Type 0} {s t : Server X} (o : Outcome X A) → Follows s t → Ends t o → Ends s o
  Ends-from (returns a u) p q = Follows-trans p q
  Ends-from (exits c u) p q = Follows-trans p q

  pub Ends-bind :
      {A B : Type 0} (s : Server X) (m : Outcome X A) (k : A → Server X → Outcome X B)
      → Ends s m
      → ((a : A) (t : Server X) → Ends t (k a t))
      → Ends s (m >>= k)
  Ends-bind s (returns a t) k p q = Ends-from (k a t) p (q a t)
  Ends-bind s (exits c t) k p q = p

  pub reset-Follows : (s : Server X) → Follows s (reset extensions s)
  unfolding reset
  reset-Follows s = record {
    line = omega arith;
    drives = λ dn. record { isconst = refl; file = λ c. refl };
    disabled = λ i n e. ground (arith, e);
  }

  pub protoerror-Follows : (s : Server X) → Follows s (protoerror extensions s)
  unfolding protoerror
  protoerror-Follows s =
      Follows-trans (Follows-same s (record s { silences = s.silences + 1 }) refl refl refl)
        (reset-Follows (record s { silences = s.silences + 1 }))

  received-Ends :
      (s : Server X) (r : Received × List Arrival)
      → length (wire r.1) ≤ length (wire s.arrivals)
      → Ends s (received extensions s r)
  unfolding received
  received-Ends s (got buf, es) l = Follows-arrivals s es l
  received-Ends s (eof, es) l = Follows-arrivals s es l
  received-Ends s (error true, es) l =
      Follows-trans (Follows-arrivals s es l) (protoerror-Follows (record s { arrivals = es }))
  received-Ends s (error false, es) l = Follows-arrivals s es l

  pub read-Ends : (n : ℕ) (s : Server X) → Ends s (read extensions n s)
  unfolding read
  read-Ends n s = received-Ends s (readdata n [] s.arrivals) (readdata-le n s.arrivals)

  dispatched-Ends : (s : Server X) (r : Bool × (List ℕ × List Departure)) → Ends s (dispatched s r)
  unfolding dispatched
  dispatched-Ends s (true, r) = Follows-same s _ refl refl refl
  dispatched-Ends s (false, r) = Follows-same s _ refl refl refl

  pub write-Ends : (buf : List ℕ) (s : Server X) → Ends s (write buf s)
  unfolding write
  write-Ends buf s = dispatched-Ends s (writedata buf s.departures)

  pub set_drive-Follows :
      (dn : ℕ) (d : Drive) (s : Server X)
      → KeepsDrive (s.drives dn) d
      → Follows s (set_drive dn d s)
  set_drive-Follows dn d s k = record {
    line = omega arith;
    drives = λ i. elim (ℕ_discrete i dn) [
      | yes at ↦ rw (at, (==_iff dn dn).1 refl) k
      | no ne ↦
          subst (KeepsDrive (s.drives i)) (sym (if-false _ _ (elsewhere i ne)))
            (record { isconst = refl; file = λ c. refl })
    ];
    disabled = λ i n e. e;
  }
    where
      elsewhere : (i : ℕ) → i ≢ dn → (i == dn) ≡ false
      elsewhere i ne = ground (arith, ne)
