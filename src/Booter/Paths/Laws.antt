-- ===== src/Booter/Paths/Laws.antt =====
-- `dopath` of booter/booter.c on a tree of directories.
use fip.Base.{
  ℕ, zero, suc, ◌+◌, ◌*◌, ◌≤◌, ◌<◌, ◌≡◌, refl, ap, ap₂, ◌∙◌, ◌≢◌, ◌⊎◌, inl, inr, false, ◌||◌, List,
  [], ◌∷◌, ◌++◌, arith, ltb, ◌==◌, if◌then◌else◌, le→ltb, length, drop, All, if-false, ==_ne,
  length-append, if-true,
}
use fip.Booter.File.{Device, File, iopen}
use fip.Booter.File.Laws.{pending, IsOpened}
use fip.Booter.Directory.{Disk, Found, found, wild, unfinished, lookup}
use fip.Booter.Directory.Laws.{first_named, lookup_lem}
use fip.Booter.Paths.{skip_slashes, component, dopath_loop, dopath}

-- A name: not empty, of other bytes than a slash, and no longer than the field of an entry.
abbrev pub IsName : List ℕ → Type 0
IsName c = (1 ≤ length c) × (length c ≤ 30) × All (λ x. x ≢ 47) c

-- The names behind a slash each.
abbrev pub path_of : List (List ℕ) → List ℕ
path_of [] = []
path_of (c ∷ cs) = 47 ∷ (c ++ path_of cs)

skip_slashes-name : (c t : List ℕ) → IsName c → skip_slashes (c ++ t) ≡ c ++ t
unfolding skip_slashes
skip_slashes-name [] t (l, _, _) = absurd (omega (arith, l))
skip_slashes-name (x ∷ c) t (l, r, (ne, a)) = if-false {b = x == 47} _ _ (==_ne x 47 ne)

skip_slashes-slash : (t : List ℕ) → skip_slashes (47 ∷ t) ≡ skip_slashes t
unfolding skip_slashes
skip_slashes-slash t = refl

component-name :
    (c : List ℕ) (cs : List (List ℕ))
    → All (λ x. x ≢ 47) c
    → component (c ++ path_of cs) ≡ (c, path_of cs)
unfolding component
component-name [] [] a = refl
component-name [] (c ∷ cs) a = refl
component-name (x ∷ c) cs (ne, a) =
    if-false {b = x == 47} _ _ (==_ne x 47 ne) ∙ ap (λ r. (x ∷ r.0, r.1)) (component-name c cs a)

module _ (dev : Device) (part_offset beyond : ℕ) where
  -- Inode `ino` is a file that can be read, with these bytes, whatever was open before.
  pub record IsDirectory (f ino : ℕ) (entries : List ℕ) (k : ℕ) : Type 0 where
    pub opened : (file : File) → IsOpened dev part_offset (iopen dev part_offset ino file)
    pub stored : (file : File) → pending dev part_offset (iopen dev part_offset ino file) ≡ entries
    pub count : (file : File) → 16 * (iopen dev part_offset ino file).epos ≡ k
    pub fuel : k < f

  -- The names lead from one inode to another.
  pub data Resolves (f : ℕ) : ℕ → List (List ℕ) → ℕ → Type 0 where
    here : {i : ℕ} → Resolves f i [] i
    down :
        {i j : ℕ} {c : List ℕ} {cs : List (List ℕ)} (entries : List ℕ) (k : ℕ)
        → i ≢ 0xffff
        → IsDirectory f i entries k
        → IsName c
        → first_named k beyond c entries ≡ j
        → {r : ℕ} → Resolves f j cs r
        → Resolves f i (c ∷ cs) r

  -- What follows a `lookup`.
  abbrev went : ℕ → ℕ → List ℕ → Found → Found
  went g f rest r = elim r [
    | found ino disk ↦ dopath_loop dev part_offset beyond g f rest ino disk
    | wild ↦ wild
    | unfinished ↦ unfinished
  ]

  module _ (f : ℕ) where
    -- A round of the loop that finds its name.
    descend :
        (g i j : ℕ) (c : List ℕ) (cs : List (List ℕ)) (path : List ℕ) (disk disk' : Disk)
        → i ≢ 0xffff
        → IsName c
        → skip_slashes path ≡ c ++ path_of cs
        → lookup dev part_offset beyond f i c disk ≡ found j disk'
        → dopath_loop dev part_offset beyond (suc g) f path i disk
          ≡ dopath_loop dev part_offset beyond g f (path_of cs) j disk'
    unfolding dopath_loop skip_slashes
    descend g i j c cs [] disk disk' ne (l, r, a) skip e =
        absurd (omega (arith, l, ap length skip, length-append c (path_of cs)))
    descend g i j c cs (x ∷ path) disk disk' ne (l, r, a) skip e =
        let split : component (skip_slashes (x ∷ path)) ≡ (c, path_of cs) =
          ap component skip ∙ component-name c cs a in
        let inside : (length (x ∷ path) == 0 || i == 0xffff) ≡ false = ground (arith, ne) in
        if-false _ _ inside
        ∙ ap
            (λ p.
              if ltb 30 (length p.0)
              then wild
              else went g f p.1 (lookup dev part_offset beyond f i p.0 disk))
            split
        ∙ if-false _ _ (le→ltb 30 (length c) r)
        ∙ ap (went g f (path_of cs)) e

    dopath_loop_lem :
        {i r : ℕ} {cs : List (List ℕ)}
        → Resolves f i cs r
        → (g : ℕ) (path : List ℕ) (disk : Disk) → length cs < g
        → length disk.d ≡ 32
        → (path ≡ path_of cs) ⊎ (path ≡ drop 1 (path_of cs))
        → (disk' : Disk) × (dopath_loop dev part_offset beyond g f path i disk ≡ found r disk')
    unfolding dopath_loop
    dopath_loop_lem here zero path disk l size at = absurd (omega (arith, l))
    dopath_loop_lem {i} here (suc g) path disk l size at =
        let done : length path ≡ 0 = elim at [
          | inl e ↦ omega (arith, ap length e)
          | inr e ↦ omega (arith, ap length e)
        ] in
        (disk, if-true {b = length path == 0 || i == 0xffff} _ _ (ground (arith, done)))
    dopath_loop_lem (down entries k ne dir name first rest) zero path disk l size at =
        absurd (omega (arith, l))
    dopath_loop_lem {i} (down {j = j} {c = c} {cs = cs} entries k ne dir name first rest) (suc g)
          path disk l size at =
        let start : skip_slashes path ≡ c ++ path_of cs = elim at [
          | inl e ↦
              ap skip_slashes e
              ∙ skip_slashes-slash (c ++ path_of cs)
              ∙ skip_slashes-name c (path_of cs) name
          | inr e ↦ ap skip_slashes e ∙ skip_slashes-name c (path_of cs) name
        ] in
        let (disk₁, e, size₁) =
          lookup_lem dev part_offset beyond c f i disk (dir.opened disk.file)
            (omega (arith, dir.count disk.file, dir.fuel)) size in
        let known : lookup dev part_offset beyond f i c disk ≡ found j disk₁ =
          e
          ∙ ap₂ (λ n bytes. found (first_named n beyond c bytes) disk₁) (dir.count disk.file)
              (dir.stored disk.file)
          ∙ ap (λ n. found n disk₁) first in
        let (disk₂, e₂) =
          dopath_loop_lem rest g (path_of cs) disk₁ (omega (arith, l)) size₁ (inl refl) in
        (disk₂, descend g i j c cs path disk disk₁ ne name start known ∙ e₂)

    -- Let names of 1 to 30 bytes without a slash lead from the root by the first entries with
    -- those names, from one inode whose blocks are readable to the next. `dopath` of these names,
    -- with a slash in front of each, from any current directory and with more rounds than names,
    -- returns the inode that they lead to.
    pub dopath_lem :
        {r : ℕ} (c : List ℕ) (cs : List (List ℕ)) (g cd : ℕ) (disk : Disk)
        → Resolves f 1 (c ∷ cs) r
        → length cs + 1 < g
        → length disk.d ≡ 32
        → (disk' : Disk) × (dopath dev part_offset beyond g f (path_of (c ∷ cs)) cd disk
            ≡ found r disk')
    unfolding dopath
    dopath_lem c cs g cd disk known l size =
        dopath_loop_lem known g (c ++ path_of cs) disk (omega (arith, l)) size (inr refl)
