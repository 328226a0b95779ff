-- ===== src/Refs/Writes.antt =====
-- src/fs_util.rs: `atomic_write` where no file stands in the way of a directory, and no directory in
-- the way of the file.
use gyt.Base.{
  ℕ, ◌≡◌, refl, sym, ap, ◌∙◌, ◌≢◌, ◌⊎◌, inl, inr, Bool, true, false, ◌||◌, Option, none, some, List,
  [], ◌∷◌, ◌++◌, map, arith, ◌==◌, ==_iff, if◌then◌else◌, All, length, length-append, Bool-cases,
  ok,
}
use gyt.Text.Cuts.{Bytes, eq_bytes, eq_bytes→eq}
use gyt.Refs.Directory.{
  Node, file, symlink, directory, GytDir, put, parents_of, make_dirs, rename_to, atomic_write,
}

-- A directory can be there.
abbrev pub IsOpen : GytDir → Bytes → Type 0
IsOpen d p = (d.at p ≡ none) ⊎ (d.at p ≡ some directory)

-- A file can be written at the path: what leads to it is free or a directory, and it is none itself.
pub record IsFree (d : GytDir) (path : Bytes) : Type 0 where
  pub above : (dir rest : Bytes) → path ≡ dir ++ (b'/' ∷ rest) → IsOpen d dir
  pub target : d.at path ≢ some directory

abbrev pub IsParentOf : Bytes → Bytes → Type 0
IsParentOf path p = (rest : Bytes) × (path ≡ p ++ (b'/' ∷ rest))

map_parents :
    (c : ℕ) (s : Bytes) (ps : List Bytes)
    → All (IsParentOf s) ps
    → All (IsParentOf (c ∷ s)) (map (λ p. c ∷ p) ps)
map_parents c s [] h = tt
map_parents c s (p ∷ ps) h = ((h.0.0, ap (λ t. c ∷ t) h.0.1), map_parents c s ps h.1)

pub parents_of-IsParentOf : (path : Bytes) → All (IsParentOf path) (parents_of path)
unfolding parents_of
parents_of-IsParentOf [] = tt
parents_of-IsParentOf (c ∷ s) = elim (Bool-cases (c == b'/')) [
  | inl e ↦ rw e (
    (s, ap (λ x. x ∷ s) ((==_iff c b'/').0 e)),
    map_parents c s (parents_of s) (parents_of-IsParentOf s),
  )
  | inr e ↦ rw e (map_parents c s (parents_of s) (parents_of-IsParentOf s))
]

unfoldable pub has : Bytes → List Bytes → Bool
has q [] = false
has q (p ∷ ps) = eq_bytes p q || has q ps

-- A path does not lead to itself.
pub has-parents : (path : Bytes) (ps : List Bytes) → All (IsParentOf path) ps → has path ps ≡ false
unfolding has
has-parents path [] h = refl
has-parents path (p ∷ ps) h = elim (Bool-cases (eq_bytes p path)) [
  | inl e ↦ absurd (
      omega
        (arith, ap length (eq_bytes→eq p path e), ap length h.0.1, length-append p (b'/' ∷ h.0.0)))
  | inr e ↦ rw e (has-parents path ps h.1)
]

-- A directory where nothing stood.
abbrev pub or_directory : Option Node → Option Node
or_directory none = some directory
or_directory (some node) = some node

IsOpen-put :
    (d : GytDir) (p : Bytes) (ps : List Bytes)
    → All (IsOpen d) ps
    → All (IsOpen (put d p (some directory))) ps
unfolding put
IsOpen-put d p [] h = tt
IsOpen-put d p (q ∷ ps) h = (
  elim (Bool-cases (eq_bytes p q)) [ inl e ↦ inr (rw e refl) | inr e ↦ rw e h.0 ],
  IsOpen-put d p ps h.1,
)

either : {A : Type 0} (b : Bool) (x : A) → (if b then x else x) ≡ x
either true x = refl
either false x = refl

pub make_dirs-ok :
    (d : GytDir) (ps : List Bytes)
    → All (IsOpen d) ps
    → (d' : GytDir) × (make_dirs d ps ≡ ok d')
      × ((q : Bytes) → d'.at q ≡ (if has q ps then or_directory (d.at q) else d.at q))
unfolding make_dirs has put
make_dirs-ok d [] h = (d, refl, λ q. refl)
make_dirs-ok d (p ∷ ps) h = elim h.0 [
  | inl free ↦
      let (d', e, now) = make_dirs-ok (put d p (some directory)) ps (IsOpen-put d p ps h.1) in
      (
        d',
        rw free e,
        λ q. elim (Bool-cases (eq_bytes p q)) [
          | inl same ↦
              let at_q : d.at q ≡ none = rw (eq_bytes→eq p q same) at free in
              now q ∙ rw (same, at_q) (either (has q ps) (some directory))
          | inr other ↦ now q ∙ rw (other) refl
        ],
      )
  | inr there ↦
      let (d', e, now) = make_dirs-ok d ps h.1 in
      (
        d',
        rw there e,
        λ q. elim (Bool-cases (eq_bytes p q)) [
          | inl same ↦
              let at_q : d.at q ≡ some directory = rw (eq_bytes→eq p q same) at there in
              now q ∙ rw (same, at_q) (either (has q ps) (some directory))
          | inr other ↦ now q ∙ rw other refl
        ],
      )
]

All-IsOpen :
    (d : GytDir) (path : Bytes) (ps : List Bytes)
    → ((dir rest : Bytes) → path ≡ dir ++ (b'/' ∷ rest) → IsOpen d dir)
    → All (IsParentOf path) ps
    → All (IsOpen d) ps
All-IsOpen d path [] h k = tt
All-IsOpen d path (p ∷ ps) h k = (h p k.0.0 k.0.1, All-IsOpen d path ps h k.1)

rename_to-ok :
    (d : GytDir) (path content : Bytes) (node : Option Node)
    → node ≢ some directory
    → rename_to d path content node ≡ ok (put d path (some (file content)))
rename_to-ok d path content none h = refl
rename_to-ok d path content (some (file bytes)) h = refl
rename_to-ok d path content (some (symlink bytes)) h = refl
rename_to-ok d path content (some directory) h = absurd (h refl)

-- The file is there then, and so are the directories that lead to it; every other entry is as before.
pub atomic_write-ok :
    (d : GytDir) (path content : Bytes)
    → IsFree d path
    → (d' : GytDir) × (atomic_write d path content ≡ ok d')
      × ((q : Bytes)
          → d'.at q ≡ (
              if eq_bytes path q
              then some (file content)
              else if has q (parents_of path)
              then or_directory (d.at q)
              else d.at q))
unfolding atomic_write put
atomic_write-ok d path content free =
    let parents = parents_of-IsParentOf path in
    let (d₁, made, now) =
      make_dirs-ok d (parents_of path) (All-IsOpen d path (parents_of path) free.above parents) in
    let same : d₁.at path ≡ d.at path =
      now path ∙ rw (has-parents path (parents_of path) parents) refl in
    let target : d₁.at path ≢ some directory = λ e. free.target (sym same ∙ e) in
    (
      put d₁ path (some (file content)),
      rw (made, rename_to-ok d₁ path content (d₁.at path) target) refl,
      λ q. ap (λ x. if eq_bytes path q then some (file content) else x) (now q),
    )
