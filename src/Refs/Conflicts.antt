-- ===== src/Refs/Conflicts.antt =====
-- src/fs_util.rs: the paths under which `atomic_write` succeeds.
use gyt.Base.{
  ℕ, ◌≡◌, refl, ◌∙◌, inl, inr, Option, none, some, List, [], ◌∷◌, ◌++◌, map, ◌==◌, All, Bool-cases,
  ok, ◌>>=◌, after_ok,
}
use gyt.Text.Cuts.{Bytes, eq_bytes, eq_bytes→eq}
use gyt.Refs.Directory.{
  Node, file, symlink, directory, GytDir, put, parents_of, make_dir, make_dirs, atomic_write,
}
use gyt.Refs.Writes.{IsOpen, IsFree, has-parents, parents_of-IsParentOf, make_dirs-ok}

closed-IsOpen :
    (d : GytDir) (p q : Bytes) → d.at p ≡ none → IsOpen (put d p (some directory)) q → IsOpen d q
unfolding put
closed-IsOpen d p q free h = elim (Bool-cases (eq_bytes p q)) [
  | inl e ↦ inl (rw (eq_bytes→eq p q e) at free)
  | inr e ↦ rw e at h
]

IsOpen-puts :
    (d : GytDir) (p : Bytes) (ps : List Bytes)
    → d.at p ≡ none
    → All (IsOpen (put d p (some directory))) ps
    → All (IsOpen d) ps
IsOpen-puts d p [] free h = tt
IsOpen-puts d p (q ∷ ps) free h = (closed-IsOpen d p q free h.0, IsOpen-puts d p ps free h.1)

first-IsOpen :
    (d d' : GytDir) (p : Bytes) (ps : List Bytes) (node : Option Node)
    → d.at p ≡ node
    → ((d₁ : GytDir) → make_dirs d₁ ps ≡ ok d' → All (IsOpen d₁) ps)
    → (make_dir d p node >>= λ d₁. make_dirs d₁ ps) ≡ ok d'
    → All (IsOpen d) (p ∷ ps)
first-IsOpen d d' p ps none e rest h =
    (inl e, IsOpen-puts d p ps e (rest (put d p (some directory)) h))
first-IsOpen d d' p ps (some directory) e rest h = (inr e, rest d h)
first-IsOpen d d' p ps (some (file bytes)) e rest h = absurd (cc)
first-IsOpen d d' p ps (some (symlink bytes)) e rest h = absurd (cc)

make_dirs-eq-ok : (d d' : GytDir) (ps : List Bytes) → make_dirs d ps ≡ ok d' → All (IsOpen d) ps
unfolding make_dirs
make_dirs-eq-ok d d' [] h = tt
make_dirs-eq-ok d d' (p ∷ ps) h =
    first-IsOpen d d' p ps (d.at p) refl (λ d₁ k. make_dirs-eq-ok d₁ d' ps k) h

All-map :
    (P : Bytes → Type 0) (c : ℕ) (ps : List Bytes)
    → All P (map (λ p. c ∷ p) ps)
    → All (λ p. P (c ∷ p)) ps
All-map P c [] h = tt
All-map P c (p ∷ ps) h = (h.0, All-map P c ps h.1)

All-parents_of :
    (P : Bytes → Type 0) (dir rest : Bytes) → All P (parents_of (dir ++ (b'/' ∷ rest))) → P dir
unfolding parents_of
All-parents_of P [] rest h = h.0
All-parents_of P (x ∷ dir) rest h =
    All-parents_of (λ p. P (x ∷ p)) dir rest
      (elim (Bool-cases (x == b'/')) [
        | inl e ↦ All-map P x (parents_of (dir ++ (b'/' ∷ rest))) (rw e at h).1
        | inr e ↦ All-map P x (parents_of (dir ++ (b'/' ∷ rest))) (rw e at h)
      ])

-- A write that succeeds had a free path.
pub atomic_write-eq-ok :
    (d d' : GytDir) (path content : Bytes) → atomic_write d path content ≡ ok d' → IsFree d path
unfolding atomic_write
atomic_write-eq-ok d d' path content h =
    after_ok (make_dirs d (parents_of path)) _ h λ d₁ made renamed.
      let parents = make_dirs-eq-ok d d₁ (parents_of path) made in
      let (d₂, again, now) = make_dirs-ok d (parents_of path) parents in
      let same : d₂.at path ≡ d.at path =
        now path ∙ rw (has-parents path (parents_of path) (parents_of-IsParentOf path)) refl in
      let once : d₁ ≡ d₂ = cc in
      record {
        above = λ dir rest e. All-parents_of (IsOpen d) dir rest (rw e at parents);
        target = λ e.
            let there : d₁.at path ≡ some directory = rw once (same ∙ e) in
            let k = rw there at renamed in cc;
      }
