-- ===== src/Merge/Examples.antt =====
-- src/merge3.rs at concrete inputs: four files whose paths are in the order of their bytes, and a
-- merge of contents that never succeeds.
use gyt.Base.{ℕ, ◌≡◌, inl, inr, refl, true, false, Option, none, some, List, [], ◌∷◌, Bool-cases}
use gyt.Text.Cuts.{Bytes, codes, eq_bytes, eq_bytes→eq, eq_bytes_refl}
use gyt.Text.Order.{lt_bytes, lt_bytes_irrefl, lt_bytes_total}
use gyt.Hash.Examples.{id_of}
use gyt.Merge.Maps.{PathOrd, get, insert, insert_all, insert_path}
use gyt.Merge.{
  Entry, ContentResult, unresolved, modify_delete, content, all_paths, merge_both, merge_path,
  merge_paths, merge_trees,
}
use gyt.Merge.Rule.{outcome}
use gyt.Merge.Trees.{find, merge_trees_lem}
use gyt.Merge.Symmetry.{flip, merge_trees_comm}

not_less : (a b : Bytes) → lt_bytes a b ≡ false → lt_bytes b a ≡ false → a ≡ b
not_less a b h k = elim (Bool-cases (eq_bytes a b)) [
  | inl e ↦ eq_bytes→eq a b e
  | inr e ↦ absurd (
      let f =
        lt_bytes_total a b (λ p. let g : eq_bytes a b ≡ true = rw p (eq_bytes_refl b) in cc) h in
      cc)
]

abbrev by_bytes : PathOrd Bytes
by_bytes = record { lt = lt_bytes; irrefl = lt_bytes_irrefl; total = not_less }

abbrev never : Bytes → Entry → Entry → Option Entry → ContentResult
never p o t b = unresolved o.1 t.1

abbrev version : ℕ → Entry
version n = (0o100644, id_of 0 0 0 n)

abbrev base : List (Bytes × Entry)
base = (codes "a", version 1) ∷ (codes "b", version 1) ∷ (codes "c", version 1) ∷ []

abbrev ours : List (Bytes × Entry)
ours = (codes "a", version 2) ∷ (codes "b", version 2) ∷ (codes "c", version 1) ∷ []

abbrev theirs : List (Bytes × Entry)
theirs = (codes "a", version 3) ∷ (codes "c", version 4) ∷ (codes "d", version 5) ∷ []

-- `a` is changed by both, `b` is changed and deleted, `c` is changed by theirs, `d` is theirs alone.
merge_runs : merge_trees by_bytes never base ours theirs ≡ record {
  merged = (codes "c", version 4) ∷ (codes "d", version 5) ∷ [];
  conflicts =
      record {
        path = codes "a";
        kind = content;
        base = some (version 1);
        ours = some (version 2);
        theirs = some (version 3);
      }
      ∷ record {
        path = codes "b";
        kind = modify_delete;
        base = some (version 1);
        ours = some (version 2);
        theirs = none;
      }
      ∷ [];
}
unfolding merge_trees merge_paths merge_path merge_both all_paths insert_all insert_path insert get
    lt_bytes eq_bytes
merge_runs = refl

merge_trees_lem_example :
    let m = merge_trees by_bytes never base ours theirs in
    (get by_bytes (codes "c") m.merged ≡ some (version 4))
    × (find by_bytes (codes "c") m.conflicts ≡ none)
unfolding outcome get lt_bytes eq_bytes
merge_trees_lem_example = merge_trees_lem by_bytes never base ours theirs (codes "c")

merge_trees_comm_example :
    let m = merge_trees by_bytes never base ours theirs in
    let m' = merge_trees by_bytes never base theirs ours in
    (get by_bytes (codes "b") m'.merged ≡ get by_bytes (codes "b") m.merged)
    × (find by_bytes (codes "b") m'.conflicts ≡ flip (find by_bytes (codes "b") m.conflicts))
merge_trees_comm_example =
    merge_trees_comm by_bytes never base ours theirs (codes "b") λ p o t b. refl
