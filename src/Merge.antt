-- ===== src/Merge.antt =====
-- src/merge3.rs: the three-way merge of trees. A `BTreeMap` is the list of its entries, in the order
-- of the paths, which is a parameter; the merge of one file's content is one too.
pub mod Maps
pub mod Rule
pub mod Trees
pub mod Symmetry
mod Examples
use gyt.Base.{
  ℕ, ◌≡◌, Bool, true, false, not, ◌&&◌, Option, none, some, List, [], ◌∷◌, ◌++◌, map, ◌==◌,
  if◌then◌else◌,
}
use gyt.Text.Cuts.{eq_bytes}
use gyt.Hash.{ObjectId}
use gyt.Merge.Maps.{PathOrd, get, insert, insert_all, keys}

-- A mode and the hash of a blob.
abbrev pub Entry : Type 0
Entry = ℕ × ObjectId

abbrev pub eq_entry : Entry → Entry → Bool
eq_entry a b = a.0 == b.0 && eq_bytes a.1 b.1

pub data ConflictKind : Type 0 where
  add_add modify_delete content mode_change : ConflictKind

pub record TreeConflict (PathLike : Type 0) : Type 0 where
  pub path : PathLike
  pub kind : ConflictKind
  pub base : Option Entry
  pub ours : Option Entry
  pub theirs : Option Entry

pub data ContentResult : Type 0 where
  resolved : ObjectId → ContentResult
  unresolved : ObjectId → ObjectId → ContentResult

pub record TreeMerge (PathLike : Type 0) : Type 0 where
  pub merged : List (PathLike × Entry)
  pub conflicts : List (TreeConflict PathLike)

module _ {PathLike : Type 0} (order : PathOrd PathLike) where
  -- The set of the paths of all three maps.
  unfoldable pub all_paths :
      List (PathLike × Entry) → List (PathLike × Entry) → List (PathLike × Entry) → List PathLike
  all_paths base ours theirs = insert_all order [] (keys base ++ (keys ours ++ keys theirs))

module _ {PathLike : Type 0} (order : PathOrd PathLike)
    (resolve_content : PathLike → Entry → Entry → Option Entry → ContentResult) where
  abbrev push_conflict :
      TreeMerge PathLike
      → PathLike
      → ConflictKind
      → Option Entry
      → Option Entry
      → Option Entry
      → TreeMerge PathLike
  push_conflict m path kind b o t = record m {
    conflicts =
        m.conflicts ++ (record { path = path; kind = kind; base = b; ours = o; theirs = t } ∷ []);
  }

  abbrev pub take_entry : TreeMerge PathLike → PathLike → Entry → TreeMerge PathLike
  take_entry m path e = record m { merged = insert order path e m.merged }

  -- The match on the outcome of the content merge.
  abbrev pub take_content :
      TreeMerge PathLike → PathLike → Entry → Entry → Entry → ContentResult → TreeMerge PathLike
  take_content m path b o t (resolved hash) =
      take_entry m path ((if o.0 == b.0 then t.0 else o.0), hash)
  take_content m path b o t (unresolved ours_hash theirs_hash) =
      push_conflict m path content (some b) (some (o.0, ours_hash)) (some (t.0, theirs_hash))

  -- Both sides changed the file: mode collisions first.
  unfoldable pub merge_both :
      TreeMerge PathLike → PathLike → Entry → Entry → Entry → TreeMerge PathLike
  merge_both m path b o t =
      if not (o.0 == t.0) && (not (o.0 == b.0) && not (t.0 == b.0))
      then push_conflict m path mode_change (some b) (some o) (some t)
      else take_content m path b o t (resolve_content path o t (some b))

  -- The match on the entries of one path.
  unfoldable pub merge_path :
      TreeMerge PathLike
      → PathLike
      → Option Entry
      → Option Entry
      → Option Entry
      → TreeMerge PathLike
  merge_path m path none none none = m
  merge_path m path none (some o) (some t) =
      if eq_entry o t
      then take_entry m path o
      else push_conflict m path add_add none (some o) (some t)
  merge_path m path (some b) (some o) (some t) =
      if eq_entry o t
      then take_entry m path o
      else if eq_entry b o
      then take_entry m path t
      else if eq_entry b t
      then take_entry m path o
      else merge_both m path b o t
  merge_path m path (some b) (some o) none =
      if eq_entry b o then m else push_conflict m path modify_delete (some b) (some o) none
  merge_path m path (some b) none (some t) =
      if eq_entry b t then m else push_conflict m path modify_delete (some b) none (some t)
  merge_path m path none (some o) none = take_entry m path o
  merge_path m path none none (some t) = take_entry m path t
  merge_path m path (some b) none none = m

  unfoldable pub merge_paths :
      List (PathLike × Entry)
      → List (PathLike × Entry)
      → List (PathLike × Entry)
      → TreeMerge PathLike
      → List PathLike
      → TreeMerge PathLike
  merge_paths base ours theirs m [] = m
  merge_paths base ours theirs m (path ∷ paths) =
      merge_paths base ours theirs
        (merge_path m path (get order path base) (get order path ours) (get order path theirs))
        paths

  unfoldable pub merge_trees :
      List (PathLike × Entry)
      → List (PathLike × Entry)
      → List (PathLike × Entry)
      → TreeMerge PathLike
  merge_trees base ours theirs =
      merge_paths base ours theirs (record { merged = []; conflicts = [] })
        (all_paths order base ours theirs)
