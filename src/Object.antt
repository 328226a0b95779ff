-- ===== src/Object.antt =====
-- src/object/mod.rs: the kinds of objects. The children model the store (store.rs, blob.rs) and the
-- codecs of trees, commits and tags.
pub mod Store
pub mod Tree
pub mod Commit
pub mod Tag
use gyt.Base.{
  Bool, true, false, arith, ◌≡◌, refl, List, [], ◌∷◌, if◌then◌else◌, Result, ok, err, object,
}
use gyt.Text.Cuts.{Bytes, codes, eq_bytes, eq_bytes→eq}

pub data ObjectKind : Type 0 where
  blob tree commit tag : ObjectKind

abbrev pub as_str : ObjectKind → Bytes
as_str blob = codes "blob"
as_str tree = codes "tree"
as_str commit = codes "commit"
as_str tag = codes "tag"

unfoldable pub parse_kind : Bytes → Result ObjectKind
parse_kind s =
    if eq_bytes s (codes "blob")
    then ok blob
    else if eq_bytes s (codes "tree")
    then ok tree
    else if eq_bytes s (codes "commit")
    then ok commit
    else if eq_bytes s (codes "tag")
    then ok tag
    else err (object "unknown object kind")

-- `==` of the derived `PartialEq`.
abbrev pub same_kind : ObjectKind → ObjectKind → Bool
same_kind blob blob = true
same_kind tree tree = true
same_kind commit commit = true
same_kind tag tag = true
same_kind _ _ = false

pub same_kind→eq : (a b : ObjectKind) → same_kind a b ≡ true → a ≡ b
same_kind→eq a b h = ground arith

pub parse_kind-as_str : (k : ObjectKind) → parse_kind (as_str k) ≡ ok k
unfolding parse_kind eq_bytes
parse_kind-as_str blob = refl
parse_kind-as_str tree = refl
parse_kind-as_str commit = refl
parse_kind-as_str tag = refl

pub parse_kind-eq-ok : (s : Bytes) (k : ObjectKind) → parse_kind s ≡ ok k → s ≡ as_str k
unfolding parse_kind
parse_kind-eq-ok s k h = ground (
  arith,
  eq_bytes→eq s (codes "blob"),
  eq_bytes→eq s (codes "tree"),
  eq_bytes→eq s (codes "commit"),
  eq_bytes→eq s (codes "tag"),
)
