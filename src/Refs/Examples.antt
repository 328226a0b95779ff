-- ===== src/Refs/Examples.antt =====
-- src/refs.rs at concrete inputs.
use gyt.Base.{
  io, inl, ◌≡◌, refl, ◌↔◌, none, some, [], ◌∷◌, ◌++◌, arith, if◌then◌else◌, ok, err, refs, ◌>>=◌,
}
use gyt.Text.Cuts.{Bytes, codes, eq_bytes, strip_prefix}
use gyt.Text.Utf8.{is_utf8, IsUtf8-ascii}
use gyt.Text.Trim.{
  split, contains_pair, starts_with, ends_with, trim, trim_from, space_len, space_len_back,
  reversed, trim_line_ends, drop_line_ends,
}
use gyt.Hash.{to_hex, from_hex}
use gyt.Hash.Examples.{id_of}
use gyt.Refs.{
  check_ref_bytes, check_components, ends_in_lock, validate_ref_name, write_ref, parse_ref,
  read_ref, delete_ref, symbolic, read_head, write_head, resolve,
}
use gyt.Refs.Directory.{symlink, file, GytDir, put, parents_of, make_dirs, atomic_write}
use gyt.Refs.Writes.{IsFree}
use gyt.Refs.Names.{IsRefName, validate_ref_name_iff}
use gyt.Refs.Files.{
  IsHead, write_ref_iff, read_ref-write_ref, read_ref-delete_ref, read_head-write_head,
}

abbrev main : Bytes
main = codes "refs/heads/main"

abbrev empty_dir : GytDir
empty_dir = record { at = λ p. none }

main_accepted : validate_ref_name main ≡ ok tt
unfolding validate_ref_name eq_bytes starts_with ends_with check_ref_bytes check_components split
    ends_in_lock contains_pair
main_accepted = refl

lock_refused :
    validate_ref_name (codes "refs/heads/a.LOCK") ≡ err (refs "ref name component ends in .lock")
unfolding validate_ref_name eq_bytes starts_with ends_with check_ref_bytes check_components split
    ends_in_lock contains_pair
lock_refused = refl

traversal_refused :
    validate_ref_name (codes "refs/../x") ≡ err (refs "ref name has '..' or '.' component")
unfolding validate_ref_name eq_bytes starts_with ends_with check_ref_bytes check_components split
    ends_in_lock contains_pair
traversal_refused = refl

symlink_refused :
    read_ref (record { at = λ p. some (symlink (to_hex (id_of 1 2 3 4))) }) main
    ≡ err (refs "ref is a symlink")
unfolding read_ref validate_ref_name eq_bytes starts_with ends_with check_ref_bytes check_components
    split ends_in_lock contains_pair
symlink_refused = refl

-- A name that ends in a space is valid, and HEAD loses the space.
abbrev spaced : Bytes
spaced = codes "refs/heads/x "

spaced_head :
    (write_head empty_dir (symbolic spaced) >>= read_head) ≡ ok (symbolic (codes "refs/heads/x"))
unfolding write_head atomic_write make_dirs parents_of put read_head is_utf8 strip_prefix trim
    trim_from space_len space_len_back reversed trim_line_ends drop_line_ends validate_ref_name
    eq_bytes starts_with ends_with check_ref_bytes check_components split ends_in_lock contains_pair
spaced_head = refl

unborn_branch : resolve empty_dir (symbolic main) ≡ ok none
unfolding resolve validate_ref_name eq_bytes starts_with ends_with check_ref_bytes check_components
    split ends_in_lock contains_pair
unborn_branch = refl

main-IsRefName : IsRefName main
main-IsRefName = (validate_ref_name_iff main).0 main_accepted

validate_ref_name_iff_example : (validate_ref_name main ≡ ok tt) ↔ IsRefName main
validate_ref_name_iff_example = validate_ref_name_iff main

main-IsFree : IsFree empty_dir main
main-IsFree = record { above = λ dir rest e. inl refl; target = λ e. cc }

write_ref_iff_example :
    ((d' : GytDir) × (write_ref empty_dir main (id_of 1 2 3 4) ≡ ok d'))
    ↔ (IsRefName main × IsFree empty_dir main)
write_ref_iff_example = write_ref_iff empty_dir main (id_of 1 2 3 4)

-- The name above it becomes a directory, and stays no reference.
read_ref-write_ref_example :
    (d' : GytDir) × (write_ref empty_dir main (id_of 1 2 3 4) ≡ ok d')
    × (read_ref d' main ≡ ok (id_of 1 2 3 4))
    × ((read_ref d' (codes "refs/heads") ≡ ok (id_of 5 6 7 8))
        ↔ (read_ref empty_dir (codes "refs/heads") ≡ ok (id_of 5 6 7 8)))
read_ref-write_ref_example =
    read_ref-write_ref empty_dir main (codes "refs/heads") (id_of 1 2 3 4) (id_of 5 6 7 8)
      main-IsRefName main-IsFree (omega arith) (λ e. cc)

abbrev with_main : GytDir
with_main = put empty_dir main (some (file (to_hex (id_of 1 2 3 4) ++ (b'\n' ∷ []))))

file_in_the_way :
    write_ref with_main (codes "refs/heads/main/x") (id_of 1 2 3 4) ≡ err (io "not a directory")
unfolding write_ref atomic_write make_dirs parents_of put validate_ref_name eq_bytes starts_with
    ends_with check_ref_bytes check_components split ends_in_lock contains_pair
file_in_the_way = refl

directory_in_the_way :
    (write_ref empty_dir main (id_of 1 2 3 4) >>= λ d.
    write_ref d (codes "refs/heads") (id_of 1 2 3 4))
    ≡ err (io "is a directory")
unfolding write_ref atomic_write make_dirs parents_of put validate_ref_name eq_bytes starts_with
    ends_with check_ref_bytes check_components split ends_in_lock contains_pair
directory_in_the_way = refl

main_reads : read_ref with_main main ≡ ok (id_of 1 2 3 4)
unfolding read_ref parse_ref put to_hex from_hex is_utf8 trim trim_from space_len space_len_back
    reversed validate_ref_name eq_bytes starts_with ends_with check_ref_bytes check_components split
    ends_in_lock contains_pair
main_reads = refl

read_ref-delete_ref_example :
    (d' : GytDir) × (delete_ref with_main main ≡ ok d')
    × (read_ref d' spaced
        ≡ (if eq_bytes main spaced then err (refs "ref not found") else read_ref with_main spaced))
read_ref-delete_ref_example = read_ref-delete_ref with_main main spaced (id_of 1 2 3 4) main_reads

main-IsHead : IsHead (symbolic main)
unfolding trim trim_from space_len space_len_back reversed
main-IsHead = (main-IsRefName, IsUtf8-ascii main (omega arith), refl)

read_head-write_head_example :
    (d' : GytDir) × (write_head empty_dir (symbolic main) ≡ ok d')
    × (read_head d' ≡ ok (symbolic main))
    × (read_ref d' main ≡ read_ref empty_dir main)
read_head-write_head_example =
    read_head-write_head empty_dir (symbolic main) main (λ e. cc) main-IsHead (λ e. cc)
