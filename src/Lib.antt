-- ===== src/Lib.antt =====
-- gyt, a version-control system with its own object format and server (src/*.rs, src/object/*.rs,
-- src/net/*.rs, src/cmd/*.rs).
--
-- A repository is a content-addressed store. Blobs, trees, commits and tags are encoded by a codec
-- (src/object/tree.rs, commit.rs, tag.rs), framed with their kind and size (src/object/store.rs),
-- named by the BLAKE3 hash of the framed bytes (src/hash.rs), wrapped (src/compress.rs) and written
-- to a path made of the name; reading runs the other way. References and HEAD name commits by small
-- text files (src/refs.rs). Clients and the server exchange lists of references, packs of objects
-- and batches of updates (src/net/protocol.rs); the server limits the rate of requests
-- (src/net/rate_limit.rs).
--
-- Base: the shared names, tests, lists, signed integers and src/errors.rs. A `Result` is `ok`, `err` with the fixed
--   text of its message, or `stuck`, for a loop that ran out of fuel and, in Ticket, for a panic.
-- Text: what the code uses of Rust's `str` and byte slices: `split_once`, `strip_prefix`, `lines`,
--   `from_utf8`, `trim`, `from_str_radix`, `{}` and `{:o}` of a number, `Ord` of slices and
--   `sort_by`. A `String` is the list of its bytes.
-- Hash: src/hash.rs. Compress: src/compress.rs, with the crate lzma-rust2 as a parameter (its
--   writer, its bounded reader, and the law that the reader gives back what the writer was given).
-- Object: src/object/mod.rs. Object.Store: src/object/store.rs and blob.rs on a disk that maps paths
--   to contents, with BLAKE3 and the pack files (src/object/pack.rs) as parameters; I/O failures are
--   left out. Object.Tree, Object.Commit, Object.Tag: src/object/tree.rs, commit.rs, tag.rs, where
--   `read` and `write` are named `read_entries`, `write_commit`, `read_tag` and so on. A branch of
--   the loop over the header's lines is a function of its own, such as `read_parent`.
-- Refs: src/refs.rs on a directory that maps a path to a file, a directory or a symbolic link to a
--   file (Refs.Directory, with `atomic_write` of src/fs_util.rs and its `create_dir_all` and `rename`);
--   failures that its entries do not decide, such as of space or permissions, are left out.
-- Protocol: src/net/protocol.rs: lists of references, wants, packs, packfiles and ref updates.
-- Metadata: src/issues.rs, prs.rs and incidents.rs: the limits, the TOML codec and what an update may
--   change. What the three files repeat word for word stands once, in Metadata.Limits, Metadata.Toml
--   and Metadata.Events. The `{:?}` of a text is a parameter of the encoders, since it stands on the
--   tables of Unicode.
-- RefsPolicy: src/net/refs_policy.rs, and of src/cmd/signing.rs the signed payload and base64. The
--   objects and the references of `.gyt` are two stores, and ed25519 is a parameter. A walk over the
--   commit graph runs on fuel, MAX_WALK_COMMITS, and running out of it is the error that the code
--   returns then; RefsPolicy.Enough shows when the fuel is enough.
-- Merge: of src/merge3.rs the merge of trees. A map is the list of its entries in the order of the
--   paths; that order and the merge of one file's content, which keeps no state here, are parameters.
-- Ticket: src/net/ticket.rs, with AES-GCM and the random nonce as parameters. A slice that is not on
--   the boundary of a character, where the code panics, is `stuck`.
-- RateLimit: src/net/rate_limit.rs; a time is a number of nanoseconds that the caller passes in.
--
-- The loops of the tree codec and of `parse_pack` run on fuel, the length of the payload, since each
-- round takes bytes from it. Numbers are natural numbers; a `u64` product that can wrap is written
-- with the remainder.
-- Not modelled: the rest of src/net, where sockets and HTTP crates meet the parts above; the commands
-- of src/cmd; the index, the walk of `list_refs`, the reflog, ignore rules, diff, the merge of lines, the
-- configuration, and pack files on disk: they are not part of this library. Of the policy, the audit
-- log and the reading of the configuration are left out, and of the metadata the counters and the
-- listing.
pub mod Base
pub mod Text
pub mod Ticket
pub mod Hash
pub mod Compress
pub mod Object
pub mod RateLimit
pub mod Refs
pub mod Metadata
pub mod RefsPolicy
pub mod Merge
pub mod Protocol
