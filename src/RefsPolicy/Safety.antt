-- ===== src/RefsPolicy/Safety.antt =====
-- src/net/refs_policy.rs: what a batch that is not blocked guarantees.
use gyt.Base.{
  ◌≡◌, inl, inr, refl, sym, ap, Bool, true, false, not, Option, none, some, List, [], ◌∷◌, ◌==◌,
  ==_iff, length, Result, ok, Bool-cases, not_false→true,
}
use gyt.Text.Cuts.{Bytes, codes, eq_bytes, eq_bytes→eq}
use gyt.Hash.{ObjectId}
use gyt.Compress.{Xz}
use gyt.Object.Store.{Disk, Packs, read}
use gyt.Object.Commit.{Commit, encode}
use gyt.Object.Commit.Stored.{read_commit}
use gyt.Refs.Directory.{GytDir}
use gyt.Refs.{validate_ref_name}
use gyt.Protocol.{RefUpdate}
use gyt.RefsPolicy.{
  PolicyError, bad_signature, Checked, passed, refused, refuse_when, after_passed, after_or_refuse,
  after_refuse,
}
use gyt.RefsPolicy.Graph.{mem, commits_new_since}
use gyt.RefsPolicy.Stack.{Any, or-cases}
use gyt.RefsPolicy.Reachable.{Reach}
use gyt.RefsPolicy.Excluded.{IsOld}
use gyt.RefsPolicy.Visited.{IsReadable}
use gyt.RefsPolicy.NewCommits.{commits_new_since_lem}
use gyt.RefsPolicy.Signatures.{
  base64_decode, full_length, signature_of, some_key_verifies, commit_payload_without_sig,
  verify_commit_signed,
}
use gyt.RefsPolicy.Payload.{commit_payload_lem}
use gyt.RefsPolicy.Evaluate.{
  Mode, has_prefix, is_metadata_ref, current, enforce_target_kind, verify_all, check_old,
  check_signatures, check_value, check_update, push_blocked, no_keys, evaluate_with_mode,
}

pub not_refused_when : (t : Bool) (e : PolicyError) → refuse_when t e ≡ passed tt → t ≡ false
not_refused_when true e h = absurd (cc)
not_refused_when false e h = refl

push_blocked_lem :
    (name : Bytes) (c : Checked (Unit {0})) (rest : List (Bytes × PolicyError))
    → push_blocked name c rest ≡ []
    → (c ≡ passed tt) × (rest ≡ [])
push_blocked_lem name (passed v) rest h = (refl, h)
push_blocked_lem name (refused e) rest h = absurd (cc)

module _ {Key : Type 0} (verify_strict : Key → Bytes → Bytes → Bool) where
  some_key_verifies_lem :
      (allowed : List Key) (payload sig : Bytes)
      → some_key_verifies verify_strict allowed payload sig ≡ true
      → Any (λ key. verify_strict key payload sig ≡ true) allowed
  unfolding some_key_verifies
  some_key_verifies_lem [] payload sig h = absurd (cc)
  some_key_verifies_lem (key ∷ allowed) payload sig h =
      elim (or-cases (verify_strict key payload sig) _ h) [
        | inl this ↦ inl this
        | inr other ↦ inr (some_key_verifies_lem allowed payload sig other)
      ]

  -- The commit `id` carries 64 bytes that an allowed key verifies for its encoding without them.
  pub record IsSigned (read : ObjectId → Result Commit) (allowed : List Key) (id : ObjectId)
      : Type 0 where
    pub commit : Commit
    pub found : read id ≡ ok commit
    pub text : Bytes
    pub carried : commit.signature ≡ some text
    pub sig : Bytes
    pub decoded : base64_decode text ≡ some sig
    pub full : length sig ≡ 64
    pub verified :
        Any
          (λ key. verify_strict key (encode (record commit { signature = none })) sig ≡ true)
          allowed

  full_length_lem :
      (id : ObjectId) (o : Option Bytes) (sig : Bytes)
      → full_length id o ≡ passed sig
      → (o ≡ some sig) × (length sig ≡ 64)
  full_length_lem id none sig h = absurd (cc)
  full_length_lem id (some b) sig h = elim (Bool-cases (length b == 64)) [
    | inl full ↦
        let same : ◌≡◌ {A = Checked Bytes} (passed b) (passed sig) = rw full at h in
        let it : b ≡ sig = cc in (ap some it, rw (sym it) ((==_iff (length b) 64).0 full))
    | inr short ↦ absurd (
        let k : ◌≡◌ {A = Checked Bytes} (refused (bad_signature id)) (passed sig) = rw short at h in
        cc)
  ]

  signature_of_lem :
      (id : ObjectId) (o : Option Bytes) (sig : Bytes)
      → signature_of id o ≡ passed sig
      → (text : Bytes) × (o ≡ some text) × (base64_decode text ≡ some sig) × (length sig ≡ 64)
  signature_of_lem id none sig h = absurd (cc)
  signature_of_lem id (some text) sig h =
      let (decoded, full) = full_length_lem id (base64_decode text) sig h in
      (text, refl, decoded, full)

  pub verify_commit_signed_lem :
      (read : ObjectId → Result Commit) (allowed : List Key) (id : ObjectId)
      → verify_commit_signed verify_strict read allowed id ≡ passed tt
      → IsSigned read allowed id
  unfolding verify_commit_signed
  verify_commit_signed_lem read allowed id h = after_or_refuse (read id) _ _ h λ c found h₁.
      after_passed (signature_of id c.signature) _ h₁ λ sig e h₂.
        let (text, carried, decoded, full) = signature_of_lem id c.signature sig e in
        record {
          commit = c;
          found = found;
          text = text;
          carried = carried;
          sig = sig;
          decoded = decoded;
          full = full;
          verified = rw (sym (commit_payload_lem c)) (
              some_key_verifies_lem allowed (commit_payload_without_sig c) sig (
                not_false→true _ (
                  not_refused_when
                    (not
                      (some_key_verifies verify_strict allowed (commit_payload_without_sig c) sig))
                    _ h₂)));
        }

  module _ (blake3 : Bytes → ObjectId) (xz : Xz) (packs : Packs) where
    verify_all_lem :
        (d : Disk) (allowed : List Key) (ids : List ObjectId)
        → verify_all verify_strict blake3 xz packs d allowed ids ≡ passed tt
        → (id : ObjectId) → mem id ids ≡ true
        → IsSigned (read_commit blake3 xz packs d) allowed id
    unfolding verify_all mem
    verify_all_lem d allowed [] h id m = absurd (cc)
    verify_all_lem d allowed (x ∷ ids) h id m =
        after_passed (verify_commit_signed verify_strict (read_commit blake3 xz packs d) allowed x)
          _ h
          λ u first rest. elim (or-cases (eq_bytes id x) (mem id ids) m) [
            | inl same ↦
                rw (eq_bytes→eq id x same)
                  (verify_commit_signed_lem (read_commit blake3 xz packs d) allowed x first)
            | inr later ↦ verify_all_lem d allowed ids rest id later
          ]

    -- An update of a batch in which none is blocked passed its checks.
    pub clean_passed :
        (dir : GytDir) (d : Disk) (updates : List RefUpdate) (mode : Mode) (sign_required : Bool)
        (allowed : List Key) (u : RefUpdate)
        → evaluate_with_mode verify_strict blake3 xz packs dir d updates mode sign_required allowed
          ≡ []
        → Any (λ v. v ≡ u) updates
        → check_update verify_strict blake3 xz packs dir d mode sign_required allowed u ≡ passed tt
    unfolding evaluate_with_mode
    clean_passed dir d [] mode sign_required allowed u h m = elim m [ ]
    clean_passed dir d (v ∷ updates) mode sign_required allowed u h (inl same) =
        rw (sym same) (push_blocked_lem _ _ _ h).0
    clean_passed dir d (v ∷ updates) mode sign_required allowed u h (inr later) =
        clean_passed dir d updates mode sign_required allowed u (push_blocked_lem _ _ _ h).1 later

    -- Signed pushes: if no update of a batch is blocked where signatures are required, then each
    -- commit that the new value of a branch or tag leads to and the value on disk does not, and that
    -- can be read, is signed by an allowed key.
    pub evaluate_with_mode-IsSigned :
        (dir : GytDir) (d : Disk) (updates : List RefUpdate) (mode : Mode) (allowed : List Key)
        (u : RefUpdate) (id : ObjectId)
        → evaluate_with_mode verify_strict blake3 xz packs dir d updates mode true allowed ≡ []
        → Any (λ v. v ≡ u) updates
        → is_metadata_ref u.name ≡ false
        → Reach (read_commit blake3 xz packs d) u.new id
        → ¬ IsOld (read_commit blake3 xz packs d) (current dir u.name) id
        → IsReadable (read_commit blake3 xz packs d) id
        → IsSigned (read_commit blake3 xz packs d) allowed id
    unfolding check_update check_value check_signatures
    evaluate_with_mode-IsSigned dir d updates mode allowed u id h m plain path fresh readable =
        after_or_refuse (validate_ref_name u.name) _ _
          (clean_passed dir d updates mode true allowed u h m)
          λ v named h₁. after_refuse (not (has_prefix u.name (codes "refs/"))) _ _ h₁ λ below h₂.
            after_passed (enforce_target_kind blake3 xz packs d u.name u.new) _ h₂ λ v' fits h₃.
              after_passed
                (check_old blake3 xz packs d mode u.name (current dir u.name) u.old u.new) _
                (rw plain at h₃)
                λ v'' follows h₄. after_refuse (no_keys allowed) _ _ h₄ λ keys h₅.
                  after_or_refuse
                    (commits_new_since (read_commit blake3 xz packs d) (current dir u.name) u.new) _
                    _ h₅
                    λ new_commits listed h₆. verify_all_lem d allowed new_commits h₆ id (
                      (commits_new_since_lem (read_commit blake3 xz packs d) (current dir u.name)
                          u.new new_commits listed id readable).1
                        (path, fresh))
