-- ===== src/Refs/Names.antt =====
-- src/refs.rs: the names that `validate_ref_name` lets through.
use gyt.Base.{
  ℕ, ◌≤◌, ◌≡◌, refl, sym, true, ◌++◌, ◌≢◌, ◌↔◌, false, ◌||◌, Bool-cases, inl, inr, List, [], ◌∷◌,
  arith, ltb, le→ltb_false, ◌==◌, All, length, ok, after_test, after_ok,
}
use gyt.Text.Cuts.{Bytes, codes, eq_bytes, eq_bytes_iff, Lacks}
use gyt.Text.Parts.{
  intercalate, split_nonempty, split-Lacks, intercalate-split, split-intercalate, when_not,
  lacks_start, lacks_end, lacks_pair, starts_with-cons, ends_with-append, contains_pair-append,
}
use gyt.Text.Trim.{split, contains_pair, starts_with, ends_with}
use gyt.Refs.Lock.{IsLock, ends_in_lock-append, ends_in_lock-eq-true}
use gyt.Refs.{
  max_ref_name_len, is_revspec, check_ref_bytes, ends_in_lock, check_components, validate_ref_name,
}

-- No control character, backslash or metacharacter of revision expressions.
pub record IsRefByte (b : ℕ) : Type 0 where
  pub no_control : 0x20 ≤ b
  pub no_delete : b ≢ 0x7f
  pub no_backslash : b ≢ b'\\'
  pub no_tilde : b ≢ b'~'
  pub no_caret : b ≢ b'^'
  pub no_question : b ≢ b'?'
  pub no_star : b ≢ b'*'
  pub no_bracket : b ≢ b'['
  pub no_colon : b ≢ b':'

-- A path component that stays in its directory and is no option and no lock file.
pub record IsRefComponent (comp : Bytes) : Type 0 where
  pub nonempty : comp ≢ []
  pub not_dotdot : comp ≢ codes ".."
  pub not_dot : comp ≢ codes "."
  pub no_option : (rest : Bytes) → comp ≢ b'-' ∷ rest
  pub no_lock :
      (stem : Bytes) (dot l o c k : ℕ)
      → comp ≡ stem ++ (dot ∷ l ∷ o ∷ c ∷ k ∷ [])
      → ¬ IsLock dot l o c k

-- The components are the parts without a slash that, with slashes between them, make up the name.
pub record IsRefName (name : Bytes) : Type 0 where
  pub nonempty : name ≢ []
  pub short : length name ≤ 255
  pub no_root : (rest : Bytes) → name ≢ b'/' ∷ rest
  pub no_directory : (init : Bytes) → name ≢ init ++ (b'/' ∷ [])
  pub plain : All IsRefByte name
  pub components :
      (comps : List Bytes)
      → comps ≢ []
      → All (Lacks b'/') comps
      → intercalate b'/' comps ≡ name
      → All IsRefComponent comps
  pub no_dots : (pre post : Bytes) → name ≢ pre ++ (b'.' ∷ b'.' ∷ post)
  pub no_reflog : (pre post : Bytes) → name ≢ pre ++ (b'@' ∷ b'{' ∷ post)

ref_byte :
    (b : ℕ)
    → (ltb b 0x20 || b == 0x7f) ≡ false
    → (b == b'\\') ≡ false
    → is_revspec b ≡ false
    → IsRefByte b
ref_byte b h k l = record {
  no_control = ground arith;
  no_delete = ground arith;
  no_backslash = ground arith;
  no_tilde = ground arith;
  no_caret = ground arith;
  no_question = ground arith;
  no_star = ground arith;
  no_bracket = ground arith;
  no_colon = ground arith;
}

no_revspec : (b : ℕ) → IsRefByte b → is_revspec b ≡ false
no_revspec b h =
    ground (arith, h.no_tilde, h.no_caret, h.no_question, h.no_star, h.no_bracket, h.no_colon)

check_ref_bytes-eq-ok : (name : Bytes) → check_ref_bytes name ≡ ok tt → All IsRefByte name
unfolding check_ref_bytes
check_ref_bytes-eq-ok [] h = tt
check_ref_bytes-eq-ok (b ∷ name) h = after_test (ltb b 0x20 || b == 0x7f) _ _ h λ h₁ k₁.
    after_test (b == b'\\') _ _ k₁ λ h₂ k₂.
      after_test (is_revspec b) _ _ k₂ λ h₃ k₃. (ref_byte b h₁ h₂ h₃, check_ref_bytes-eq-ok name k₃)

check_ref_bytes-ok : (name : Bytes) → All IsRefByte name → check_ref_bytes name ≡ ok tt
unfolding check_ref_bytes
check_ref_bytes-ok [] h = refl
check_ref_bytes-ok (b ∷ name) h =
    let visible : (ltb b 0x20 || b == 0x7f) ≡ false =
      ground (arith, h.0.no_control, h.0.no_delete) in
    let no_backslash : (b == b'\\') ≡ false = ground (arith, h.0.no_backslash) in
    rw (visible, no_backslash, no_revspec b h.0) (check_ref_bytes-ok name h.1)

unequal : (xs ys : Bytes) → xs ≢ ys → eq_bytes xs ys ≡ false
unequal xs ys h = elim (Bool-cases (eq_bytes xs ys)) [
  | inl e ↦ absurd (h ((eq_bytes_iff xs ys).0 e))
  | inr e ↦ e
]

differs : (xs ys : Bytes) → eq_bytes xs ys ≡ false → xs ≢ ys
differs xs ys h e = cc (h, (eq_bytes_iff xs ys).1 e)

check_components-eq-ok :
    (comps : List Bytes) → check_components comps ≡ ok tt → All IsRefComponent comps
unfolding check_components
check_components-eq-ok [] h = tt
check_components-eq-ok (comp ∷ comps) h = after_test (eq_bytes comp []) _ _ h λ h₁ k₁.
    after_test (eq_bytes comp (codes "..") || eq_bytes comp (codes ".")) _ _ k₁ λ h₂ k₂.
      after_test (starts_with b'-' comp) _ _ k₂ λ h₃ k₃.
        after_test (ends_in_lock comp) _ _ k₃ λ h₄ k₄. (
          record {
            nonempty = differs comp [] h₁;
            not_dotdot = differs comp (codes "..") (ground arith);
            not_dot = differs comp (codes ".") (ground arith);
            no_option =
                λ rest e. let k : true ≡ false = rw (e, starts_with-cons b'-' rest) at h₃ in cc;
            no_lock = λ stem dot l o c k e lock.
                let f : true ≡ false = rw (e, ends_in_lock-append stem dot l o c k lock) at h₄ in
                cc;
          },
          check_components-eq-ok comps k₄,
        )

no_lock_end : (comp : Bytes) → IsRefComponent comp → ends_in_lock comp ≡ false
no_lock_end comp h =
    when_not (ends_in_lock comp) (ends_in_lock-eq-true comp)
      λ (stem, dot, l, o, c, k, e, lock). h.no_lock stem dot l o c k e lock

check_components-ok :
    (comps : List Bytes) → All IsRefComponent comps → check_components comps ≡ ok tt
unfolding check_components
check_components-ok [] h = refl
check_components-ok (comp ∷ comps) h =
    rw
      (
        unequal comp [] h.0.nonempty,
        unequal comp (codes "..") h.0.not_dotdot,
        unequal comp (codes ".") h.0.not_dot,
        lacks_start b'-' comp h.0.no_option,
        no_lock_end comp h.0,
      )
      (check_components-ok comps h.1)

sound : (name : Bytes) → validate_ref_name name ≡ ok tt → IsRefName name
unfolding validate_ref_name
sound name h = after_test (eq_bytes name []) _ _ h λ h₁ k₁.
    after_test (ltb max_ref_name_len (length name)) _ _ k₁ λ h₂ k₂.
      after_test (starts_with b'/' name) _ _ k₂ λ h₃ k₃.
        after_test (ends_with b'/' name) _ _ k₃ λ h₄ k₄.
          after_ok (check_ref_bytes name) _ k₄ λ u h₅ k₅.
            after_ok (check_components (split b'/' name)) _ k₅ λ v h₆ k₆.
              after_test (contains_pair b'.' b'.' name) _ _ k₆ λ h₇ k₇.
                after_test (contains_pair b'@' b'{' name) _ _ k₇ λ h₈ k₈. record {
                  nonempty = differs name [] h₁;
                  short = ground arith;
                  no_root = λ rest e.
                      let k : true ≡ false = rw (e, starts_with-cons b'/' rest) at h₃ in cc;
                  no_directory = λ init e.
                      let k : true ≡ false = rw (e, ends_with-append b'/' init) at h₄ in cc;
                  plain = check_ref_bytes-eq-ok name h₅;
                  components = λ comps some lacks e.
                      let parts : split b'/' name ≡ comps =
                        rw (sym e) (split-intercalate b'/' comps some lacks) in
                      rw parts at (check_components-eq-ok (split b'/' name) h₆);
                  no_dots = λ pre post e.
                      let k : true ≡ false =
                        rw (e, contains_pair-append b'.' b'.' pre post) at h₇ in
                      cc;
                  no_reflog = λ pre post e.
                      let k : true ≡ false =
                        rw (e, contains_pair-append b'@' b'{' pre post) at h₈ in
                      cc;
                }

complete : (name : Bytes) → IsRefName name → validate_ref_name name ≡ ok tt
unfolding validate_ref_name
complete name s =
    rw
      (
        unequal name [] s.nonempty,
        le→ltb_false max_ref_name_len (length name) s.short,
        lacks_start b'/' name s.no_root,
        lacks_end b'/' name s.no_directory,
        check_ref_bytes-ok name s.plain,
        check_components-ok (split b'/' name) (
            s.components (split b'/' name) (split_nonempty b'/' name) (split-Lacks b'/' name)
              (intercalate-split b'/' name)),
        lacks_pair b'.' b'.' name s.no_dots,
        lacks_pair b'@' b'{' name s.no_reflog,
      )
      refl

-- `validate_ref_name` accepts exactly the names of at most 255 bytes whose components, between
-- slashes, are not empty, `.` or `..`, begin with no dash and end in no `.lock`, and that hold no
-- control byte, backslash, revspec metacharacter, `..` or `@{`, and no slash at either end.
pub validate_ref_name_iff : (name : Bytes) → (validate_ref_name name ≡ ok tt) ↔ IsRefName name
validate_ref_name_iff name = (sound name, complete name)
