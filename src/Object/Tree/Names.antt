-- ===== src/Object/Tree/Names.antt =====
-- src/object/tree.rs: the names that `validate_entry_name` lets through.
use gyt.Base.{
  ℕ, stuck, le→ltb_false, ◌≤◌, ◌≡◌, refl, ◌≢◌, ◌↔◌, true, false, ◌&&◌, ◌||◌, Bool-cases, inl, inr,
  [], ◌∷◌, map, arith, ltb, ◌==◌, All, length, ok, after_test,
}
use gyt.Text.Cuts.{Bytes, Lacks, codes, eq_bytes, eq_bytes_iff}
use gyt.Object.Tree.{max_name_len, ascii_lower, is_dot_gyt, check_name_bytes, validate_entry_name}

-- No separator and no control character.
abbrev pub IsNameByte : ℕ → Type 0
IsNameByte b = (b ≢ b'/') × (b ≢ b'\\') × (0x20 ≤ b) × (b ≢ 0x7f)

-- One path component that is neither a link to a directory above nor the repository's own folder
-- in any case of its letters.
pub record IsSafeName (name : Bytes) : Type 0 where
  pub nonempty : name ≢ []
  pub short : length name ≤ max_name_len
  pub not_dot : name ≢ codes "."
  pub not_dotdot : name ≢ codes ".."
  pub not_gyt : map ascii_lower name ≢ codes ".gyt"
  pub plain : All IsNameByte name

check_name_bytes-eq-ok : (name : Bytes) → check_name_bytes name ≡ ok tt → All IsNameByte name
unfolding check_name_bytes
check_name_bytes-eq-ok [] h = tt
check_name_bytes-eq-ok (b ∷ name) h = ground (arith, check_name_bytes-eq-ok name)

check_name_bytes-ok : (name : Bytes) → All IsNameByte name → check_name_bytes name ≡ ok tt
unfolding check_name_bytes
check_name_bytes-ok [] h = refl
check_name_bytes-ok (b ∷ name) h = ground (arith, check_name_bytes-ok name h.1)

four_tests :
    (a b c d x y z w : ℕ)
    → ((a == x && b == y && c == z && d == w) ≡ true) ↔ (a ∷ b ∷ c ∷ d ∷ [] ≡ x ∷ y ∷ z ∷ w ∷ [])
four_tests a b c d x y z w = (λ h. ground arith, λ h. ground arith)

is_dot_gyt_iff : (name : Bytes) → (is_dot_gyt name ≡ true) ↔ (map ascii_lower name ≡ codes ".gyt")
unfolding is_dot_gyt
is_dot_gyt_iff (a ∷ b ∷ c ∷ d ∷ []) =
    four_tests (ascii_lower a) (ascii_lower b) (ascii_lower c) (ascii_lower d) b'.' b'g' b'y' b't'
is_dot_gyt_iff _ = (λ h. cc, λ h. cc)

safe : (name : Bytes) → validate_entry_name name ≡ ok tt → IsSafeName name
unfolding validate_entry_name
safe name h = after_test (eq_bytes name []) _ _ h λ h₁ k₁.
    after_test (ltb max_name_len (length name)) _ _ k₁ λ h₂ k₂.
      after_test (eq_bytes name (codes ".") || eq_bytes name (codes "..")) _ _ k₂ λ h₃ k₃.
        after_test (is_dot_gyt name) _ _ k₃ λ h₄ k₄. record {
          nonempty = λ e. ground (arith, (eq_bytes_iff name []).1 e);
          short = ground arith;
          not_dot = λ e. ground (arith, (eq_bytes_iff name (codes ".")).1 e);
          not_dotdot = λ e. ground (arith, (eq_bytes_iff name (codes "..")).1 e);
          not_gyt = λ e. ground (arith, (is_dot_gyt_iff name).1 e);
          plain = check_name_bytes-eq-ok name k₄;
        }

unequal : (xs ys : Bytes) → xs ≢ ys → eq_bytes xs ys ≡ false
unequal xs ys h = elim (Bool-cases (eq_bytes xs ys)) [
  | inl e ↦ absurd (h ((eq_bytes_iff xs ys).0 e))
  | inr e ↦ e
]

no_dot_gyt : (name : Bytes) → map ascii_lower name ≢ codes ".gyt" → is_dot_gyt name ≡ false
no_dot_gyt name h = elim (Bool-cases (is_dot_gyt name)) [
  | inl e ↦ absurd (h ((is_dot_gyt_iff name).0 e))
  | inr e ↦ e
]

accepted : (name : Bytes) → IsSafeName name → validate_entry_name name ≡ ok tt
unfolding validate_entry_name
accepted name s =
    rw
      (
        unequal name [] s.nonempty,
        le→ltb_false max_name_len (length name) s.short,
        unequal name (codes ".") s.not_dot,
        unequal name (codes "..") s.not_dotdot,
        no_dot_gyt name s.not_gyt,
      )
      (check_name_bytes-ok name s.plain)

-- `validate_entry_name` accepts exactly the safe names.
pub validate_entry_name_iff : (name : Bytes) → (validate_entry_name name ≡ ok tt) ↔ IsSafeName name
validate_entry_name_iff name = (safe name, accepted name)

-- A safe name holds no NUL, which ends it in the payload.
pub IsSafeName-Lacks : (name : Bytes) → All IsNameByte name → Lacks 0 name
IsSafeName-Lacks [] h = tt
IsSafeName-Lacks (b ∷ name) h = (λ e. absurd (omega (arith, e, h.0.2)), IsSafeName-Lacks name h.1)

check_name_bytes-ne-stuck : (name : Bytes) → check_name_bytes name ≢ stuck
unfolding check_name_bytes
check_name_bytes-ne-stuck [] h = cc
check_name_bytes-ne-stuck (b ∷ name) h = ground (arith, check_name_bytes-ne-stuck name)

pub validate_entry_name-ne-stuck : (name : Bytes) → validate_entry_name name ≢ stuck
unfolding validate_entry_name
validate_entry_name-ne-stuck name h = ground (arith, check_name_bytes-ne-stuck name)
