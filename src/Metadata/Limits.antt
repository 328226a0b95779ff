-- ===== src/Metadata/Limits.antt =====
-- src/issues.rs: the checks of text fields, times and arrays, the same in prs.rs and incidents.rs.
use gyt.Base.{
  ℕ, ◌≤◌, ◌≡◌, Bool, false, not, ◌&&◌, ◌||◌, List, [], ◌∷◌, arith, ltb, ltb_false→le, ◌==◌, All,
  length, Result, ok, refs, ◌>>◌, refuse_if, after_test, after_ok, ℤ, pos, negsuc, lt_int,
}
use gyt.Text.Cuts.{Bytes}

abbrev pub ts_max : ℕ
ts_max = 4_102_444_800

-- A control byte but a line feed, carriage return or tab.
abbrev pub is_forbidden : ℕ → Bool
is_forbidden b = b == 0x7f || (ltb b 0x20 && not (b == b'\n' || b == b'\r' || b == b'\t'))

unfoldable pub check_bytes : Bytes → Result (Unit {0})
check_bytes [] = ok tt
check_bytes (b ∷ s) = do
  refuse_if (is_forbidden b) (refs "field contains forbidden control byte")
  check_bytes s

unfoldable pub check_text_field : Bytes → ℕ → Result (Unit {0})
check_text_field s max_bytes = do
  refuse_if (ltb max_bytes (length s)) (refs "field too long")
  check_bytes s

unfoldable pub check_ts : ℤ → Result (Unit {0})
check_ts ts =
    refuse_if (lt_int ts (pos 0) || lt_int (pos ts_max) ts) (refs "timestamp out of range")

unfoldable pub check_entries : List Bytes → ℕ → Result (Unit {0})
check_entries [] entry_max_bytes = ok tt
check_entries (s ∷ xs) entry_max_bytes = do
  check_text_field s entry_max_bytes
  check_entries xs entry_max_bytes

unfoldable pub check_array : List Bytes → ℕ → ℕ → Result (Unit {0})
check_array xs max_entries entry_max_bytes = do
  refuse_if (ltb max_entries (length xs)) (refs "too many entries")
  check_entries xs entry_max_bytes

-- A text that the checks let through.
pub record IsText (max_bytes : ℕ) (s : Bytes) : Type 0 where
  pub short : length s ≤ max_bytes
  pub clean : All (λ b. is_forbidden b ≡ false) s

-- A time from 1970 to 2100.
abbrev pub IsTime : ℤ → Type 0
IsTime (pos n) = n ≤ ts_max
IsTime (negsuc n) = ⊥

pub record IsArray (max_entries entry_max_bytes : ℕ) (xs : List Bytes) : Type 0 where
  pub few : length xs ≤ max_entries
  pub texts : All (IsText entry_max_bytes) xs

check_bytes_lem : (s : Bytes) → check_bytes s ≡ ok tt → All (λ b. is_forbidden b ≡ false) s
unfolding check_bytes
check_bytes_lem [] h = tt
check_bytes_lem (b ∷ s) h =
    after_test (is_forbidden b) _ _ h λ clean rest. (clean, check_bytes_lem s rest)

pub check_text_field_lem : (s : Bytes) (n : ℕ) → check_text_field s n ≡ ok tt → IsText n s
unfolding check_text_field
check_text_field_lem s n h =
    after_test (ltb n (length s)) _ _ h λ short rest. record {
      short = ltb_false→le n (length s) short;
      clean = check_bytes_lem s rest;
    }

pub check_ts_lem : (ts : ℤ) → check_ts ts ≡ ok tt → IsTime ts
unfolding check_ts
check_ts_lem (pos n) h = ground arith
check_ts_lem (negsuc n) h = cc

check_entries_lem : (xs : List Bytes) (n : ℕ) → check_entries xs n ≡ ok tt → All (IsText n) xs
unfolding check_entries
check_entries_lem [] n h = tt
check_entries_lem (s ∷ xs) n h =
    after_ok (check_text_field s n) _ h
      λ u one rest. (check_text_field_lem s n one, check_entries_lem xs n rest)

pub check_array_lem : (xs : List Bytes) (m n : ℕ) → check_array xs m n ≡ ok tt → IsArray m n xs
unfolding check_array
check_array_lem xs m n h =
    after_test (ltb m (length xs)) _ _ h λ few rest. record {
      few = ltb_false→le m (length xs) few;
      texts = check_entries_lem xs n rest;
    }
