-- ===== src/Text/Utf8.antt =====
-- `str::from_utf8`: the well-formed byte sequences of Unicode (its table 3-7) as an automaton.
use gyt.Base.{
  ℕ, ◌<◌, ◌≡◌, refl, ap, ◌∙◌, Bool, true, false, ◌&&◌, [], ◌∷◌, ◌++◌, arith, ltb, leb, ◌==◌,
  if◌then◌else◌, All,
}
use gyt.Text.Cuts.{Bytes}

-- What may follow: a new character, 1 to 3 more continuation bytes, or a restricted second byte
-- after E0, ED, F0 or F4.
pub data Utf8 : Type 0 where
  start need_1 need_2 need_3 after_e0 after_ed after_f0 after_f4 invalid : Utf8

abbrev within : ℕ → ℕ → ℕ → Bool
within lo hi b = leb lo b && leb b hi

unfoldable pub utf8_step : Utf8 → ℕ → Utf8
utf8_step start b =
    if ltb b 0x80
    then start
    else if within 0xc2 0xdf b
    then need_1
    else if b == 0xe0
    then after_e0
    else if b == 0xed
    then after_ed
    else if within 0xe1 0xef b
    then need_2
    else if b == 0xf0
    then after_f0
    else if within 0xf1 0xf3 b
    then need_3
    else if b == 0xf4
    then after_f4
    else invalid
utf8_step need_1 b = if within 0x80 0xbf b then start else invalid
utf8_step need_2 b = if within 0x80 0xbf b then need_1 else invalid
utf8_step need_3 b = if within 0x80 0xbf b then need_2 else invalid
utf8_step after_e0 b = if within 0xa0 0xbf b then need_1 else invalid
utf8_step after_ed b = if within 0x80 0x9f b then need_1 else invalid
utf8_step after_f0 b = if within 0x90 0xbf b then need_2 else invalid
utf8_step after_f4 b = if within 0x80 0x8f b then need_2 else invalid
utf8_step invalid b = invalid

unfoldable pub utf8_run : Utf8 → Bytes → Utf8
unfolding utf8_step
utf8_run s [] = s
utf8_run s (b ∷ bs) = utf8_run (utf8_step s b) bs

pub utf8_run-append :
    (s : Utf8) (xs ys : Bytes) → utf8_run s (xs ++ ys) ≡ utf8_run (utf8_run s xs) ys
unfolding utf8_run
utf8_run-append s [] ys = refl
utf8_run-append s (x ∷ xs) ys = utf8_run-append (utf8_step s x) xs ys

-- The bytes are a valid `str`.
abbrev pub IsUtf8 : Bytes → Type 0
IsUtf8 bs = utf8_run start bs ≡ start

abbrev is_start : Utf8 → Bool
is_start start = true
is_start _ = false

-- `std::str::from_utf8(bs).is_ok()`
unfoldable pub is_utf8 : Bytes → Bool
unfolding utf8_run
is_utf8 bs = is_start (utf8_run start bs)

is_start_iff : (s : Utf8) → is_start s ≡ true → s ≡ start
is_start_iff start h = refl
is_start_iff _ h = cc

pub is_utf8→IsUtf8 : (bs : Bytes) → is_utf8 bs ≡ true → IsUtf8 bs
unfolding is_utf8
is_utf8→IsUtf8 bs h = is_start_iff (utf8_run start bs) h

pub IsUtf8→is_utf8 : (bs : Bytes) → IsUtf8 bs → is_utf8 bs ≡ true
unfolding is_utf8
IsUtf8→is_utf8 bs h = ap is_start h

pub IsUtf8-append : (xs ys : Bytes) → IsUtf8 xs → IsUtf8 ys → IsUtf8 (xs ++ ys)
IsUtf8-append xs ys hx hy = utf8_run-append start xs ys ∙ ap (λ s. utf8_run s ys) hx ∙ hy

pub IsUtf8-ascii : (xs : Bytes) → All (λ b. b < 128) xs → IsUtf8 xs
unfolding utf8_run
IsUtf8-ascii [] h = refl
IsUtf8-ascii (x ∷ xs) h = ground (arith, IsUtf8-ascii xs h.1)
