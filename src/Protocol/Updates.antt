-- ===== src/Protocol/Updates.antt =====
-- src/net/protocol.rs: the line codecs read back what they wrote.
use gyt.Base.{
  ◌<◌, ◌≡◌, refl, ap, ◌∙◌, ◌≢◌, false, Option, none, some, inl, inr, List, [], ◌∷◌, ◌++◌,
  append_assoc, append-nil, arith, All, All-append, length, Result, ok, Bool-cases,
}
use gyt.Text.Cuts.{
  Bytes, Lacks, eq_bytes, eq_bytes_refl, eq_bytes→eq, split_once, split_once-append,
}
use gyt.Text.Lines.{split_inclusive, split_inclusive-line, strip_suffix-append}
use gyt.Text.Utf8.{IsUtf8, IsUtf8→is_utf8, IsUtf8-append, IsUtf8-ascii}
use gyt.Hash.{ObjectId, IsObjectId, hex_len, from_hex, to_hex}
use gyt.Hash.RoundTrip.{from_hex-to_hex, length-to_hex, to_hex-IsHex, IsHex}
use gyt.Object.Commit.RoundTrip.{to_hex-IsField}
use gyt.Protocol.{
  RefUpdate, zero_hex, zero_id, each_line, encode_wants, parse_want, parse_wants, old_hex,
  update_line, encode_ref_updates, parse_old, parse_ref_update, parse_ref_updates,
}

-- One line of the loop, where the text goes on behind a line feed.
pub each_line-line :
    {A : Type 0} (f : A → Bytes → Result A) (a b : A) (l rest : Bytes)
    → Lacks b'\n' l
    → f a l ≡ ok b
    → each_line f a (split_inclusive b'\n' (l ++ (b'\n' ∷ rest)))
      ≡ each_line f b (split_inclusive b'\n' rest)
unfolding each_line
each_line-line f a b l rest h e =
    rw (split_inclusive-line b'\n' l rest h, strip_suffix-append b'\n' l, e) refl

pub line_feed : (l rest : Bytes) → IsUtf8 l → IsUtf8 rest → IsUtf8 (l ++ (b'\n' ∷ rest))
line_feed l rest h k =
    IsUtf8-append l _ h
      (IsUtf8-append (b'\n' ∷ []) rest (IsUtf8-ascii (b'\n' ∷ []) (omega arith, tt)) k)

parse_want-to_hex :
    (out : List ObjectId) (id : ObjectId)
    → IsObjectId id
    → parse_want out (to_hex id) ≡ ok (out ++ (id ∷ []))
parse_want-to_hex out id h = go (to_hex id) (rw (length-to_hex id, h.0) refl) (from_hex-to_hex id h)
  where
    go :
        (s : Bytes)
        → length s ≡ hex_len
        → from_hex s ≡ ok id
        → parse_want out s ≡ ok (out ++ (id ∷ []))
    go [] l e = absurd (omega (arith, l))
    go (b ∷ s) l e = unfold parse_want in rw (l, e) refl

wants_lem :
    (ids out : List ObjectId)
    → All IsObjectId ids
    → (each_line parse_want out (split_inclusive b'\n' (encode_wants ids)) ≡ ok (out ++ ids))
      × IsUtf8 (encode_wants ids)
unfolding encode_wants
wants_lem [] out h =
    (rw (append-nil out) (unfold each_line split_inclusive in refl), IsUtf8-ascii [] tt)
wants_lem (id ∷ ids) out h =
    let (parsed, valid) = wants_lem ids (out ++ (id ∷ [])) h.1 in
    let field = to_hex-IsField id h.0 in
    (
      each_line-line parse_want out (out ++ (id ∷ [])) (to_hex id) (encode_wants ids) field.one_line
            (parse_want-to_hex out id h.0)
          ∙ parsed
          ∙ ap ok (append_assoc out (id ∷ []) ids),
      line_feed (to_hex id) (encode_wants ids) field.utf8 valid,
    )

-- A list of object ids is parsed back from its encoding.
parse_wants-encode_wants :
    (ids : List ObjectId) → All IsObjectId ids → parse_wants (encode_wants ids) ≡ ok ids
unfolding parse_wants
parse_wants-encode_wants ids h =
    let (parsed, valid) = wants_lem ids [] h in rw (IsUtf8→is_utf8 _ valid) parsed

-- An update that one line can carry: its name is not empty, has no line feed and is UTF-8, and the
-- old id is not the zero one, which stands for none.
pub record IsUpdate (u : RefUpdate) : Type 0 where
  pub old :
      (id : ObjectId) → u.old ≡ some id → IsObjectId id × (eq_bytes (to_hex id) zero_hex ≡ false)
  pub new : IsObjectId u.new
  pub nonempty : u.name ≢ []
  pub one_line : Lacks b'\n' u.name
  pub utf8 : IsUtf8 u.name

pub IsHex-Lacks_tab : (s : Bytes) → All IsHex s → Lacks b'\t' s
IsHex-Lacks_tab [] h = tt
IsHex-Lacks_tab (b ∷ s) h = (λ e. absurd (omega (arith, e, h.0.0)), IsHex-Lacks_tab s h.1)

pub IsHex-Lacks_line : (s : Bytes) → All IsHex s → Lacks b'\n' s
IsHex-Lacks_line [] h = tt
IsHex-Lacks_line (b ∷ s) h = (λ e. absurd (omega (arith, e, h.0.0)), IsHex-Lacks_line s h.1)

pub IsHex-ascii : (s : Bytes) → All IsHex s → All (λ b. b < 128) s
IsHex-ascii [] h = tt
IsHex-ascii (b ∷ s) h = (omega (arith, h.0.1), IsHex-ascii s h.1)

zero_hex-IsHex : All IsHex zero_hex
unfolding to_hex
zero_hex-IsHex = to_hex-IsHex zero_id (omega arith)

old_hex-IsHex :
    (o : Option ObjectId)
    → ((id : ObjectId) → o ≡ some id → IsObjectId id × (eq_bytes (to_hex id) zero_hex ≡ false))
    → All IsHex (old_hex o)
old_hex-IsHex none h = zero_hex-IsHex
old_hex-IsHex (some id) h = to_hex-IsHex id (h id refl).0.1

parse_old-old_hex :
    (o : Option ObjectId)
    → ((id : ObjectId) → o ≡ some id → IsObjectId id × (eq_bytes (to_hex id) zero_hex ≡ false))
    → parse_old (old_hex o) ≡ ok o
unfolding parse_old
parse_old-old_hex none h = rw (eq_bytes_refl zero_hex) refl
parse_old-old_hex (some id) h = rw ((h id refl).1, from_hex-to_hex id (h id refl).0) refl

pub named : (name : Bytes) → name ≢ [] → eq_bytes name [] ≡ false
named name n = elim (Bool-cases (eq_bytes name [])) [
  | inl e ↦ absurd (n (eq_bytes→eq name [] e))
  | inr e ↦ e
]

pub empty_split : {p : Bytes × Bytes} → split_once b'\t' [] ≢ some p
unfolding split_once
empty_split h = cc

parse_ref_update-update_line :
    (out : List RefUpdate) (u : RefUpdate)
    → IsUpdate u
    → parse_ref_update out (update_line u) ≡ ok (out ++ (u ∷ []))
unfolding update_line
parse_ref_update-update_line out u w =
    let hex = old_hex-IsHex u.old w.old in
    let fresh = to_hex-IsHex u.new w.new.1 in
    go _ (split_once-append b'\t' (old_hex u.old) _ (IsHex-Lacks_tab _ hex))
      (split_once-append b'\t' (to_hex u.new) u.name (IsHex-Lacks_tab _ fresh))
  where
    go :
        (s : Bytes)
        → split_once b'\t' s ≡ some (old_hex u.old, to_hex u.new ++ (b'\t' ∷ u.name))
        → split_once b'\t' (to_hex u.new ++ (b'\t' ∷ u.name)) ≡ some (to_hex u.new, u.name)
        → parse_ref_update out s ≡ ok (out ++ (u ∷ []))
    go [] first second = absurd (empty_split first)
    go (b ∷ s) first second =
        unfold parse_ref_update in
        rw
          (
            first,
            second,
            named u.name w.nonempty,
            parse_old-old_hex u.old w.old,
            from_hex-to_hex u.new w.new,
          )
          refl

update_line-one_line :
    (u : RefUpdate) → IsUpdate u → Lacks b'\n' (update_line u) × IsUtf8 (update_line u)
unfolding update_line
update_line-one_line u w =
    let hex = old_hex-IsHex u.old w.old in
    let fresh = to_hex-IsHex u.new w.new.1 in
    (
      All-append _ (old_hex u.old) _ (IsHex-Lacks_line _ hex) (
        (λ e. absurd (omega (arith, e))),
        All-append _ (to_hex u.new) _ (IsHex-Lacks_line _ fresh)
            ((λ e. absurd (omega (arith, e))), w.one_line),
      ),
      IsUtf8-append (old_hex u.old) _ (IsUtf8-ascii _ (IsHex-ascii _ hex)) (
          IsUtf8-append (b'\t' ∷ []) _ (IsUtf8-ascii (b'\t' ∷ []) (omega arith, tt)) (
            IsUtf8-append (to_hex u.new) _ (IsUtf8-ascii _ (IsHex-ascii _ fresh)) (
              IsUtf8-append (b'\t' ∷ []) u.name (IsUtf8-ascii (b'\t' ∷ []) (omega arith, tt))
                w.utf8))),
    )

updates_lem :
    (us out : List RefUpdate)
    → All IsUpdate us
    → (each_line parse_ref_update out (split_inclusive b'\n' (encode_ref_updates us))
        ≡ ok (out ++ us))
      × IsUtf8 (encode_ref_updates us)
unfolding encode_ref_updates
updates_lem [] out h =
    (rw (append-nil out) (unfold each_line split_inclusive in refl), IsUtf8-ascii [] tt)
updates_lem (u ∷ us) out h =
    let (parsed, valid) = updates_lem us (out ++ (u ∷ [])) h.1 in
    let (one_line, utf8) = update_line-one_line u h.0 in
    (
      each_line-line parse_ref_update out (out ++ (u ∷ [])) (update_line u) (encode_ref_updates us)
            one_line (parse_ref_update-update_line out u h.0)
          ∙ parsed
          ∙ ap ok (append_assoc out (u ∷ []) us),
      line_feed (update_line u) (encode_ref_updates us) utf8 valid,
    )

-- A batch of updates is parsed back from its encoding, if its ids have 32 bytes, each name is UTF-8
-- without a line feed and not empty, and no old id is the zero one. A name may hold tabs.
pub parse_ref_updates-encode_ref_updates :
    (us : List RefUpdate) → All IsUpdate us → parse_ref_updates (encode_ref_updates us) ≡ ok us
unfolding parse_ref_updates
parse_ref_updates-encode_ref_updates us h =
    let (parsed, valid) = updates_lem us [] h in rw (IsUtf8→is_utf8 _ valid) parsed
