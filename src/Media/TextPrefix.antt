-- ===== src/Media/TextPrefix.antt =====
-- Prefixes of UTF-8 text, in the text check of src-tauri/src/capture_media.rs.
use duegood.Base.{
  ℕ, ◌+◌, ◌≤◌, ◌≡◌, refl, inl, inr, true, false, some, List, [], ◌∷◌, ◌++◌, Bytes, length, arith,
  Option-cases, contains_byte,
}
use duegood.Base.Utf8.{
  Utf8, valid, incomplete, invalid, after_lead, scan, from_utf8, from_utf8_prefix,
}
use duegood.Media.Sniff.{is_text_prefix, text_like}

after_lead-le : (c : ℕ) (due : List (ℕ × ℕ)) → after_lead c ≡ some due → length due ≤ 3
unfolding after_lead
after_lead-le c due h = ground arith

-- What is left over at the end of a scan is a part of one character: three bytes at most.
scan-incomplete :
    (due : List (ℕ × ℕ)) (v k n : ℕ) (s : Bytes)
    → length due + k ≤ 4
    → scan due v k s ≡ incomplete n
    → v + k + length s ≤ n + 3
unfolding scan
scan-incomplete [] v k n [] b h = cc
scan-incomplete (r ∷ due) v k n [] b h = ground arith
scan-incomplete [] v k n (c ∷ s) b h = elim (Option-cases (after_lead c)) [
  | inl e ↦ ground (arith, e)
  | inr (due, e) ↦
      let short = after_lead-le c due e in
      ground (arith, e, short, scan-incomplete due (v + k) 1 n s)
]
scan-incomplete ((lo, hi) ∷ due) v k n (c ∷ s) b h =
    ground (arith, scan-incomplete due v (k + 1) n s)

from_utf8-incomplete : (s : Bytes) (n : ℕ) → from_utf8 s ≡ incomplete n → length s ≤ n + 3
unfolding from_utf8
from_utf8-incomplete s n h = omega (arith, scan-incomplete [] 0 0 n s (omega arith) h)

cut_text-text_like :
    (s t : Bytes) (u : Utf8)
    → from_utf8 (s ++ t) ≡ valid
    → 4 ≤ length s
    → from_utf8 s ≡ u
    → text_like u ≡ true
unfolding text_like
cut_text-text_like s t valid h l e = refl
cut_text-text_like s t (incomplete n) h l e = ground (arith, from_utf8-incomplete s n e)
cut_text-text_like s t (invalid n) h l e = absurd (from_utf8_prefix s t n h e)

-- A prefix, of four bytes or more, of a UTF-8 text with no NUL is recognised as text, wherever
-- the download was cut.
pub text_prefix_recognised :
    (s t : Bytes)
    → from_utf8 (s ++ t) ≡ valid
    → contains_byte 0 s ≡ false
    → 4 ≤ length s
    → is_text_prefix s ≡ true
unfolding is_text_prefix
text_prefix_recognised s t h z l = rw z (cut_text-text_like s t (from_utf8 s) h l refl)
