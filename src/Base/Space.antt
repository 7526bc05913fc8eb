-- ===== src/Base/Space.antt =====
-- White space as `char::is_whitespace` has it, over the UTF-8 bytes of a text.
use Prim.Native.Nat.{ℕ, zero, suc, ◌≤◌, ◌<◌}
use mathlib.Core.Path.{◌≡◌, refl}
use mathlib.Core.Bool.{Bool, true, ◌||◌}
use mathlib.Core.Logic.{inl, inr}
use mathlib.Core.Option.{Option, none, some}
use mathlib.Core.List.{List, [], ◌∷◌, ◌++◌, map, reverse}
use native.Mathlib.Omega.{arith}
use duegood.Base.Tests.{◌==◌, ==-iff, Bool-cases, Option-cases}
use duegood.Base.Lists.{length, length-append, all}
use duegood.Base.Text.{Bytes, strip_prefix, strip_prefix-eq_some}

-- The encodings of the characters that `char::is_whitespace` accepts.
abbrev spaces : List Bytes
spaces =
    (9 ∷ [])
    ∷ (10 ∷ [])
    ∷ (11 ∷ [])
    ∷ (12 ∷ [])
    ∷ (13 ∷ [])
    ∷ (32 ∷ [])
    ∷ (0xc2 ∷ 0x85 ∷ [])
    ∷ (0xc2 ∷ 0xa0 ∷ [])
    ∷ (0xe1 ∷ 0x9a ∷ 0x80 ∷ [])
    ∷ (0xe2 ∷ 0x80 ∷ 0x80 ∷ [])
    ∷ (0xe2 ∷ 0x80 ∷ 0x81 ∷ [])
    ∷ (0xe2 ∷ 0x80 ∷ 0x82 ∷ [])
    ∷ (0xe2 ∷ 0x80 ∷ 0x83 ∷ [])
    ∷ (0xe2 ∷ 0x80 ∷ 0x84 ∷ [])
    ∷ (0xe2 ∷ 0x80 ∷ 0x85 ∷ [])
    ∷ (0xe2 ∷ 0x80 ∷ 0x86 ∷ [])
    ∷ (0xe2 ∷ 0x80 ∷ 0x87 ∷ [])
    ∷ (0xe2 ∷ 0x80 ∷ 0x88 ∷ [])
    ∷ (0xe2 ∷ 0x80 ∷ 0x89 ∷ [])
    ∷ (0xe2 ∷ 0x80 ∷ 0x8a ∷ [])
    ∷ (0xe2 ∷ 0x80 ∷ 0xa8 ∷ [])
    ∷ (0xe2 ∷ 0x80 ∷ 0xa9 ∷ [])
    ∷ (0xe2 ∷ 0x80 ∷ 0xaf ∷ [])
    ∷ (0xe2 ∷ 0x81 ∷ 0x9f ∷ [])
    ∷ (0xe3 ∷ 0x80 ∷ 0x80 ∷ [])
    ∷ []

-- the rest behind the first of some prefixes that the text has
strip_any : List Bytes → Bytes → Option Bytes
strip_any [] s = none
strip_any (p ∷ ps) s =
    let rest = strip_any ps s in elim (strip_prefix p s) [ some r ↦ some r | none ↦ rest ]

trim_by : List Bytes → ℕ → Bytes → Bytes
trim_by ps zero s = s
trim_by ps (suc n) s = elim (strip_any ps s) [ some r ↦ trim_by ps n r | none ↦ s ]

-- `str::trim_start`
unfoldable pub trim_start : Bytes → Bytes
unfolding strip_any trim_by strip_prefix
trim_start s = trim_by spaces (length s) s

-- `str::trim_end`, on the reversed text
unfoldable pub trim_end : Bytes → Bytes
unfolding strip_any trim_by strip_prefix
trim_end s = reverse (trim_by (map reverse spaces) (length s) (reverse s))

unfoldable pub trim : Bytes → Bytes
unfolding trim_start trim_end
trim s = trim_end (trim_start s)

-- Every prefix has a first byte, so stripping one shortens the text.
abbrev IsFilled : List Bytes → Type 0
IsFilled [] = Unit
IsFilled (p ∷ ps) = (0 < length p) × IsFilled ps

strip_prefix-shorter :
    (p s r : Bytes) → 0 < length p → strip_prefix p s ≡ some r → length r < length s
strip_prefix-shorter p s r h e =
    rw ((strip_prefix-eq_some p s r).0 e) (omega (arith, length-append p r))

strip_any-shorter :
    (ps : List Bytes) (s r : Bytes) → IsFilled ps → strip_any ps s ≡ some r → length r < length s
unfolding strip_any
strip_any-shorter [] s r f e = cc
strip_any-shorter (p ∷ ps) s r (h, f) e =
    ground (arith, strip_prefix-shorter p s r h, strip_any-shorter ps s r f)

-- With as much fuel as there are bytes, no prefix is left to strip.
trim_by-stops :
    (ps : List Bytes) (n : ℕ) (s : Bytes)
    → IsFilled ps
    → length s ≤ n
    → strip_any ps (trim_by ps n s) ≡ none
unfolding trim_by
trim_by-stops ps zero s f h = elim (Option-cases (strip_any ps s)) [
  | inl e ↦ e
  | inr (r, e) ↦ absurd (omega (arith, strip_any-shorter ps s r f e))
]
trim_by-stops ps (suc n) s f h = elim (Option-cases (strip_any ps s)) [
  | inl e ↦ rw (e, trim_by) e
  | inr (r, e) ↦
      rw (e, trim_by) (trim_by-stops ps n r f (omega (arith, strip_any-shorter ps s r f e)))
]

-- What `trim_start` leaves does not begin with white space.
trim_start-stops : (s : Bytes) → strip_any spaces (trim_start s) ≡ none
unfolding trim_start
trim_start-stops s = trim_by-stops spaces (length s) s (omega arith) (omega arith)

trim_by-le :
    (ps : List Bytes) (n : ℕ) (s : Bytes) → IsFilled ps → length (trim_by ps n s) ≤ length s
unfolding trim_by
trim_by-le ps zero s f = omega arith
trim_by-le ps (suc n) s f = elim (Option-cases (strip_any ps s)) [
  | inl e ↦ rw (e, trim_by) (omega arith)
  | inr (r, e) ↦ rw (e, trim_by) (omega (arith, strip_any-shorter ps s r f e, trim_by-le ps n r f))
]

pub length-trim_start : (s : Bytes) → length (trim_start s) ≤ length s
unfolding trim_start
length-trim_start s = trim_by-le spaces (length s) s (omega arith)

-- tab, line feed, vertical tab, form feed, carriage return, space
abbrev pub is_ascii_space : ℕ → Bool
is_ascii_space c = c == 9 || c == 10 || c == 11 || c == 12 || c == 13 || c == 32

strip_any-space : (c : ℕ) (s : Bytes) → is_ascii_space c ≡ true → strip_any spaces (c ∷ s) ≡ some s
unfolding strip_any strip_prefix
strip_any-space c s h = elim (Bool-cases (c == 9)) [
  | inl e ↦ rw ((==-iff c 9).0 e) refl
  | inr n9 ↦ elim (Bool-cases (c == 10)) [
    | inl e ↦ rw ((==-iff c 10).0 e) refl
    | inr n10 ↦ elim (Bool-cases (c == 11)) [
      | inl e ↦ rw ((==-iff c 11).0 e) refl
      | inr n11 ↦ elim (Bool-cases (c == 12)) [
        | inl e ↦ rw ((==-iff c 12).0 e) refl
        | inr n12 ↦ elim (Bool-cases (c == 13)) [
          | inl e ↦ rw ((==-iff c 13).0 e) refl
          | inr n13 ↦
              let e : c == 32 ≡ true = ground (arith, n9, n10, n11, n12, n13) in
              rw ((==-iff c 32).0 e) refl
        ]
      ]
    ]
  ]
]

trim_by-gap :
    (n : ℕ) (gap s : Bytes)
    → all is_ascii_space gap ≡ true
    → strip_any spaces s ≡ none
    → length gap ≤ n
    → trim_by spaces n (gap ++ s) ≡ s
unfolding trim_by
trim_by-gap zero [] s a h l = refl
trim_by-gap zero (c ∷ gap) s a h l = absurd (omega arith)
trim_by-gap (suc n) [] s a h l = rw (h, trim_by) refl
trim_by-gap (suc n) (c ∷ gap) s a h l =
    let space : is_ascii_space c ≡ true = ground arith in
    rw (strip_any-space c (gap ++ s) space, trim_by)
      (trim_by-gap n gap s (ground arith) h (omega arith))

-- ASCII white space in front of a mark is trimmed.
pub trim_start-gap :
    (gap s : Bytes) → all is_ascii_space gap ≡ true → trim_start (gap ++ (b'<' ∷ s)) ≡ (b'<' ∷ s)
unfolding trim_start
trim_start-gap gap s a =
    trim_by-gap (length (gap ++ (b'<' ∷ s))) gap (b'<' ∷ s) a
      (unfold strip_any strip_prefix in refl) (omega (arith, length-append gap (b'<' ∷ s)))
