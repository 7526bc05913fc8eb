-- ===== src/Base/Text.antt =====
-- A `&str` is the list of its UTF-8 bytes; the string operations that the program calls on it.
use Prim.Native.Nat.{ℕ, ◌+◌, ◌-◌, ◌≤◌}
use Prim.Native.Char.{code}
use Prim.Native.String.{String}
use mathlib.Core.Path.{◌≡◌, refl}
use mathlib.Core.Bool.{Bool, true, false, ◌&&◌, ◌||◌}
use mathlib.Core.Logic.{◌↔◌}
use mathlib.Core.Option.{Option, none, some}
use mathlib.Core.List.{List, [], ◌∷◌, ◌++◌, map}
use native.Mathlib.Omega.{arith}
use duegood.Base.Tests.{leb, ◌==◌, if◌then◌else◌, is_some}
use duegood.Base.Lists.{all, length, length-append}

abbrev pub Bytes : Type 0
Bytes = List ℕ

-- The bytes of an ASCII literal.
abbrev pub codes : String → Bytes
codes String.[] = []
codes (String.◌∷◌ c s) = code c ∷ codes s

abbrev pub same : Bytes → Bytes → Bool
same [] [] = true
same (x ∷ xs) (y ∷ ys) = x == y && same xs ys
same _ _ = false

pub same_iff : (a b : Bytes) → (same a b ≡ true) ↔ (a ≡ b)
same_iff (x ∷ a) (y ∷ b) = ground (arith, same_iff a b)
same_iff _ _ = ground arith

pub same_refl : (a : Bytes) → same a a ≡ true
same_refl a = (same_iff a a).1 refl

-- `str::strip_prefix`, the prefix first
unfoldable pub strip_prefix : Bytes → Bytes → Option Bytes
strip_prefix [] s = some s
strip_prefix (p ∷ ps) [] = none
strip_prefix (p ∷ ps) (c ∷ s) = if p == c then strip_prefix ps s else none

unfoldable pub starts_with : Bytes → Bytes → Bool
unfolding strip_prefix
starts_with p s = is_some (strip_prefix p s)

unfoldable pub contains_byte : ℕ → Bytes → Bool
contains_byte b [] = false
contains_byte b (c ∷ s) = c == b || contains_byte b s

-- `str::split_once` at an ASCII byte
unfoldable pub split_once : ℕ → Bytes → Option (Bytes × Bytes)
split_once b [] = none
split_once b (c ∷ s) =
    let rest = split_once b s in
    if c == b then some ([], s) else elim rest [ none ↦ none | some (h, t) ↦ some (c ∷ h, t) ]

-- `str::split` at any of some ASCII bytes: never an empty list of pieces
onto_first : ℕ → List Bytes → List Bytes
onto_first c [] = (c ∷ []) ∷ []
onto_first c (p ∷ ps) = (c ∷ p) ∷ ps

unfoldable pub split_on : (ℕ → Bool) → Bytes → List Bytes
unfolding onto_first
split_on at [] = [] ∷ []
split_on at (c ∷ s) = let rest = split_on at s in if at c then [] ∷ rest else onto_first c rest

unfoldable pub lower : ℕ → ℕ
lower c = if leb b'A' c && leb c b'Z' then c + 32 else c

unfoldable pub upper : ℕ → ℕ
upper c = if leb b'a' c && leb c b'z' then c - 32 else c

unfoldable pub to_lower : Bytes → Bytes
unfolding lower
to_lower = map lower

unfoldable pub to_upper : Bytes → Bytes
unfolding upper
to_upper = map upper

unfoldable pub eq_ignore_case : Bytes → Bytes → Bool
unfolding to_lower
eq_ignore_case a b = same (to_lower a) (to_lower b)

unfoldable pub is_digit : ℕ → Bool
is_digit c = leb b'0' c && leb c b'9'

unfoldable pub all_digits : Bytes → Bool
unfolding is_digit
all_digits = all is_digit

-- What follows the first occurrence of a text: `s.find(p)` with the slice behind the match.
unfoldable pub find_text : Bytes → Bytes → Option Bytes
unfolding strip_prefix
find_text p [] = strip_prefix p []
find_text p (c ∷ s) =
    let rest = find_text p s in elim (strip_prefix p (c ∷ s)) [ some r ↦ some r | none ↦ rest ]

pub strip_prefix-eq_some : (p s r : Bytes) → (strip_prefix p s ≡ some r) ↔ (s ≡ p ++ r)
unfolding strip_prefix
strip_prefix-eq_some [] s r = ground arith
strip_prefix-eq_some (p ∷ ps) [] r = ground arith
strip_prefix-eq_some (p ∷ ps) (c ∷ s) r = ground (arith, strip_prefix-eq_some ps s r)

is_some-witness : (o : Option Bytes) → is_some o ≡ true → (r : Bytes) × (o ≡ some r)
is_some-witness none h = cc
is_some-witness (some r) h = (r, refl)

pub starts_with_iff : (p s : Bytes) → (starts_with p s ≡ true) ↔ ((r : Bytes) × (s ≡ p ++ r))
unfolding starts_with
starts_with_iff p s = (
  λ h. let (r, e) = is_some-witness (strip_prefix p s) h in (r, (strip_prefix-eq_some p s r).0 e),
  λ w. let (r, e) = w in rw ((strip_prefix-eq_some p s r).1 e),
)

-- no byte of the text is `b`
abbrev pub Absent : ℕ → Bytes → Type 0
Absent b s = contains_byte b s ≡ false

-- `split_once` cuts at the first separator.
pub split_once-eq_some :
    (b : ℕ) (s h t : Bytes) → split_once b s ≡ some (h, t) → (s ≡ h ++ (b ∷ t)) × Absent b h
unfolding split_once contains_byte
split_once-eq_some b [] h t e = cc
split_once-eq_some b (c ∷ s) [] t e = ground arith
split_once-eq_some b (c ∷ s) (x ∷ h) t e = ground (arith, split_once-eq_some b s h t)

-- A text with a separator behind a part that has none splits there.
pub split_once-Absent :
    (b : ℕ) (h t : Bytes) → Absent b h → split_once b (h ++ (b ∷ t)) ≡ some (h, t)
unfolding split_once contains_byte
split_once-Absent b [] t a = ground arith
split_once-Absent b (c ∷ h) t a = ground (arith, split_once-Absent b h t)

pub length-strip_prefix :
    (p s r : Bytes) → strip_prefix p s ≡ some r → length s ≡ length p + length r
length-strip_prefix p s r e = rw ((strip_prefix-eq_some p s r).0 e) (length-append p r)

-- What stands behind a match is no longer than the text.
pub length-find_text : (p s r : Bytes) → find_text p s ≡ some r → length r ≤ length s
unfolding find_text
length-find_text p [] r e = omega (arith, length-strip_prefix p [] r e)
length-find_text p (c ∷ s) r e =
    ground (arith, length-strip_prefix p (c ∷ s) r, length-find_text p s r)
