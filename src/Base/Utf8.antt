-- ===== src/Base/Utf8.antt =====
-- `std::str::from_utf8`, as the scan over bytes that its documentation describes: the text is
-- valid, ends within a character, or has a byte that no continuation can mend.
use Prim.Native.Nat.{ℕ, ◌+◌}
use mathlib.Core.Path.{◌≡◌}
use mathlib.Core.Bool.{Bool, true, false, ◌&&◌}
use mathlib.Core.Logic.{◌≢◌, inl, inr}
use mathlib.Core.Option.{Option, none, some}
use mathlib.Core.List.{List, [], ◌∷◌, ◌++◌}
use native.Mathlib.Omega.{arith}
use duegood.Base.Tests.{leb, Option-cases, if◌then◌else◌}
use duegood.Base.Text.{Bytes}

-- `incomplete n` is the error with no `error_len`; `n` is `valid_up_to`.
pub data Utf8 : Type 0 where
  valid : Utf8
  incomplete invalid : ℕ → Utf8

abbrev within : ℕ → ℕ → ℕ → Bool
within lo hi c = leb lo c && leb c hi

abbrev tail : ℕ × ℕ
tail = (0x80, 0xbf)

-- The ranges of the bytes that must follow a first byte.
unfoldable pub after_lead : ℕ → Option (List (ℕ × ℕ))
after_lead c =
    if leb c 0x7f
    then some []
    else if within 0xc2 0xdf c
    then some (tail ∷ [])
    else if within 0xe0 0xe0 c
    then some ((0xa0, 0xbf) ∷ tail ∷ [])
    else if within 0xed 0xed c
    then some ((0x80, 0x9f) ∷ tail ∷ [])
    else if within 0xe1 0xef c
    then some (tail ∷ tail ∷ [])
    else if within 0xf0 0xf0 c
    then some ((0x90, 0xbf) ∷ tail ∷ tail ∷ [])
    else if within 0xf4 0xf4 c
    then some ((0x80, 0x8f) ∷ tail ∷ tail ∷ [])
    else if within 0xf1 0xf3 c
    then some (tail ∷ tail ∷ tail ∷ [])
    else none

-- `due` is what the current character still needs, `v` where it starts, `k` what it has.
unfoldable pub scan : List (ℕ × ℕ) → ℕ → ℕ → Bytes → Utf8
scan [] v k [] = valid
scan (_ ∷ _) v k [] = incomplete v
scan [] v k (c ∷ s) = elim (after_lead c) [
  | none ↦ invalid (v + k)
  | some due ↦ scan due (v + k) 1 s
]
scan ((lo, hi) ∷ due) v k (c ∷ s) = elim (within lo hi c) [
  | true ↦ scan due v (k + 1) s
  | false ↦ invalid v
]

unfoldable pub from_utf8 : Bytes → Utf8
unfolding scan after_lead
from_utf8 = scan [] 0 0

-- A refused byte is refused whatever follows it.
scan-invalid :
    (due : List (ℕ × ℕ)) (v k n : ℕ) (s t : Bytes)
    → scan due v k s ≡ invalid n
    → scan due v k (s ++ t) ≡ invalid n
unfolding scan
scan-invalid [] v k n [] t h = cc
scan-invalid (_ ∷ _) v k n [] t h = cc
scan-invalid [] v k n (c ∷ s) t h = elim (Option-cases (after_lead c)) [
  | inl e ↦ ground (arith, e)
  | inr (due, e) ↦ ground (arith, e, scan-invalid due (v + k) 1 n s t)
]
scan-invalid ((lo, hi) ∷ due) v k n (c ∷ s) t h = ground (arith, scan-invalid due v (k + 1) n s t)

-- A cut of a valid text is at worst incomplete: it is never refused.
pub from_utf8_prefix : (s t : Bytes) (n : ℕ) → from_utf8 (s ++ t) ≡ valid → from_utf8 s ≢ invalid n
unfolding from_utf8
from_utf8_prefix s t n h e = cc (h, scan-invalid [] 0 0 n s t e)
