-- ===== src/Base/Sort.antt =====
-- `slice::sort`, `sort_by` on a text key, and `dedup`.
use Prim.Native.Nat.{ℕ, ◌+◌}
use mathlib.Core.Path.{◌≡◌}
use mathlib.Core.Bool.{Bool, true, false, ◌&&◌, ◌||◌}
use mathlib.Core.Logic.{inl, inr}
use mathlib.Core.List.{List, [], ◌∷◌, ◌++◌}
use native.Mathlib.Omega.{arith}
use duegood.Base.Tests.{ltb, ◌==◌, if◌then◌else◌, Bool-cases}
use duegood.Base.Lists.{All}
use duegood.Base.Text.{Bytes, same}

-- the order of `str`: by bytes
unfoldable pub text_le : Bytes → Bytes → Bool
text_le [] t = true
text_le (c ∷ s) [] = false
text_le (c ∷ s) (d ∷ t) = ltb c d || (c == d && text_le s t)

unfoldable pub dedup : List Bytes → List Bytes
dedup [] = []
dedup (s ∷ []) = s ∷ []
dedup (s ∷ t ∷ ts) = let rest = dedup (t ∷ ts) in if same s t then rest else s ∷ rest

module _ {A : Type 0} where
  insert_by : (A → Bytes) → A → List A → List A
  unfolding text_le
  insert_by key x [] = x ∷ []
  insert_by key x (y ∷ ys) =
      let behind = insert_by key x ys in if text_le (key x) (key y) then x ∷ y ∷ ys else y ∷ behind

  -- a stable sort
  unfoldable pub sort_by : (A → Bytes) → List A → List A
  unfolding insert_by
  sort_by key [] = []
  sort_by key (x ∷ xs) = insert_by key x (sort_by key xs)

  -- how many elements pass a test
  abbrev pub count : (A → Bool) → List A → ℕ
  count p [] = 0
  count p (x ∷ xs) = (if p x then 1 else 0) + count p xs

  pub count-append : (p : A → Bool) (xs ys : List A) → count p (xs ++ ys) ≡ count p xs + count p ys
  count-append p [] ys = omega arith
  count-append p (x ∷ xs) ys = omega (arith, count-append p xs ys)

  count-insert_by :
      (p : A → Bool) (key : A → Bytes) (x : A) (xs : List A)
      → count p (insert_by key x xs) ≡ count p (x ∷ xs)
  unfolding insert_by
  count-insert_by p key x [] = omega arith
  count-insert_by p key x (y ∷ ys) = elim (Bool-cases (text_le (key x) (key y))) [
    | inl e ↦ rw (e) (omega arith)
    | inr e ↦ rw (e) (omega (arith, count-insert_by p key x ys))
  ]

  pub count-sort_by :
      (p : A → Bool) (key : A → Bytes) (xs : List A) → count p (sort_by key xs) ≡ count p xs
  unfolding sort_by
  count-sort_by p key [] = omega arith
  count-sort_by p key (x ∷ xs) =
      omega (arith, count-insert_by p key x (sort_by key xs), count-sort_by p key xs)

  module _ (P : A → Type 0) where
    All-insert_by :
        (key : A → Bytes) (x : A) (xs : List A) → P x → All P xs → All P (insert_by key x xs)
    unfolding insert_by
    All-insert_by key x [] p h = (p, tt)
    All-insert_by key x (y ∷ ys) p (q, h) = elim (Bool-cases (text_le (key x) (key y))) [
      | inl e ↦ rw (e) (p, (q, h))
      | inr e ↦ rw (e) (q, All-insert_by key x ys p h)
    ]

    pub All-sort_by : (key : A → Bytes) (xs : List A) → All P xs → All P (sort_by key xs)
    unfolding sort_by
    All-sort_by key [] h = tt
    All-sort_by key (x ∷ xs) (p, h) = All-insert_by key x (sort_by key xs) p (All-sort_by key xs h)
