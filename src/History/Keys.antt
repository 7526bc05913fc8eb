-- ===== src/History/Keys.antt =====
-- The keys of an index of src-tauri/src/history.rs.
use duegood.Base.{
  ℕ, ◌+◌, false, ◌||◌, List, [], ◌∷◌, Bytes, same, same_iff, text_le, count, ok, ◌≡◌, refl, subst,
  if◌then◌else◌, Bool-cases, Option-cases, Result-cases, inl, inr, arith,
}
use duegood.History.Items.{
  Json, Indexed, lookup, contains_key, place_key, index_item, index_items, indexed_items, items_of,
  is_observed_source_item, stable_key,
}

module _ {A : Type 0} where
  abbrev pub IsUnique : Indexed A → Type 0
  IsUnique [] = Unit
  IsUnique ((k, _) ∷ m) = (contains_key k m ≡ false) × IsUnique m

  contains_key-place_key :
      (x key : Bytes) (a : A) (m : Indexed A)
      → contains_key x (place_key key a m) ≡ (same x key || contains_key x m)
  unfolding lookup place_key
  contains_key-place_key x key a [] = ground arith
  contains_key-place_key x key a ((k, b) ∷ m) = ground (arith, contains_key-place_key x key a m)

  pub place_key-IsUnique :
      (key : Bytes) (a : A) (m : Indexed A)
      → contains_key key m ≡ false
      → IsUnique m
      → IsUnique (place_key key a m)
  unfolding lookup place_key
  place_key-IsUnique key a [] h u = (refl, tt)
  place_key-IsUnique key a ((k, b) ∷ m) h (f, u) = elim (Bool-cases (text_le key k)) [
    | inl e ↦ rw (e, IsUnique) (h, (f, u))
    | inr e ↦
        rw (e, IsUnique)
          (
            ground (arith, contains_key-place_key k key a m, same_iff key k, same_iff k key),
            place_key-IsUnique key a m (ground arith) u,
          )
  ]

  -- how many entries have a key of another index
  abbrev pub shared : {B : Type 0} → Indexed A → Indexed B → ℕ
  shared m other = count (λ e. contains_key e.0 other) m

-- how many entries have one key
abbrev with_key : {A : Type 0} → Bytes → Indexed A → ℕ
with_key key m = count (λ e. same e.0 key) m

with_key_absent :
    {A : Type 0} (key : Bytes) (m : Indexed A) → contains_key key m ≡ false → with_key key m ≡ 0
unfolding lookup
with_key_absent key [] h = refl
with_key_absent key ((k, a) ∷ m) h =
    ground (arith, with_key_absent key m, same_iff k key, same_iff key k)

with_key_unique :
    {A : Type 0} (key : Bytes) (m : Indexed A)
    → IsUnique m
    → with_key key m ≡ (if contains_key key m then 1 else 0)
unfolding lookup
with_key_unique key [] u = refl
with_key_unique key ((k, a) ∷ m) (f, u) = elim (Bool-cases (same key k)) [
  | inl e ↦
      let q : key ≡ k = (same_iff key k).0 e in
      let none_left : with_key key m ≡ 0 = with_key_absent key m (rw q f) in
      ground (arith, e, none_left, same_iff k key, q)
  | inr e ↦ ground (arith, e, with_key_unique key m u, same_iff k key, same_iff key k)
]

shared-cons :
    {A B : Type 0} (m : Indexed A) (key : Bytes) (b : B) (n : Indexed B)
    → contains_key key n ≡ false
    → shared m ((key, b) ∷ n) ≡ with_key key m + shared m n
unfolding lookup
shared-cons [] key b n h = refl
shared-cons ((k, a) ∷ m) key b n h = elim (Bool-cases (same k key)) [
  | inl e ↦
      let q : contains_key k n ≡ false = rw ((same_iff k key).0 e) h in
      ground (arith, e, q, shared-cons m key b n h)
  | inr e ↦ ground (arith, e, shared-cons m key b n h)
]

shared-nil : {A : Type 0} (B : Type 0) (m : Indexed A) → shared {B = B} m [] ≡ 0
unfolding lookup
shared-nil B [] = refl
shared-nil B (e ∷ m) = ground (arith, shared-nil B m)

-- Two indexes have as many entries in common from either side.
pub shared_comm :
    {A B : Type 0} (m : Indexed A) (n : Indexed B)
    → IsUnique m
    → IsUnique n
    → shared m n ≡ shared n m
shared_comm {B = B} m [] u v = shared-nil B m
shared_comm m ((key, b) ∷ n) u (f, v) =
    ground (arith, shared-cons m key b n f, with_key_unique key m u, shared_comm m n u v)

module _ (json : Json) where
  open json use {Value}

  index_item-IsUnique :
      (item : Value) (m m' : Indexed Value)
      → IsUnique m
      → index_item json item m ≡ ok m'
      → IsUnique m'
  unfolding index_item
  index_item-IsUnique item m m' u h = elim (Bool-cases (is_observed_source_item json item)) [
    | inr o ↦ let q : m ≡ m' = ground (arith, o) in subst IsUnique q u
    | inl o ↦ elim (Option-cases (stable_key json item)) [
      | inl k ↦ ground (arith, o, k)
      | inr (key, k) ↦ elim (Bool-cases (contains_key key m)) [
        | inl c ↦ ground (arith, o, k, c)
        | inr c ↦
            let q : place_key key item m ≡ m' = ground (arith, o, k, c) in
            subst IsUnique q (place_key-IsUnique key item m c u)
      ]
    ]
  ]

  index_items-IsUnique :
      (items : List Value) (m m' : Indexed Value)
      → IsUnique m
      → index_items json items m ≡ ok m'
      → IsUnique m'
  unfolding index_items
  index_items-IsUnique [] m m' u h = let q : m ≡ m' = ground arith in subst IsUnique q u
  index_items-IsUnique (item ∷ items) m m' u h = elim (Result-cases (index_item json item m)) [
    | inr (e, k) ↦ ground (arith, k)
    | inl (m1, k) ↦
        index_items-IsUnique items m1 m' (index_item-IsUnique item m m1 u k) (ground (arith, k))
  ]

  pub indexed_items-IsUnique :
      (value : Value) (m : Indexed Value) → indexed_items json value ≡ ok m → IsUnique m
  unfolding indexed_items
  indexed_items-IsUnique value m h = elim (Option-cases (items_of json value)) [
    | inl k ↦ ground (arith, k)
    | inr (items, k) ↦ index_items-IsUnique items [] m tt (ground (arith, k))
  ]
