-- ===== src/Reconcile/Ids.antt =====
-- Counting the IDs of items in src-tauri/src/reconcile.rs.
use duegood.Base.{
  ℕ, zero, suc, ◌+◌, ◌≤◌, Bool, false, Option, none, some, List, [], ◌∷◌, Bytes, codes, same,
  same_iff, count, ok, Bool-cases, Option-cases, Result-cases, ◌≡◌, ◌∙◌, refl, ap, inl, inr,
  if◌then◌else◌, arith,
}
use duegood.Reconcile.Values.{Values, field, field-eq, text_of, filled, is_text}
use duegood.Reconcile.Checks.{Identity, contains, item_id, local_identity, add_identity, index_ids}
use duegood.Reconcile.Archive.{take_at, archived_ids, keep_archived}
use duegood.Reconcile.Survivors.{has_id, id_count}

-- taking an element out changes no count but by that element
pub take_at-count :
    {A : Type 0} (p : A → Bool) (index : ℕ) (xs rest : List A) (x : A)
    → take_at index xs ≡ some (x, rest)
    → count p xs ≡ count p (x ∷ rest)
unfolding take_at
take_at-count p index [] rest x h = cc
take_at-count p zero (y ∷ ys) rest x h = ground arith
take_at-count p (suc index) (y ∷ ys) rest x h = elim (Option-cases (take_at index ys)) [
  | inl e ↦ ground (arith, e)
  | inr ((z, zs), e) ↦ ground (arith, e, take_at-count p index ys zs z e)
]

-- a text that is in the list, or not, and one more
pub contains-fresh :
    (id new : Bytes) (ids : List Bytes)
    → contains new ids ≡ false
    → (if same id new then 1 else 0) + (if contains id ids then 1 else 0)
      ≡ (if contains id (new ∷ ids) then 1 else 0)
contains-fresh id new ids h = elim (Bool-cases (same id new)) [
  | inr e ↦ ground (arith, e)
  | inl e ↦ let q : contains id ids ≡ false = rw ((same_iff id new).0 e) h in ground (arith, e, q)
]

module _ (json : Values) where
  open json use {Value, Map, as_object, get}

  pub filled-text :
      (v : Option Value) (s : Bytes) → filled json v ≡ some s → text_of json v ≡ some s
  filled-text none s h = cc
  filled-text (some v) s h = elim (Option-cases (json.as_str v)) [
    | inl e ↦ ground (arith, e)
    | inr ([], e) ↦ ground (arith, e)
    | inr (c ∷ t, e) ↦ ground (arith, e)
  ]

  item_id-text :
      (m : Map) (id : Bytes) → item_id json m ≡ ok id → text_of json (get (codes "id") m) ≡ some id
  unfolding item_id
  item_id-text m id h = elim (Option-cases (filled json (get (codes "id") m))) [
    | inl e ↦ ground (arith, e)
    | inr (s, e) ↦ ground (arith, e, filled-text (get (codes "id") m) s e)
  ]

  pub text-has_id :
      (id new : Bytes) (v : Value)
      → text_of json (field json (codes "id") v) ≡ some new
      → has_id json id v ≡ same id new
  text-has_id id new v h = ap (is_text id) h

  -- The IDs that the loop over the local items ends with are those of the items, each once.
  pub index_ids-count :
      (id : Bytes) (items : List Value) (ids ids' : List Bytes) (identities : List Identity)
      → index_ids json items ids identities ≡ ok ids'
      → id_count json id items + (if contains id ids then 1 else 0)
        ≡ (if contains id ids' then 1 else 0)
  unfolding index_ids
  index_ids-count id [] ids ids' identities h = ground arith
  index_ids-count id (v ∷ items) ids ids' identities h = elim (Option-cases (as_object v)) [
    | inl e ↦ ground (arith, e)
    | inr (m, e) ↦ elim (Result-cases (item_id json m)) [
      | inr (x, k) ↦ ground (arith, e, k)
      | inl (new, k) ↦ elim (Bool-cases (contains new ids)) [
        | inl c ↦ ground (arith, e, k, c)
        | inr c ↦ elim (Result-cases (add_identity json (local_identity json m) identities)) [
          | inr (x, a) ↦ ground (arith, e, k, c, a)
          | inl (more, a) ↦ ground (
            arith,
            text-has_id id new v
                (ap (text_of json) (field-eq json (codes "id") v m e) ∙ item_id-text m new k),
            contains-fresh id new ids c,
            index_ids-count id items (new ∷ ids) ids' more (ground (arith, e, k, c, a)),
          )
        ]
      ]
    ]
  ]

  -- an ID that is none of the archived ones
  pub archived_ids-count :
      (id : Bytes) (items : List Value)
      → contains id (archived_ids json items) ≡ false
      → id_count json id items ≡ 0
  unfolding archived_ids
  archived_ids-count id [] h = refl
  archived_ids-count id (v ∷ items) h =
      elim (Option-cases (text_of json (field json (codes "id") v))) [
        | inl e ↦ ground (arith, e, archived_ids-count id items)
        | inr (new, e) ↦ ground (arith, e, text-has_id id new v e, archived_ids-count id items)
      ]

  pub keep_archived-count :
      (id : Bytes) (newly archive : List Value)
      → id_count json id (keep_archived json newly archive) ≤ id_count json id archive
  unfolding keep_archived
  keep_archived-count id newly [] = omega arith
  keep_archived-count id newly (v ∷ archive) = ground (arith, keep_archived-count id newly archive)
