-- ===== src/Reconcile/Safe.antt =====
-- The checks of src-tauri/src/reconcile.rs report what they refuse, and never panic.
use duegood.Base.{
  ℕ, suc, Bool, true, false, some, List, [], ◌∷◌, Bytes, codes, is_some, Result, ok, err,
  Bool-cases, Option-cases, Result-cases, ◌≡◌, refl, inl, inr, arith,
}
use duegood.Reconcile.Values.{
  Values, ReconcileError, invalid, panic, CourseAssignments, field, text_of, filled, identity_of,
}
use duegood.Reconcile.Checks.{
  Identity, HashMap, has_key, contains, seen_before, course_key, index_courses, validate_groups,
  validate_assignment, validate_assignments, validate_capture, index_captures, local_identity,
  add_identity, item_id, index_ids, archive_of, bad_submission,
}

unfoldable pub panics : {A : Type 0} → Result ReconcileError A → Bool
panics (ok _) = false
panics (err (invalid _)) = false
panics (err (panic _)) = true

module _ (json : Values) where
  open json use {Value, Map, as_object, as_array, as_str, get}

  -- an item with an ID
  abbrev pub HasId : Value → Type 0
  HasId v = (id : Bytes) × (text_of json (field json (codes "id") v) ≡ some id)

  -- a validated assignment's name
  abbrev pub HasName : Value → Type 0
  HasName v = (name : Bytes) × (text_of json (field json (codes "name") v) ≡ some name)

  abbrev pub HasIdentity : Value → Type 0
  HasIdentity v = (id : Bytes) × (identity_of json (field json (codes "id") v) ≡ some id)

  course_key-safe : (course : Value) → panics (course_key json course) ≡ false
  unfolding panics course_key
  course_key-safe course = elim (Option-cases (as_object course)) [
    | inl e ↦ ground (arith, e)
    | inr (m, e) ↦ elim (Option-cases (filled json (get (codes "key") m))) [
      | inl k ↦ ground (arith, e, k)
      | inr (s, k) ↦ ground (arith, e, k)
    ]
  ]

  pub index_courses-safe :
      (index : ℕ) (courses : List Value) (indexes : HashMap ℕ)
      → panics (index_courses json index courses indexes) ≡ false
  unfolding panics index_courses
  index_courses-safe index [] indexes = refl
  index_courses-safe index (course ∷ courses) indexes =
      elim (Result-cases (course_key json course)) [
        | inr (x, e) ↦ ground (arith, e, course_key-safe course)
        | inl (key, e) ↦ elim (Bool-cases (has_key key indexes)) [
          | inl k ↦ ground (arith, e, k)
          | inr k ↦
              ground (arith, e, k, index_courses-safe (suc index) courses ((key, index) ∷ indexes))
        ]
      ]

  validate_groups-safe :
      (groups : List Value) (ids : List Bytes) → panics (validate_groups json groups ids) ≡ false
  unfolding panics validate_groups
  validate_groups-safe [] ids = refl
  validate_groups-safe (group ∷ groups) ids =
      elim (Option-cases (identity_of json (field json (codes "id") group))) [
        | inl e ↦ ground (arith, e)
        | inr (id, e) ↦ elim (Bool-cases (contains id ids)) [
          | inl k ↦ ground (arith, e, k)
          | inr k ↦ ground (arith, e, k, validate_groups-safe groups (id ∷ ids))
        ]
      ]

  validate_assignment-safe :
      (assignment : Value) (ids : List Bytes)
      → panics (validate_assignment json assignment ids) ≡ false
  unfolding panics validate_assignment
  validate_assignment-safe assignment ids = elim (Bool-cases (is_some (as_object assignment))) [
    | inr o ↦ ground (arith, o)
    | inl o ↦ elim (Option-cases (identity_of json (field json (codes "id") assignment))) [
      | inl e ↦ ground (arith, o, e)
      | inr (id, e) ↦ elim (Bool-cases (contains id ids)) [
        | inl k ↦ ground (arith, o, e, k)
        | inr k ↦
            elim (Bool-cases (is_some (text_of json (field json (codes "name") assignment)))) [
              | inr n ↦ ground (arith, o, e, k, n)
              | inl n ↦ elim (Bool-cases (bad_submission json assignment)) [
                | inl b ↦ ground (arith, o, e, k, n, b)
                | inr b ↦ ground (arith, o, e, k, n, b)
              ]
            ]
      ]
    ]
  ]

  validate_assignments-safe :
      (assignments : List Value) (ids : List Bytes)
      → panics (validate_assignments json assignments ids) ≡ false
  unfolding panics validate_assignments
  validate_assignments-safe [] ids = refl
  validate_assignments-safe (assignment ∷ assignments) ids =
      elim (Result-cases (validate_assignment json assignment ids)) [
        | inr (x, e) ↦ ground (arith, e, validate_assignment-safe assignment ids)
        | inl (id, e) ↦ ground (arith, e, validate_assignments-safe assignments (id ∷ ids))
      ]

  validate_capture-safe :
      (capture : CourseAssignments json) → panics (validate_capture json capture) ≡ false
  unfolding panics validate_capture
  validate_capture-safe capture = elim (Result-cases (validate_groups json capture.groups [])) [
    | inr (x, e) ↦ ground (arith, e, validate_groups-safe capture.groups [])
    | inl (_, e) ↦ ground (arith, e, validate_assignments-safe capture.assignments [])
  ]

  pub index_captures-safe :
      (indexes : HashMap ℕ) (courses : List (CourseAssignments json))
      (captures : HashMap (CourseAssignments json))
      → panics (index_captures json indexes courses captures) ≡ false
  unfolding panics index_captures
  index_captures-safe indexes [] captures = refl
  index_captures-safe indexes (capture ∷ courses) captures =
      elim (Bool-cases (has_key capture.key indexes)) [
        | inr e ↦ ground (arith, e)
        | inl e ↦ elim (Bool-cases (has_key capture.key captures)) [
          | inl k ↦ ground (arith, e, k)
          | inr k ↦ elim (Result-cases (validate_capture json capture)) [
            | inr (x, v) ↦ ground (arith, e, k, v, validate_capture-safe capture)
            | inl (_, v) ↦ ground (
              arith,
              e,
              k,
              v,
              index_captures-safe indexes courses ((capture.key, capture) ∷ captures),
            )
          ]
        ]
      ]

  pub index_ids-safe :
      (items : List Value) (ids : List Bytes) (identities : List Identity)
      → panics (index_ids json items ids identities) ≡ false
  unfolding panics index_ids item_id add_identity
  index_ids-safe [] ids identities = refl
  index_ids-safe (item ∷ items) ids identities = elim (Option-cases (as_object item)) [
    | inl e ↦ ground (arith, e)
    | inr (m, e) ↦ elim (Option-cases (filled json (get (codes "id") m))) [
      | inl k ↦ ground (arith, e, k)
      | inr (id, k) ↦ elim (Bool-cases (contains id ids)) [
        | inl c ↦ ground (arith, e, k, c)
        | inr c ↦ elim (Option-cases (local_identity json m)) [
          | inl l ↦ ground (arith, e, k, c, l, index_ids-safe items (id ∷ ids) identities)
          | inr (i, l) ↦ elim (Bool-cases (seen_before i identities)) [
            | inl s ↦ ground (arith, e, k, c, l, s)
            | inr s ↦
                ground (arith, e, k, c, l, s, index_ids-safe items (id ∷ ids) (i ∷ identities))
          ]
        ]
      ]
    ]
  ]

  pub archive_of-safe : (root : Map) → panics (archive_of json root) ≡ false
  unfolding panics archive_of
  archive_of-safe root = ground arith
