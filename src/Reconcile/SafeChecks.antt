-- ===== src/Reconcile/SafeChecks.antt =====
-- The checks of src-tauri/src/reconcile.rs as a whole, and those of the references, never panic.
use duegood.Base.{
  false, List, [], ◌∷◌, ◌++◌, codes, any, Bool-cases, Option-cases, Result-cases, ◌≡◌, refl, inl,
  inr, arith,
}
use duegood.Reconcile.Values.{Values, CourseAssignments, field, text_of, filled}
use duegood.Reconcile.Checks.{
  ReferenceKey, same_reference, known_source, index_courses, index_local_courses, index_captures,
  index_ids, archive_of, instance_of, reference_key, reference_objects, item_references,
  own_references, validate_owners, validate_source_references,
}
use duegood.Reconcile.Coursework.{check_inputs, list_field}
use duegood.Reconcile.Safe.{
  panics, index_courses-safe, index_captures-safe, index_ids-safe, archive_of-safe,
}

module _ (json : Values) where
  open json use {Value, Map, as_object, as_array, as_str, get}

  instance_of-safe : (reference : Map) → panics (instance_of json reference) ≡ false
  unfolding panics instance_of
  instance_of-safe reference = elim (Option-cases (get (codes "instance") reference)) [
    | inl e ↦ ground (arith, e)
    | inr (v, e) ↦ elim (Option-cases (as_str v)) [
      | inl k ↦ ground (arith, e, k)
      | inr ([], k) ↦ ground (arith, e, k)
      | inr (c ∷ s, k) ↦ ground (arith, e, k)
    ]
  ]

  pub reference_key-safe : (reference : Map) → panics (reference_key json reference) ≡ false
  unfolding panics reference_key
  reference_key-safe reference =
      elim (Option-cases (filled json (get (codes "institution") reference))) [
        | inl e ↦ ground (arith, e)
        | inr (institution, e) ↦
            elim (Option-cases (filled json (get (codes "course") reference))) [
              | inl k ↦ ground (arith, e, k)
              | inr (course, k) ↦
                  elim (Option-cases
                    (known_source (text_of json (get (codes "source") reference)))) [
                      | inl s ↦ ground (arith, e, k, s)
                      | inr (source, s) ↦
                          elim (Option-cases (filled json (get (codes "id") reference))) [
                            | inl i ↦ ground (arith, e, k, s, i)
                            | inr (id, i) ↦ elim (Result-cases (instance_of json reference)) [
                              | inr (x, n) ↦
                                  ground (arith, e, k, s, i, n, instance_of-safe reference)
                              | inl (instance_id, n) ↦ ground (arith, e, k, s, i, n)
                            ]
                          ]
                    ]
            ]
      ]

  reference_objects-safe :
      (references : List Value) → panics (reference_objects json references) ≡ false
  unfolding panics reference_objects
  reference_objects-safe [] = refl
  reference_objects-safe (reference ∷ references) = elim (Option-cases (as_object reference)) [
    | inl e ↦ ground (arith, e)
    | inr (m, e) ↦ elim (Result-cases (reference_objects json references)) [
      | inr (x, k) ↦ ground (arith, e, k, reference_objects-safe references)
      | inl (ms, k) ↦ ground (arith, e, k)
    ]
  ]

  pub item_references-safe : (item : Value) → panics (item_references json item) ≡ false
  unfolding panics item_references
  item_references-safe item = elim (Option-cases (field json (codes "sourceReferences") item)) [
    | inl e ↦ ground (arith, e)
    | inr (v, e) ↦ elim (Option-cases (as_array v)) [
      | inl k ↦ ground (arith, e, k)
      | inr (vs, k) ↦ ground (arith, e, k, reference_objects-safe vs)
    ]
  ]

  own_references-safe :
      (references : List Map) (owners : List ReferenceKey)
      → panics (own_references json references owners) ≡ false
  unfolding panics own_references
  own_references-safe [] owners = refl
  own_references-safe (reference ∷ references) owners =
      elim (Result-cases (reference_key json reference)) [
        | inr (x, e) ↦ ground (arith, e, reference_key-safe reference)
        | inl (key, e) ↦ elim (Bool-cases (any (same_reference key) owners)) [
          | inl k ↦ ground (arith, e, k)
          | inr k ↦ ground (arith, e, k, own_references-safe references (key ∷ owners))
        ]
      ]

  validate_owners-safe :
      (items : List Value) (owners : List ReferenceKey)
      → panics (validate_owners json items owners) ≡ false
  unfolding panics validate_owners
  validate_owners-safe [] owners = refl
  validate_owners-safe (item ∷ items) owners =
      elim (Option-cases (filled json (field json (codes "id") item))) [
        | inl e ↦ ground (arith, e)
        | inr (id, e) ↦ elim (Result-cases (item_references json item)) [
          | inr (x, k) ↦ ground (arith, e, k, item_references-safe item)
          | inl (rs, k) ↦ elim (Result-cases (own_references json rs owners)) [
            | inr (x, o) ↦ ground (arith, e, k, o, own_references-safe rs owners)
            | inl (more, o) ↦ ground (arith, e, k, o, validate_owners-safe items more)
          ]
        ]
      ]

  pub check_inputs-safe :
      (base : Value) (courses : List (CourseAssignments json))
      → panics (check_inputs json base courses) ≡ false
  unfolding panics check_inputs index_local_courses validate_source_references
  check_inputs-safe base courses = elim (Option-cases (as_object base)) [
    | inl e ↦ ground (arith, e)
    | inr (root, e) ↦ elim (Option-cases (list_field json (codes "courses") root)) [
      | inl c ↦ ground (arith, e, c)
      | inr (cs, c) ↦ elim (Option-cases (list_field json (codes "items") root)) [
        | inl l ↦ ground (arith, e, c, l)
        | inr (items, l) ↦ elim (Result-cases (index_courses json 0 cs [])) [
          | inr (x, a) ↦ ground (arith, e, c, l, a, index_courses-safe json 0 cs [])
          | inl (indexes, a) ↦ elim (Result-cases (index_captures json indexes courses [])) [
            | inr (x, b) ↦
                ground (arith, e, c, l, a, b, index_captures-safe json indexes courses [])
            | inl (captures, b) ↦ elim (Result-cases (index_ids json items [] [])) [
              | inr (x, d) ↦ ground (arith, e, c, l, a, b, d, index_ids-safe json items [] [])
              | inl (ids, d) ↦ elim (Result-cases (archive_of json root)) [
                | inr (x, f) ↦ ground (arith, e, c, l, a, b, d, f, archive_of-safe json root)
                | inl (archive, f) ↦
                    elim (Result-cases (validate_owners json (items ++ archive) [])) [
                      | inr (x, g) ↦ ground (
                        arith,
                        e,
                        c,
                        l,
                        a,
                        b,
                        d,
                        f,
                        g,
                        validate_owners-safe (items ++ archive) [],
                      )
                      | inl (_, g) ↦ ground (arith, e, c, l, a, b, d, f, g)
                    ]
              ]
            ]
          ]
        ]
      ]
    ]
  ]
