-- ===== src/Reconcile/SafeUpdate.antt =====
-- `update_item` and `new_item` of src-tauri/src/reconcile.rs never panic over a validated assignment.
use duegood.Base.{
  false, ◌&&◌, Option, none, some, List, [], ◌∷◌, Bytes, codes, same, is_some, ok, Bool-cases,
  Option-cases, Result-cases, ◌≡◌, refl, inl, inr, arith,
}
use duegood.Reconcile.Values.{Values, IsLawful, field, same_option}
use duegood.Reconcile.References.{
  is_canvas_reference, is_feed_reference, adopted_reference, reference_list, find_reference,
  canvas_reference_for, push_reference, append_canvas_reference, item_ical_owner, find_feed,
}
use duegood.Reconcile.Checks.{reference_key, item_references}
use duegood.Reconcile.Due.{
  observed, selected_of, observe_again, observe_first, observations_of, next_fact, write_fact,
  merge_canvas_due_fact,
}
use duegood.Reconcile.Safe.{panics}
use duegood.Reconcile.SafeChecks.{reference_key-safe, item_references-safe}

module _ (json : Values) (lawful : IsLawful json) where
  open json use {Value, Map, as_object, as_array, as_str, get, object}

  -- a reference, if any, is an object
  abbrev pub IsReference : Option Value → Type 0
  IsReference r = (v : Value) → r ≡ some v → (m : Map) × (as_object v ≡ some m)

  find_reference-safe :
      (course canvas_id : Bytes) (references : List Map)
      → panics (find_reference json course canvas_id references) ≡ false
  unfolding panics find_reference
  find_reference-safe course canvas_id [] = refl
  find_reference-safe course canvas_id (reference ∷ references) =
      elim (Result-cases (reference_key json reference)) [
        | inr (x, e) ↦ ground (arith, e, reference_key-safe json reference)
        | inl (key, e) ↦ elim (Bool-cases (same key.course course)) [
          | inr c ↦ ground (arith, e, c, find_reference-safe course canvas_id references)
          | inl c ↦ elim (Bool-cases (is_canvas_reference canvas_id key)) [
            | inl k ↦ ground (arith, e, c, k)
            | inr k ↦ elim (Bool-cases (is_feed_reference canvas_id key)) [
              | inl f ↦ ground (arith, e, c, k, f)
              | inr f ↦ ground (arith, e, c, k, f, find_reference-safe course canvas_id references)
            ]
          ]
        ]
      ]

  find_reference-IsReference :
      (course canvas_id : Bytes) (references : List Map) (r : Option Value)
      → find_reference json course canvas_id references ≡ ok r
      → IsReference r
  unfolding find_reference
  find_reference-IsReference course canvas_id [] r h v q = ground arith
  find_reference-IsReference course canvas_id (reference ∷ references) r h v q =
      elim (Result-cases (reference_key json reference)) [
        | inr (x, e) ↦ ground (arith, e)
        | inl (key, e) ↦ elim (Bool-cases (same key.course course)) [
          | inr c ↦
              find_reference-IsReference course canvas_id references r (ground (arith, e, c)) v q
          | inl c ↦ elim (Bool-cases (is_canvas_reference canvas_id key)) [
            | inl k ↦ (reference, ground (arith, e, c, k, lawful.as_object-object reference))
            | inr k ↦ elim (Bool-cases (is_feed_reference canvas_id key)) [
              | inl f ↦
                  let m = adopted_reference json key.institution course canvas_id in
                  (m, ground (arith, e, c, k, f, lawful.as_object-object m))
              | inr f ↦
                  find_reference-IsReference course canvas_id references r
                    (ground (arith, e, c, k, f)) v q
            ]
          ]
        ]
      ]

  push_reference-safe :
      (target : Map) (reference : Value) → panics (push_reference json target reference) ≡ false
  unfolding panics push_reference
  push_reference-safe target reference =
      elim (Option-cases (as_array (reference_list json target))) [
        | inl e ↦ ground (arith, e)
        | inr (vs, e) ↦ ground (arith, e)
      ]

  pub append-safe :
      (target : Map) (course canvas_id : Bytes)
      → panics (append_canvas_reference json target course canvas_id) ≡ false
  unfolding panics append_canvas_reference canvas_reference_for
  append-safe target course canvas_id = elim (Result-cases (item_references json (object target))) [
    | inr (x, e) ↦ ground (arith, e, item_references-safe json (object target))
    | inl (rs, e) ↦ elim (Result-cases (find_reference json course canvas_id rs)) [
      | inr (x, f) ↦ ground (arith, e, f, find_reference-safe course canvas_id rs)
      | inl (none, f) ↦ ground (arith, e, f)
      | inl (some r, f) ↦ elim (Result-cases (push_reference json target r)) [
        | inr (x, p) ↦ ground (arith, e, f, p, push_reference-safe target r)
        | inl (m, p) ↦ ground (arith, e, f, p)
      ]
    ]
  ]

  pub append-IsReference :
      (target linked : Map) (course canvas_id : Bytes) (r : Option Value)
      → append_canvas_reference json target course canvas_id ≡ ok (linked, r)
      → IsReference r
  unfolding append_canvas_reference canvas_reference_for
  append-IsReference target linked course canvas_id r h v q =
      elim (Result-cases (item_references json (object target))) [
        | inr (x, e) ↦ ground (arith, e)
        | inl (rs, e) ↦ elim (Result-cases (find_reference json course canvas_id rs)) [
          | inr (x, f) ↦ ground (arith, e, f)
          | inl (none, f) ↦ ground (arith, e, f)
          | inl (some w, f) ↦ elim (Result-cases (push_reference json target w)) [
            | inr (x, p) ↦ ground (arith, e, f, p)
            | inl (m, p) ↦
                find_reference-IsReference course canvas_id rs (some w) f v
                  (ground (arith, e, f, p))
          ]
        ]
      ]

  observed-safe : (target : Map) → panics (observed json target) ≡ false
  unfolding panics observed
  observed-safe target = elim (Option-cases (get (codes "fieldObservations") target)) [
    | inl e ↦ ground (arith, e)
    | inr (v, e) ↦ elim (Option-cases (as_object v)) [
      | inl o ↦ ground (arith, e, o)
      | inr (m, o) ↦ ground (arith, e, o)
    ]
  ]

  -- the owner of the selected fact, if it is an object
  abbrev owner_of : Map → Option Map
  owner_of selected = elim (get (codes "owner") selected) [ none ↦ none | some v ↦ as_object v ]

  observe_again-safe :
      (existing local reference : Value) (stamp : Bytes) (owner : Map)
      → as_object reference ≡ some owner
      → panics (observe_again json existing local reference stamp) ≡ false
  unfolding panics observe_again
  observe_again-safe existing local reference stamp owner r =
      elim (Option-cases (as_object existing)) [
        | inl e ↦ ground (arith, e)
        | inr (m, e) ↦ elim (Option-cases (as_object (selected_of json existing))) [
          | inl s ↦ ground (arith, e, s)
          | inr (selected, s) ↦ elim (Option-cases (owner_of selected)) [
            | inl o ↦ ground (arith, e, s, o)
            | inr (by, o) ↦ elim (Bool-cases (is_some (get (codes "value") selected))) [
              | inr v ↦ ground (arith, e, s, o, v)
              | inl v ↦
                  elim (Bool-cases (
                    json.same_value (object by) (object owner)
                    && same_option json (get (codes "value") selected) (some local))) [
                      | inl k ↦ ground (arith, e, s, o, v, r, k)
                      | inr k ↦ ground (arith, e, s, o, v, r, k)
                    ]
            ]
          ]
        ]
      ]

  observe_first-safe :
      (target : Map) (local reference : Value) (stamp : Bytes)
      → panics (observe_first json target local reference stamp) ≡ false
  unfolding panics observe_first item_ical_owner
  observe_first-safe target local reference stamp =
      elim (Result-cases (item_references json (object target))) [
        | inr (x, e) ↦ ground (arith, e, item_references-safe json (object target))
        | inl (rs, e) ↦ elim (Option-cases (find_feed json rs)) [
          | inl f ↦ ground (arith, e, f)
          | inr (v, f) ↦ ground (arith, e, f)
        ]
      ]

  write_fact-safe : (target : Map) (next : Value) → panics (write_fact json target next) ≡ false
  unfolding panics write_fact
  write_fact-safe target next =
      elim (Option-cases (field json (codes "value") (selected_of json next))) [
        | inl e ↦ ground (arith, e)
        | inr (v, e) ↦ elim (Option-cases (as_object (observations_of json target))) [
          | inl o ↦ ground (arith, e, o)
          | inr (m, o) ↦ ground (arith, e, o)
        ]
      ]

  pub merge-safe :
      (target : Map) (local reference : Value) (stamp : Bytes) (owner : Map)
      → as_object reference ≡ some owner
      → panics (merge_canvas_due_fact json target local reference stamp) ≡ false
  unfolding panics merge_canvas_due_fact next_fact
  merge-safe target local reference stamp owner r = elim (Result-cases (observed json target)) [
    | inr (x, e) ↦ ground (arith, e, observed-safe target)
    | inl (none, e) ↦ elim (Result-cases (observe_first json target local reference stamp)) [
      | inr (x, f) ↦ ground (arith, e, f, observe_first-safe target local reference stamp)
      | inl (next, f) ↦ ground (arith, e, f, write_fact-safe target next)
    ]
    | inl (some v, e) ↦ elim (Result-cases (observe_again json v local reference stamp)) [
      | inr (x, f) ↦ ground (arith, e, f, observe_again-safe v local reference stamp owner r)
      | inl (next, f) ↦ ground (arith, e, f, write_fact-safe target next)
    ]
  ]
