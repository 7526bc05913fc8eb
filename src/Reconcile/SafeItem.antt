-- ===== src/Reconcile/SafeItem.antt =====
-- `update_item` and `new_item` of src-tauri/src/reconcile.rs never panic over a validated assignment.
use duegood.Base.{
  true, false, not, Option, none, some, List, [], ◌∷◌, Bytes, codes, same, all, ok, Bool-cases,
  Option-cases, Result-cases, ◌≡◌, ◌∙◌, refl, ap, subst, inl, inr, arith,
}
use duegood.Reconcile.Values.{
  Values, IsLawful, Clock, CourseAssignments, field, field-eq, text_of, identity_key, insert_all,
}
use duegood.Reconcile.References.{append_canvas_reference}
use duegood.Reconcile.Due.{local_time, patch_due_at}
use duegood.Reconcile.Update.{
  patch_optional, patch_group, patch_submission, set_title, set_source, patch_all, update_item,
  blank_item, new_item, new_id,
}
use duegood.Reconcile.Frame.{is_canvas_field}
use duegood.Reconcile.Updated.{patch_lem, update_item-field}
use duegood.Reconcile.Safe.{panics, HasId, HasName}
use duegood.Reconcile.SafeUpdate.{IsReference, append-safe, append-IsReference, merge-safe}

module _ (json : Values) (lawful : IsLawful json) where
  open json use {Value, Map, as_object, as_str, get, insert, object, is_null}

  group-safe :
      (m : Map) (assignment : Value) (capture : CourseAssignments json)
      → panics (patch_group json m assignment capture) ≡ false
  unfolding panics patch_group
  group-safe m assignment capture =
      elim (Option-cases (field json (codes "assignment_group_id") assignment)) [
        | inl e ↦ ground (arith, e)
        | inr (v, e) ↦ elim (Bool-cases (is_null v)) [
          | inl n ↦ ground (arith, e, n)
          | inr n ↦ elim (Option-cases (identity_key json v)) [
            | inl k ↦ ground (arith, e, n, k)
            | inr (id, k) ↦ ground (arith, e, n, k)
          ]
        ]
      ]

  submission-safe :
      (m : Map) (assignment : Value) → panics (patch_submission json m assignment) ≡ false
  unfolding panics patch_submission
  submission-safe m assignment = elim (Option-cases (field json (codes "submission") assignment)) [
    | inl e ↦ ground (arith, e)
    | inr (v, e) ↦ elim (Bool-cases (is_null v)) [
      | inl n ↦ ground (arith, e, n)
      | inr n ↦ elim (Option-cases (as_object v)) [
        | inl k ↦ ground (arith, e, n, k)
        | inr (fs, k) ↦ ground (arith, e, n, k)
      ]
    ]
  ]

  -- an entry under another name
  insert_all-other :
      (name : Bytes) (es : List (Bytes × Value)) (m : Map)
      → all (λ e. not (same name e.0)) es ≡ true
      → get name (insert_all json es m) ≡ get name m
  unfolding insert_all
  insert_all-other name [] m h = refl
  insert_all-other name ((key, v) ∷ es) m h =
      insert_all-other name es (insert key v m) (ground arith)
      ∙ lawful.get-insert_other name key v m (ground arith)

  insert_all-first :
      (name : Bytes) (v : Value) (es : List (Bytes × Value)) (m : Map)
      → all (λ e. not (same name e.0)) es ≡ true
      → get name (insert_all json ((name, v) ∷ es) m) ≡ some v
  unfolding insert_all
  insert_all-first name v es m h =
      insert_all-other name es (insert name v m) h ∙ lawful.get-insert name v m

  module _ (clock : Clock) (tokens : Bytes → List Bytes)
      (no_panic : (s : Bytes) → panics (clock.utc_to_new_york s) ≡ false) where
    time-safe : (v : Value) → panics (local_time json clock v) ≡ false
    unfolding panics local_time
    time-safe v = elim (Bool-cases (is_null v)) [
      | inl n ↦ ground (arith, n)
      | inr n ↦ elim (Option-cases (as_str v)) [
        | inl s ↦ ground (arith, n, s)
        | inr (t, s) ↦ elim (Result-cases (clock.utc_to_new_york t)) [
          | inr (x, u) ↦ ground (arith, n, s, u, no_panic t)
          | inl (w, u) ↦ ground (arith, n, s, u)
        ]
      ]
    ]

    due-safe :
        (m : Map) (assignment : Value) (reference : Option Value) (at : clock.SystemTime)
        → IsReference json lawful reference
        → panics (patch_due_at json clock m assignment reference at) ≡ false
    unfolding panics patch_due_at
    due-safe m assignment reference at r =
        elim (Option-cases (field json (codes "due_at") assignment)) [
          | inl e ↦ ground (arith, e)
          | inr (v, e) ↦ elim (Result-cases (local_time json clock v)) [
            | inr (x, t) ↦ ground (arith, e, t, time-safe v)
            | inl (local, t) ↦ elim (Option-cases reference) [
              | inl n ↦ ground (arith, e, t, n)
              | inr (w, n) ↦
                  let (owner, o) = r w n in
                  ground
                    (arith, e, t, n, merge-safe json lawful m local w (clock.utc_stamp at) owner o)
            ]
          ]
        ]

    patch-safe :
        (m : Map) (assignment : Value) (capture : CourseAssignments json) (reference : Option Value)
        (at : clock.SystemTime)
        → IsReference json lawful reference
        → panics (patch_all json clock tokens m assignment capture reference at) ≡ false
    unfolding panics patch_all
    patch-safe m assignment capture reference at r =
        elim (Result-cases (patch_due_at json clock m assignment reference at)) [
          | inr (x, e) ↦ ground (arith, e, due-safe m assignment reference at r)
          | inl (due, e) ↦
              let points =
                patch_optional json due (codes "points") assignment (codes "points_possible") in
              let url = patch_optional json points (codes "url") assignment (codes "html_url") in
              elim (Result-cases (patch_group json url assignment capture)) [
                | inr (x, g) ↦ ground (arith, e, g, group-safe url assignment capture)
                | inl (grouped, g) ↦ ground (arith, e, g, submission-safe grouped assignment)
              ]
        ]

    pub update_item-safe :
        (item assignment : Value) (capture : CourseAssignments json) (canvas_id : Bytes)
        (at : clock.SystemTime)
        → HasName json assignment
        → panics (update_item json clock tokens item assignment capture canvas_id at) ≡ false
    unfolding panics update_item
    update_item-safe item assignment capture canvas_id at (name, n) =
        elim (Option-cases (as_object item)) [
          | inl o ↦ ground (arith, o)
          | inr (m, o) ↦
              let sourced = set_source json clock tokens (set_title json m name) assignment in
              elim (Result-cases (append_canvas_reference json sourced capture.key canvas_id)) [
                | inr (x, a) ↦
                    ground (arith, o, n, a, append-safe json lawful sourced capture.key canvas_id)
                | inl ((linked, reference), a) ↦
                    let r =
                      append-IsReference json lawful sourced linked capture.key canvas_id reference
                        a in
                    let p = patch-safe linked assignment capture reference at r in
                    elim (Result-cases
                      (patch_all json clock tokens linked assignment capture reference at)) [
                        | inr (x, k) ↦ ground (arith, o, n, a, k, p)
                        | inl (patched, k) ↦ ground (arith, o, n, a, k)
                      ]
              ]
        ]

    pub new_item-safe :
        (key : Bytes) (assignment : Value) (capture : CourseAssignments json) (canvas_id : Bytes)
        (at : clock.SystemTime)
        → HasName json assignment
        → panics (new_item json clock tokens key assignment capture canvas_id at) ≡ false
    unfolding panics new_item
    new_item-safe key assignment capture canvas_id at (name, n) =
        let blank = blank_item json clock tokens key assignment name canvas_id in
        let p = patch-safe blank assignment capture none at (λ v q. ground arith) in
        elim (Result-cases (patch_all json clock tokens blank assignment capture none at)) [
          | inr (x, k) ↦ ground (arith, n, k, p, lawful.as_object-object blank)
          | inl (patched, k) ↦ ground (arith, n, k, lawful.as_object-object blank)
        ]

    -- an item keeps its ID in an update
    pub update_item-HasId :
        (item item' assignment : Value) (capture : CourseAssignments json) (canvas_id : Bytes)
        (at : clock.SystemTime)
        → update_item json clock tokens item assignment capture canvas_id at ≡ ok item'
        → HasId json item
        → HasId json item'
    unfolding is_canvas_field
    update_item-HasId item item' assignment capture canvas_id at h (id, e) =
        let q =
          update_item-field json lawful (codes "id") refl clock tokens item item' assignment capture
            canvas_id at h in
        (id, ground (arith, q, e))

    blank_lem :
        (key name : Bytes) (assignment : Value) (canvas_id : Bytes)
        → get (codes "id") (blank_item json clock tokens key assignment name canvas_id)
          ≡ some (json.string (new_id json clock tokens key canvas_id))
    unfolding blank_item
    blank_lem key name assignment canvas_id =
        insert_all-first (codes "id") (json.string (new_id json clock tokens key canvas_id)) _
          json.new_map refl

    -- a new item has the generated ID
    pub new_item-id :
        (key : Bytes) (item assignment : Value) (capture : CourseAssignments json)
        (canvas_id : Bytes) (at : clock.SystemTime)
        → new_item json clock tokens key assignment capture canvas_id at ≡ ok item
        → text_of json (field json (codes "id") item)
          ≡ some (new_id json clock tokens key canvas_id)
    unfolding new_item is_canvas_field
    new_item-id key item assignment capture canvas_id at h =
        elim (Option-cases (text_of json (field json (codes "name") assignment))) [
          | inl n ↦ ground (arith, n)
          | inr (name, n) ↦
              let blank = blank_item json clock tokens key assignment name canvas_id in
              elim (Result-cases (patch_all json clock tokens blank assignment capture none at)) [
                | inr (x, k) ↦ ground (arith, n, k, lawful.as_object-object blank)
                | inl (m, k) ↦
                    let q : object m ≡ item = ground (arith, n, k, lawful.as_object-object blank) in
                    let l =
                      patch_lem json lawful (codes "id") refl clock tokens blank m assignment
                        capture none at k in
                    let f : get (codes "id") m
                        ≡ some (json.string (new_id json clock tokens key canvas_id)) =
                      l ∙ blank_lem key name assignment canvas_id in
                    subst
                      (λ v.
                        text_of json (field json (codes "id") v)
                        ≡ some (new_id json clock tokens key canvas_id))
                      q
                      (ap (text_of json)
                          (field-eq json (codes "id") (object m) m (lawful.as_object-object m) ∙ f)
                        ∙ lawful.as_str-string (new_id json clock tokens key canvas_id))
              ]
        ]
