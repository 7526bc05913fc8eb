-- ===== src/Reconcile/Placed.antt =====
-- Where the loop over the local items of src-tauri/src/reconcile.rs puts them.
use duegood.Base.{
  ℕ, false, ◌&&◌, Option, none, some, List, Bytes, codes, same, some_and, ok, Bool-cases,
  Option-cases, Result-cases, ◌≡◌, refl, subst, inl, inr, arith,
}
use duegood.Reconcile.Values.{
  Values, IsLawful, Clock, CourseAssignments, field, text_of, identity_of,
}
use duegood.Reconcile.Checks.{HashMap, find_key, has_key, contains}
use duegood.Reconcile.Update.{update_item}
use duegood.Reconcile.Courses.{ignored_ids}
use duegood.Reconcile.Items.{
  Matches, matched, Placement, kept, archived, updated, place_matched, place_canvas, place_rest,
  place_other, place_object, place_item, is_personal_live_item, text_or_empty,
}
use duegood.Reconcile.Frame.{is_canvas_field}
use duegood.Reconcile.Updated.{update_item-field}

module _ (json : Values) where
  open json use {Value}

  -- the fields that an assignment may not write are the same
  abbrev pub IsSameWork : Value → Value → Type 0
  IsSameWork v w =
      (name : Bytes) → is_canvas_field name ≡ false → field json name w ≡ field json name v

  -- An item is kept or archived as it is, or updated within the fields of an assignment.
  unfoldable pub IsPlaced : Value → Placement json → Type 0
  IsPlaced v (kept w) = w ≡ v
  IsPlaced v (archived w) = w ≡ v
  IsPlaced v (updated w _) = IsSameWork v w

  module _ (lawful : IsLawful json) (clock : Clock) (tokens : Bytes → List Bytes)
      (captured_at : clock.SystemTime) (local_courses : List Value)
      (captures : HashMap (CourseAssignments json)) (matches : Matches) where
    matched-IsPlaced :
        (ignored p : Placement json) (v : Value) (capture : CourseAssignments json) (key : Bytes)
        (found : Value × Bytes)
        → IsPlaced v ignored
        → place_matched json clock tokens captured_at local_courses captures matches ignored v
            capture key found
          ≡ ok p
        → IsPlaced v p
    unfolding place_matched IsPlaced
    matched-IsPlaced ignored p v capture key (assignment, id) i h =
        elim (Result-cases (ignored_ids json local_courses key)) [
          | inr (x, e) ↦ ground (arith, e)
          | inl (ids, e) ↦ elim (Bool-cases (contains id ids)) [
            | inl c ↦ let q : ignored ≡ p = ground (arith, e, c) in subst (IsPlaced v) q i
            | inr c ↦
                elim (Result-cases
                  (update_item json clock tokens v assignment capture id captured_at)) [
                    | inr (x, k) ↦ ground (arith, e, c, k)
                    | inl (w, k) ↦
                        let q : updated w (key, id) ≡ p = ground (arith, e, c, k) in
                        subst (IsPlaced v) q (λ name other.
                          update_item-field json lawful name other clock tokens v w assignment
                            capture id captured_at k)
                  ]
          ]
        ]

    canvas-IsPlaced :
        (index : ℕ) (v : Value) (key canvas_id : Option Bytes) (p : Placement json)
        → place_canvas json clock tokens captured_at local_courses captures matches index v key
            canvas_id
          ≡ ok p
        → IsPlaced v p
    unfolding place_canvas IsPlaced
    canvas-IsPlaced index v none canvas_id p h =
        let q : kept v ≡ p = ground (arith) in subst (IsPlaced v) q refl
    canvas-IsPlaced index v (some key) canvas_id p h = elim (Option-cases (find_key key captures)) [
      | inl e ↦ let q : kept v ≡ p = ground (arith, e) in subst (IsPlaced v) q refl
      | inr (capture, e) ↦
          elim (Option-cases (matched json matches key index capture.assignments)) [
            | inr (found, m) ↦
                matched-IsPlaced (archived v) p v capture key found refl (ground (arith, e, m))
            | inl m ↦ elim (Option-cases canvas_id) [
              | inl c ↦ let q : kept v ≡ p = ground (arith, e, m, c) in subst (IsPlaced v) q refl
              | inr (id, c) ↦
                  let q : archived v ≡ p = ground (arith, e, m, c) in subst (IsPlaced v) q refl
            ]
          ]
    ]

    rest-IsPlaced :
        (v : Value) (source : Bytes) (key : Option Bytes) (p : Placement json)
        → place_rest json clock tokens captured_at local_courses captures matches v source key ≡ p
        → IsPlaced v p
    unfolding place_rest IsPlaced
    rest-IsPlaced v source key p h =
        elim (Bool-cases
          (same source (codes "syllabus") && some_and (λ k. has_key k captures) key)) [
            | inl e ↦ let q : archived v ≡ p = ground (arith, e) in subst (IsPlaced v) q refl
            | inr e ↦ let q : kept v ≡ p = ground (arith, e) in subst (IsPlaced v) q refl
          ]

    other-IsPlaced :
        (index : ℕ) (v : Value) (source : Bytes) (key : Option Bytes) (p : Placement json)
        → place_other json clock tokens captured_at local_courses captures matches index v source
            key
          ≡ ok p
        → IsPlaced v p
    unfolding place_other IsPlaced
    other-IsPlaced index v source none p h = rest-IsPlaced v source none p (ground arith)
    other-IsPlaced index v source (some key) p h = elim (Option-cases (find_key key captures)) [
      | inl e ↦ rest-IsPlaced v source (some key) p (ground (arith, e))
      | inr (capture, e) ↦
          elim (Option-cases (matched json matches key index capture.assignments)) [
            | inr (found, m) ↦
                matched-IsPlaced (kept v) p v capture key found refl (ground (arith, e, m))
            | inl m ↦ rest-IsPlaced v source (some key) p (ground (arith, e, m))
          ]
    ]

    place_object-IsPlaced :
        (index : ℕ) (v : Value) (p : Placement json)
        → place_object json clock tokens captured_at local_courses captures matches index v ≡ ok p
        → IsPlaced v p
    unfolding place_object IsPlaced
    place_object-IsPlaced index v p h =
        let kind = text_or_empty (text_of json (field json (codes "kind") v)) in
        let source = text_or_empty (text_of json (field json (codes "source") v)) in
        let key = text_of json (field json (codes "course") v) in
        elim (Bool-cases (is_personal_live_item kind source)) [
          | inl e ↦ let q : kept v ≡ p = ground (arith, e) in subst (IsPlaced v) q refl
          | inr e ↦ elim (Bool-cases (same source (codes "canvas"))) [
            | inl c ↦
                canvas-IsPlaced index v key (identity_of json (field json (codes "canvasId") v)) p
                  (ground (arith, e, c))
            | inr c ↦ other-IsPlaced index v source key p (ground (arith, e, c))
          ]
        ]

    pub place_item-IsPlaced :
        (index : ℕ) (v : Value) (p : Placement json)
        → place_item json clock tokens captured_at local_courses captures matches index v ≡ ok p
        → IsPlaced v p
    unfolding place_item
    place_item-IsPlaced index v p h = elim (Option-cases (json.as_object v)) [
      | inl o ↦ ground (arith, o)
      | inr (m, o) ↦ place_object-IsPlaced index v p (ground (arith, o))
    ]
