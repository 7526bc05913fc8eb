-- ===== src/Reconcile/SafePlaces.antt =====
-- The loop over the local items in src-tauri/src/reconcile.rs never panics over validated captures.
use duegood.Base.{
  ℕ, suc, false, Option, none, some, List, [], ◌∷◌, Bytes, codes, same, All, Bool-cases,
  Option-cases, Result-cases, ◌≡◌, refl, subst, ◌⊎◌, inl, inr, arith,
}
use duegood.Reconcile.Values.{
  Values, IsLawful, Clock, CourseAssignments, field, text_of, identity_key, identity_of,
}
use duegood.Reconcile.Checks.{HashMap, find_key, contains}
use duegood.Reconcile.Update.{update_item}
use duegood.Reconcile.Courses.{find_course, identities_of, ignored_ids}
use duegood.Reconcile.Items.{
  Matches, is_at, find_match, any_malformed, matching, add_match, match_assignments, match_courses,
  matched, Placement, kept, archived, place_matched, place_canvas, place_other, place_object,
  place_item, Places, record_place, place_items, is_personal_live_item, text_or_empty,
}
use duegood.Reconcile.Safe.{panics, HasId, HasName, HasIdentity}
use duegood.Reconcile.SafeItem.{update_item-safe}
use duegood.Reconcile.Validated.{IsValid}

List-cases : {A : Type 0} (xs : List A) → (xs ≡ []) ⊎ ((x : A) × (ys : List A) × (xs ≡ x ∷ ys))
List-cases [] = inl refl
List-cases (x ∷ xs) = inr (x, xs, refl)

module _ (json : Values) where
  open json use {Value}

  identities_of-safe : (vs : List Value) → panics (identities_of json vs) ≡ false
  unfolding panics identities_of
  identities_of-safe [] = refl
  identities_of-safe (v ∷ vs) = elim (Option-cases (identity_key json v)) [
    | inl e ↦ ground (arith, e)
    | inr (id, e) ↦ elim (Result-cases (identities_of json vs)) [
      | inr (x, k) ↦ ground (arith, e, k, identities_of-safe vs)
      | inl (ids, k) ↦ ground (arith, e, k)
    ]
  ]

  pub ignored_ids-safe :
      (courses : List Value) (key : Bytes) → panics (ignored_ids json courses key) ≡ false
  unfolding panics ignored_ids
  ignored_ids-safe courses key = elim (Option-cases (find_course json key courses)) [
    | inl e ↦ ground (arith, e)
    | inr (course, e) ↦
        elim (Option-cases (field json (codes "ignoredCanvasAssignmentIds") course)) [
          | inl f ↦ ground (arith, e, f)
          | inr (v, f) ↦ elim (Option-cases (json.as_array v)) [
            | inl a ↦ ground (arith, e, f, a)
            | inr (vs, a) ↦ ground (arith, e, f, a, identities_of-safe vs)
          ]
        ]
  ]

  match_assignments-safe :
      (items : List Value) (course : Bytes) (assignments : List Value) (matches : Matches)
      → All (λ a. HasIdentity json a × HasName json a) assignments
      → panics (match_assignments json items course assignments matches) ≡ false
  unfolding panics match_assignments add_match
  match_assignments-safe items course [] matches h = refl
  match_assignments-safe items course (assignment ∷ assignments) matches (((id, e), _), h) =
      elim (Bool-cases (any_malformed json course id items)) [
        | inl k ↦ ground (arith, e, k)
        | inr k ↦ elim (List-cases (matching json course id 0 items)) [
          | inl m ↦
              ground (arith, e, k, m, match_assignments-safe items course assignments matches h)
          | inr (i, [], m) ↦ ground (
            arith,
            e,
            k,
            m,
            match_assignments-safe items course assignments (((course, id), i) ∷ matches) h,
          )
          | inr (i, j ∷ is, m) ↦ ground (arith, e, k, m)
        ]
      ]

  pub match_courses-safe :
      (P : CourseAssignments json → Type 0) (items : List Value)
      (courses : List (CourseAssignments json)) (matches : Matches)
      → All (λ c. IsValid json c × P c) courses
      → panics (match_courses json items courses matches) ≡ false
  unfolding panics match_courses
  match_courses-safe P items [] matches h = refl
  match_courses-safe P items (capture ∷ courses) matches ((v, _), h) =
      elim (Result-cases (match_assignments json items capture.key capture.assignments matches)) [
        | inr (x, e) ↦
            ground
              (arith, e, match_assignments-safe items capture.key capture.assignments matches v.1)
        | inl (more, e) ↦ ground (arith, e, match_courses-safe P items courses more h)
      ]

  matched-HasName :
      (matches : Matches) (key : Bytes) (index : ℕ) (assignments : List Value)
      (found : Value × Bytes)
      → All (λ a. HasIdentity json a × HasName json a) assignments
      → matched json matches key index assignments ≡ some found
      → HasName json found.0
  unfolding matched
  matched-HasName matches key index [] found h e = cc
  matched-HasName matches key index (assignment ∷ assignments) found (((id, i), n), h) e =
      elim (Bool-cases (is_at index (find_match (key, id) matches))) [
        | inl k ↦
            let q : (assignment, id) ≡ found = ground (arith, i, k) in
            subst (λ f. HasName json f.0) q n
        | inr k ↦ matched-HasName matches key index assignments found h (ground (arith, i, k))
      ]

  module _ (lawful : IsLawful json) (clock : Clock) (tokens : Bytes → List Bytes)
      (captured_at : clock.SystemTime)
      (no_panic : (s : Bytes) → panics (clock.utc_to_new_york s) ≡ false)
      (local_courses : List Value) (captures : HashMap (CourseAssignments json))
      (valid : (key : Bytes) (c : CourseAssignments json)
        → find_key key captures ≡ some c
        → IsValid json c)
      (matches : Matches) where
    matched-safe :
        (ignored : Placement json) (v : Value) (capture : CourseAssignments json) (key : Bytes)
        (found : Value × Bytes)
        → HasName json found.0
        → panics (
            place_matched json clock tokens captured_at local_courses captures matches ignored v
              capture key found)
          ≡ false
    unfolding panics place_matched
    matched-safe ignored v capture key (assignment, id) n =
        elim (Result-cases (ignored_ids json local_courses key)) [
          | inr (x, e) ↦ ground (arith, e, ignored_ids-safe local_courses key)
          | inl (ids, e) ↦ elim (Bool-cases (contains id ids)) [
            | inl c ↦ ground (arith, e, c)
            | inr c ↦
                elim (Result-cases
                  (update_item json clock tokens v assignment capture id captured_at)) [
                    | inr (x, u) ↦ ground (
                      arith,
                      e,
                      c,
                      u,
                      update_item-safe json lawful clock tokens no_panic v assignment capture id
                          captured_at n,
                    )
                    | inl (w, u) ↦ ground (arith, e, c, u)
                  ]
          ]
        ]

    canvas-safe :
        (index : ℕ) (v : Value) (key canvas_id : Option Bytes)
        → panics (
            place_canvas json clock tokens captured_at local_courses captures matches index v key
              canvas_id)
          ≡ false
    unfolding panics place_canvas
    canvas-safe index v none canvas_id = refl
    canvas-safe index v (some key) canvas_id = elim (Option-cases (find_key key captures)) [
      | inl e ↦ ground (arith, e)
      | inr (capture, e) ↦
          elim (Option-cases (matched json matches key index capture.assignments)) [
            | inl m ↦ ground (arith, e, m)
            | inr (found, m) ↦
                let (_, a) = valid key capture e in
                ground (
                  arith,
                  e,
                  m,
                  matched-safe (archived v) v capture key found
                      (matched-HasName matches key index capture.assignments found a m),
                )
          ]
    ]

    other-safe :
        (index : ℕ) (v : Value) (source : Bytes) (key : Option Bytes)
        → panics (
            place_other json clock tokens captured_at local_courses captures matches index v source
              key)
          ≡ false
    unfolding panics place_other
    other-safe index v source none = refl
    other-safe index v source (some key) = elim (Option-cases (find_key key captures)) [
      | inl e ↦ ground (arith, e)
      | inr (capture, e) ↦
          elim (Option-cases (matched json matches key index capture.assignments)) [
            | inl m ↦ ground (arith, e, m)
            | inr (found, m) ↦
                let (_, a) = valid key capture e in
                ground (
                  arith,
                  e,
                  m,
                  matched-safe (kept v) v capture key found
                      (matched-HasName matches key index capture.assignments found a m),
                )
          ]
    ]

    object-safe :
        (index : ℕ) (v : Value)
        → panics (place_object json clock tokens captured_at local_courses captures matches index v)
          ≡ false
    unfolding panics place_object
    object-safe index v =
        let kind = text_or_empty (text_of json (field json (codes "kind") v)) in
        let source = text_or_empty (text_of json (field json (codes "source") v)) in
        let key = text_of json (field json (codes "course") v) in
        elim (Bool-cases (is_personal_live_item kind source)) [
          | inl e ↦ ground (arith, e)
          | inr e ↦ elim (Bool-cases (same source (codes "canvas"))) [
            | inl c ↦ ground (
              arith,
              e,
              c,
              canvas-safe index v key (identity_of json (field json (codes "canvasId") v)),
            )
            | inr c ↦ ground (arith, e, c, other-safe index v source key)
          ]
        ]

    -- An item with an ID is an object.
    item-safe :
        (index : ℕ) (v : Value)
        → HasId json v
        → panics (place_item json clock tokens captured_at local_courses captures matches index v)
          ≡ false
    unfolding panics place_item
    item-safe index v (id, h) = elim (Option-cases (json.as_object v)) [
      | inl o ↦ ground (arith, o)
      | inr (m, o) ↦ ground (arith, o, object-safe index v)
    ]

    pub place_items-safe :
        (index : ℕ) (items : List Value) (p : Places json)
        → All (HasId json) items
        → panics
            (place_items json clock tokens captured_at local_courses captures matches index items p)
          ≡ false
    unfolding panics place_items
    place_items-safe index [] p hs = refl
    place_items-safe index (v ∷ items) p (h, hs) =
        elim (Result-cases
          (place_item json clock tokens captured_at local_courses captures matches index v)) [
            | inr (x, e) ↦ ground (arith, e, item-safe index v h)
            | inl (placement, e) ↦
                ground
                  (arith, e, place_items-safe (suc index) items (record_place json p placement) hs)
          ]
