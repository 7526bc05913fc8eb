-- ===== src/Reconcile/Frame.antt =====
-- The fields of an item that `update_item` of src-tauri/src/reconcile.rs leaves alone.
use duegood.Base.{
  Bool, true, false, Option, none, some, List, [], ◌∷◌, ◌++◌, Bytes, codes, same, same_iff, all,
  any, ok, Bool-cases, Option-cases, Result-cases, >>=-ok, ◌≡◌, refl, sym, ◌∙◌, subst, inl, inr,
  if◌then◌else◌, arith,
}
use duegood.Reconcile.Values.{Values, IsLawful, CourseAssignments, field, identity_key}
use duegood.Reconcile.Checks.{contains}
use duegood.Reconcile.References.{
  canvas_reference_for, push_reference, reference_list, append_canvas_reference,
}
use duegood.Reconcile.Due.{
  selected_of, observations_of, next_fact, write_fact, merge_canvas_due_fact,
}
use duegood.Reconcile.Update.{
  patch_optional, set_group, patch_group, find_group, clear_fields, copy_fields, patch_submission,
  set_title, submission_fields, group_field,
}

-- the fields that an assignment may write
abbrev pub canvas_fields : List Bytes
canvas_fields =
    codes "title"
    ∷ codes "kind"
    ∷ codes "source"
    ∷ codes "confidence"
    ∷ codes "canvasId"
    ∷ codes "sourceReferences"
    ∷ codes "at"
    ∷ codes "fieldObservations"
    ∷ codes "points"
    ∷ codes "url"
    ∷ codes "assignmentGroupId"
    ∷ codes "assignmentGroupName"
    ∷ codes "assignmentGroupWeight"
    ∷ codes "submissionStatus"
    ∷ codes "submittedAt"
    ∷ codes "gradedAt"
    ∷ codes "grade"
    ∷ codes "score"
    ∷ []

unfoldable pub is_canvas_field : Bytes → Bool
is_canvas_field name = contains name canvas_fields

contains-other :
    (name key : Bytes) (names : List Bytes)
    → contains key names ≡ true
    → contains name names ≡ false
    → same name key ≡ false
contains-other name key names h k = elim (Bool-cases (same name key)) [
  | inr e ↦ e
  | inl e ↦
      let q : name ≡ key = (same_iff name key).0 e in
      let r : contains key names ≡ false = rw (sym q) k in ground arith
]

module _ (json : Values) (lawful : IsLawful json) (name : Bytes)
    (other : is_canvas_field name ≡ false) where
  open json use {Value, Map, as_object, get, insert, null, object}

  pub insert_other :
      (key : Bytes) (v : Value) (m : Map)
      → is_canvas_field key ≡ true
      → get name (insert key v m) ≡ get name m
  unfolding is_canvas_field
  insert_other key v m h =
      lawful.get-insert_other name key v m (contains-other name key canvas_fields h other)

  pub insert_onto :
      (key : Bytes) (v : Value) (m m' : Map)
      → is_canvas_field key ≡ true
      → get name m' ≡ get name m
      → get name (insert key v m') ≡ get name m
  insert_onto key v m m' h k = insert_other key v m' h ∙ k

  pub title_lem : (m : Map) (title : Bytes) → get name (set_title json m title) ≡ get name m
  unfolding set_title is_canvas_field
  title_lem m title = ground (arith, insert_other (codes "title") (json.string title) m refl)

  pub optional_lem :
      (m : Map) (local : Bytes) (v : Value) (remote : Bytes)
      → is_canvas_field local ≡ true
      → get name (patch_optional json m local v remote) ≡ get name m
  unfolding patch_optional
  optional_lem m local v remote h = elim (Option-cases (field json remote v)) [
    | inl e ↦ rw (e, patch_optional) refl
    | inr (w, e) ↦ rw (e, patch_optional) (insert_other local w m h)
  ]

  group_set_lem : (m : Map) (a b c : Value) → get name (set_group json m a b c) ≡ get name m
  unfolding set_group is_canvas_field
  group_set_lem m a b c = insert_onto (codes "assignmentGroupWeight") c m _ refl (
      insert_onto (codes "assignmentGroupName") b m _ refl
        (insert_other (codes "assignmentGroupId") a m refl))

  pub group_lem :
      (m m' : Map) (assignment : Value) (capture : CourseAssignments json)
      → patch_group json m assignment capture ≡ ok m'
      → get name m' ≡ get name m
  unfolding patch_group
  group_lem m m' assignment capture h =
      elim (Option-cases (field json (codes "assignment_group_id") assignment)) [
        | inl e ↦ ground (arith, e)
        | inr (v, e) ↦ elim (Bool-cases (json.is_null v)) [
          | inl n ↦ ground (arith, e, n, group_set_lem m null null null)
          | inr n ↦ elim (Option-cases (identity_key json v)) [
            | inl k ↦ ground (arith, e, n, k)
            | inr (id, k) ↦
                let g = find_group json id capture.groups in
                ground (
                  arith,
                  e,
                  n,
                  k,
                  group_set_lem m v (group_field json (codes "name") g)
                      (group_field json (codes "group_weight") g),
                )
          ]
        ]
      ]

  clear_lem :
      (fields : List (Bytes × Bytes)) (m : Map)
      → all (λ f. is_canvas_field f.1) fields ≡ true
      → get name (clear_fields json fields m) ≡ get name m
  unfolding clear_fields
  clear_lem [] m h = refl
  clear_lem ((remote, local) ∷ fields) m h =
      clear_lem fields (insert local null m) (ground arith)
      ∙ insert_other local null m (ground arith)

  copy_lem :
      (fields : List (Bytes × Bytes)) (submission m : Map)
      → all (λ f. is_canvas_field f.1) fields ≡ true
      → get name (copy_fields json fields submission m) ≡ get name m
  unfolding copy_fields
  copy_lem [] submission m h = refl
  copy_lem ((remote, local) ∷ fields) submission m h = elim (Option-cases (get remote submission)) [
    | inl e ↦ rw (e, copy_fields) (copy_lem fields submission m (ground arith))
    | inr (v, e) ↦
        rw (e, copy_fields)
          (copy_lem fields submission (insert local v m) (ground arith)
            ∙ insert_other local v m (ground arith))
  ]

  pub submission_lem :
      (m m' : Map) (assignment : Value)
      → patch_submission json m assignment ≡ ok m'
      → get name m' ≡ get name m
  unfolding patch_submission is_canvas_field
  submission_lem m m' assignment h =
      elim (Option-cases (field json (codes "submission") assignment)) [
        | inl e ↦ ground (arith, e)
        | inr (v, e) ↦ elim (Bool-cases (json.is_null v)) [
          | inl n ↦ ground (arith, e, n, clear_lem submission_fields m refl)
          | inr n ↦ elim (Option-cases (as_object v)) [
            | inl k ↦ ground (arith, e, n, k)
            | inr (fs, k) ↦ ground (arith, e, n, k, copy_lem submission_fields fs m refl)
          ]
        ]
      ]

  push_lem :
      (m m' : Map) (reference : Value)
      → push_reference json m reference ≡ ok m'
      → get name m' ≡ get name m
  unfolding push_reference is_canvas_field
  push_lem m m' reference h = elim (Option-cases (json.as_array (reference_list json m))) [
    | inl e ↦ ground (arith, e)
    | inr (vs, e) ↦
        let new =
          if any (λ v. json.same_value v reference) vs then vs else vs ++ (reference ∷ []) in
        let q : insert (codes "sourceReferences") (json.array new) m ≡ m' = ground (arith, e) in
        subst (λ x. get name x ≡ get name m) q
          (insert_other (codes "sourceReferences") (json.array new) m refl)
  ]

  pub append_lem :
      (m m' : Map) (course canvas_id : Bytes) (reference : Option Value)
      → append_canvas_reference json m course canvas_id ≡ ok (m', reference)
      → get name m' ≡ get name m
  unfolding append_canvas_reference
  append_lem m m' course canvas_id reference h =
      elim (Result-cases (canvas_reference_for json (object m) course canvas_id)) [
        | inr (x, e) ↦ ground (arith, e)
        | inl (none, e) ↦ ground (arith, e)
        | inl (some r, e) ↦ elim (Result-cases (push_reference json m r)) [
          | inr (x, k) ↦ ground (arith, e, k)
          | inl (m1, k) ↦ ground (arith, e, k, push_lem m m1 r k)
        ]
      ]

  write_lem :
      (m m' : Map) (next : Value) → write_fact json m next ≡ ok m' → get name m' ≡ get name m
  unfolding write_fact is_canvas_field
  write_lem m m' next h = elim (Option-cases (field json (codes "value") (selected_of json next))) [
    | inl v ↦ ground (arith, v)
    | inr (selected, v) ↦ elim (Option-cases (as_object (observations_of json m))) [
      | inl e ↦ ground (arith, v, e)
      | inr (o, e) ↦
          let new = object (insert (codes "at") next o) in
          let q : insert (codes "at") selected (insert (codes "fieldObservations") new m) ≡ m' =
            ground (arith, v, e) in
          subst (λ x. get name x ≡ get name m) q
            (insert_onto (codes "at") selected m _ refl
              (insert_other (codes "fieldObservations") new m refl))
    ]
  ]

  pub merge_lem :
      (m m' : Map) (local reference : Value) (stamp : Bytes)
      → merge_canvas_due_fact json m local reference stamp ≡ ok m'
      → get name m' ≡ get name m
  unfolding merge_canvas_due_fact
  merge_lem m m' local reference stamp h =
      let (next, k, _) = >>=-ok (write_fact json m) (next_fact json m local reference stamp) h in
      write_lem m m' next k
