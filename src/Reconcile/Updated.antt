-- ===== src/Reconcile/Updated.antt =====
-- `update_item` of src-tauri/src/reconcile.rs writes no field but those of an assignment.
use duegood.Base.{
  false, Option, some, List, Bytes, codes, ok, Option-cases, Result-cases, ◌≡◌, refl, ◌∙◌, inl, inr,
  arith,
}
use duegood.Reconcile.Values.{Values, IsLawful, field-eq, Clock, CourseAssignments, field, text_of}
use duegood.Reconcile.References.{append_canvas_reference}
use duegood.Reconcile.Due.{local_time, patch_due_at}
use duegood.Reconcile.Update.{
  patch_optional, patch_group, set_title, set_source, patch_all, update_item,
}
use duegood.Reconcile.Frame.{
  is_canvas_field, insert_other, insert_onto, title_lem, optional_lem, group_lem, submission_lem,
  append_lem, merge_lem,
}

module _ (json : Values) (lawful : IsLawful json) (name : Bytes)
    (other : is_canvas_field name ≡ false) where
  open json use {Value, Map, as_object, get, insert, null, object}

  module _ (clock : Clock) where
    due_lem :
        (m m' : Map) (assignment : Value) (reference : Option Value) (at : clock.SystemTime)
        → patch_due_at json clock m assignment reference at ≡ ok m'
        → get name m' ≡ get name m
    unfolding patch_due_at is_canvas_field
    due_lem m m' assignment reference at h =
        elim (Option-cases (field json (codes "due_at") assignment)) [
          | inl e ↦ ground (arith, e)
          | inr (v, e) ↦ elim (Result-cases (local_time json clock v)) [
            | inr (x, k) ↦ ground (arith, e, k)
            | inl (local, k) ↦ elim (Option-cases reference) [
              | inl r ↦
                  ground
                    (arith, e, k, r, insert_other json lawful name other (codes "at") local m refl)
              | inr (owner, r) ↦
                  merge_lem json lawful name other m m' local owner (clock.utc_stamp at)
                    (ground (arith, e, k, r))
            ]
          ]
        ]

    module _ (tokens : Bytes → List Bytes) where
      pub patch_lem :
          (m m' : Map) (assignment : Value) (capture : CourseAssignments json)
          (reference : Option Value) (at : clock.SystemTime)
          → patch_all json clock tokens m assignment capture reference at ≡ ok m'
          → get name m' ≡ get name m
      unfolding patch_all is_canvas_field
      patch_lem m m' assignment capture reference at h =
          elim (Result-cases (patch_due_at json clock m assignment reference at)) [
            | inr (x, e) ↦ ground (arith, e)
            | inl (due, e) ↦
                let points =
                  patch_optional json due (codes "points") assignment (codes "points_possible") in
                let url = patch_optional json points (codes "url") assignment (codes "html_url") in
                elim (Result-cases (patch_group json url assignment capture)) [
                  | inr (x, k) ↦ ground (arith, e, k)
                  | inl (grouped, k) ↦
                      submission_lem json lawful name other grouped m' assignment
                        (ground (arith, e, k))
                      ∙ group_lem json lawful name other url grouped assignment capture k
                      ∙ optional_lem json lawful name other points (codes "url") assignment
                          (codes "html_url") refl
                      ∙ optional_lem json lawful name other due (codes "points") assignment
                          (codes "points_possible") refl
                      ∙ due_lem m due assignment reference at e
                ]
          ]

      source_lem :
          (m : Map) (assignment : Value)
          → get name (set_source json clock tokens m assignment) ≡ get name m
      unfolding set_source is_canvas_field
      source_lem m assignment = insert_onto json lawful name other (codes "canvasId") _ m _ refl (
          insert_onto json lawful name other (codes "confidence") _ m _ refl (
            insert_onto json lawful name other (codes "source") _ m _ refl
              (insert_other json lawful name other (codes "kind") _ m refl)))

      update_target :
          (item item' assignment : Value) (m : Map) (capture : CourseAssignments json)
          (canvas_id : Bytes) (at : clock.SystemTime)
          → as_object item ≡ some m
          → update_item json clock tokens item assignment capture canvas_id at ≡ ok item'
          → (m' : Map) × (item' ≡ object m') × (get name m' ≡ get name m)
      unfolding update_item
      update_target item item' assignment m capture canvas_id at o h =
          elim (Option-cases (text_of json (field json (codes "name") assignment))) [
            | inl e ↦ ground (arith, o, e)
            | inr (title, e) ↦
                let sourced = set_source json clock tokens (set_title json m title) assignment in
                elim (Result-cases (append_canvas_reference json sourced capture.key canvas_id)) [
                  | inr (x, k) ↦ ground (arith, o, e, k)
                  | inl ((linked, reference), k) ↦
                      elim (Result-cases
                        (patch_all json clock tokens linked assignment capture reference at)) [
                          | inr (x, l) ↦ ground (arith, o, e, k, l)
                          | inl (m', l) ↦ (
                            m',
                            ground (arith, o, e, k, l),
                            patch_lem linked m' assignment capture reference at l
                                ∙ append_lem json lawful name other sourced linked capture.key
                                    canvas_id reference k
                                ∙ source_lem (set_title json m title) assignment
                                ∙ title_lem json lawful name other m title,
                          )
                        ]
                ]
          ]

      -- Where an assignment is written into an item, every field keeps its value that is none of
      -- those that an assignment may write.
      pub update_item-field :
          (item item' assignment : Value) (capture : CourseAssignments json) (canvas_id : Bytes)
          (at : clock.SystemTime)
          → update_item json clock tokens item assignment capture canvas_id at ≡ ok item'
          → field json name item' ≡ field json name item
      unfolding update_item
      update_item-field item item' assignment capture canvas_id at h =
          elim (Option-cases (as_object item)) [
            | inl o ↦ ground (arith, o)
            | inr (m, o) ↦
                let (m', e, k) = update_target item item' assignment m capture canvas_id at o h in
                rw
                  (
                    e,
                    field-eq json name (object m') m' (lawful.as_object-object m'),
                    field-eq json name item m o,
                  )
                  k
          ]
