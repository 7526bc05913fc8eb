-- ===== src/Reconcile/Untouched.antt =====
-- The items that `reconcile_coursework` of src-tauri/src/reconcile.rs leaves as they are.
use duegood.Base.{
  ℕ, zero, suc, Bool, true, false, not, ◌||◌, Option, some, List, [], ◌∷◌, Bytes, codes, same,
  some_and, get_elem?, ok, Bool-cases, Option-cases, Result-cases, ◌≡◌, sym, subst, inl, inr, arith,
}
use mathlib.Core.List.{Mem, mem-cons_self, mem-append_left, mem-append_right}
use duegood.Reconcile.Values.{Values, IsLawful, Clock, CourseAssignments, field, text_of}
use duegood.Reconcile.Checks.{HashMap, find_key, has_key, validate_capture, index_captures}
use duegood.Reconcile.Items.{
  Matches, Placement, kept, archived, updated, place_canvas, place_rest, place_other, place_object,
  place_item, Places, record_place, place_items, is_personal_live_item, text_or_empty,
}
use duegood.Reconcile.Coursework.{nothing_placed, reconcile_coursework}
use duegood.Reconcile.Steps.{steps_of}
use duegood.Reconcile.Checked.{list_in, passed_of}
use duegood.Reconcile.Kept.{document-Extends, result-items}

module _ (json : Values) where
  open json use {Value}

  abbrev kind_text : Value → Bytes
  kind_text v = text_or_empty (text_of json (field json (codes "kind") v))

  abbrev source_text : Value → Bytes
  source_text v = text_or_empty (text_of json (field json (codes "source") v))

  abbrev course_text : Value → Option Bytes
  course_text v = text_of json (field json (codes "course") v)

  -- a course is among the captured ones
  unfoldable pub is_captured : List (CourseAssignments json) → Bytes → Bool
  is_captured [] key = false
  is_captured (capture ∷ courses) key = same key capture.key || is_captured courses key

  -- the student's own item, or one of no captured course
  unfoldable pub is_left_alone : List (CourseAssignments json) → Value → Bool
  is_left_alone courses v =
      is_personal_live_item (kind_text v) (source_text v)
      || not (some_and (is_captured courses) (course_text v))

  index_captures-keys :
      (indexes : HashMap ℕ) (courses : List (CourseAssignments json))
      (captures captures' : HashMap (CourseAssignments json)) (key : Bytes)
      → index_captures json indexes courses captures ≡ ok captures'
      → has_key key captures' ≡ (is_captured courses key || has_key key captures)
  unfolding index_captures is_captured find_key
  index_captures-keys indexes [] captures captures' key h = ground arith
  index_captures-keys indexes (capture ∷ courses) captures captures' key h =
      elim (Bool-cases (has_key capture.key indexes)) [
        | inr e ↦ ground (arith, e)
        | inl e ↦ elim (Bool-cases (has_key capture.key captures)) [
          | inl k ↦ ground (arith, e, k)
          | inr k ↦ elim (Result-cases (validate_capture json capture)) [
            | inr (x, c) ↦ ground (arith, e, k, c)
            | inl (_, c) ↦
                let rest =
                  index_captures-keys indexes courses ((capture.key, capture) ∷ captures) captures'
                    key (ground (arith, e, k, c)) in
                ground (arith, rest)
          ]
        ]
      ]

  record_place-next :
      (p : Places json) (x : Placement json) (v : Value)
      → Mem v p.next_items
      → Mem v (record_place json p x).next_items
  unfolding record_place
  record_place-next p (kept w) v m = mem-append_left _ m
  record_place-next p (archived w) v m = m
  record_place-next p (updated w i) v m = mem-append_left _ m

  module _ (clock : Clock) (tokens : Bytes → List Bytes) (captured_at : clock.SystemTime)
      (local_courses : List Value) (captures : HashMap (CourseAssignments json)) (matches : Matches)
      (courses : List (CourseAssignments json))
      (same_keys : (key : Bytes) → has_key key captures ≡ is_captured courses key) where
    alone-kept :
        (index : ℕ) (v : Value)
        → is_left_alone courses v ≡ true
        → place_object json clock tokens captured_at local_courses captures matches index v
          ≡ ok (kept v)
    unfolding is_left_alone place_object place_canvas place_other place_rest
    alone-kept index v h = elim (Bool-cases (is_personal_live_item (kind_text v) (source_text v))) [
      | inl e ↦ ground (arith, e)
      | inr e ↦ elim (Option-cases (course_text v)) [
        | inl c ↦ elim (Bool-cases (same (source_text v) (codes "canvas"))) [
          | inl s ↦ ground (arith, e, c, s)
          | inr s ↦ ground (arith, e, c, s)
        ]
        | inr (key, c) ↦
            let left : is_captured courses key ≡ false = ground (arith, e, c) in
            elim (Option-cases (find_key key captures)) [
              | inr (capture, f) ↦ ground (arith, left, f, same_keys key)
              | inl f ↦ elim (Bool-cases (same (source_text v) (codes "canvas"))) [
                | inl s ↦ ground (arith, e, c, f, s)
                | inr s ↦ ground (arith, e, c, f, s)
              ]
            ]
      ]
    ]

    place_items-next :
        (index : ℕ) (items : List Value) (p p' : Places json) (v : Value)
        → place_items json clock tokens captured_at local_courses captures matches index items p
          ≡ ok p'
        → Mem v p.next_items
        → Mem v p'.next_items
    unfolding place_items
    place_items-next index [] p p' v h m =
        let q : p ≡ p' = ground arith in subst (λ x. Mem v x.next_items) q m
    place_items-next index (item ∷ items) p p' v h m =
        elim (Result-cases
          (place_item json clock tokens captured_at local_courses captures matches index item)) [
            | inr (x, e) ↦ ground (arith, e)
            | inl (x, e) ↦
                place_items-next (suc index) items (record_place json p x) p' v (ground (arith, e))
                  (record_place-next p x v m)
          ]

    place_items-alone :
        (index n : ℕ) (items : List Value) (p p' : Places json) (v : Value)
        → get_elem? items n ≡ some v
        → is_left_alone courses v ≡ true
        → place_items json clock tokens captured_at local_courses captures matches index items p
          ≡ ok p'
        → Mem v p'.next_items
    unfolding place_items place_item record_place
    place_items-alone index n [] p p' v g l h = cc
    place_items-alone index zero (item ∷ items) p p' v g l h =
        let q : item ≡ v = ground arith in
        let k = alone-kept index v l in
        elim (Option-cases (json.as_object v)) [
          | inl o ↦ ground (arith, q, o)
          | inr (m, o) ↦
              let rest : place_items json clock tokens captured_at local_courses captures matches
                    (suc index) items (record_place json p (kept v))
                  ≡ ok p' =
                ground (arith, q, o, k) in
              place_items-next (suc index) items (record_place json p (kept v)) p' v rest
                (mem-append_right p.next_items mem-cons_self)
        ]
    place_items-alone index (suc n) (item ∷ items) p p' v g l h =
        elim (Result-cases
          (place_item json clock tokens captured_at local_courses captures matches index item)) [
            | inr (x, e) ↦ ground (arith, e)
            | inl (x, e) ↦
                place_items-alone (suc index) n items (record_place json p x) p' v g l
                  (ground (arith, e))
          ]

  -- Where a document is reconciled, an item of kind session or milestone, or entered by hand, or of
  -- no captured course, is among the items of the result as it was.
  pub reconcile_coursework-untouched :
      (lawful : IsLawful json) (clock : Clock) (tokens : Bytes → List Bytes)
      (captured_at : clock.SystemTime) (base : Value) (courses : List (CourseAssignments json))
      (result v : Value) (local_items : List Value) (n : ℕ)
      → list_in json (codes "items") base ≡ some local_items
      → get_elem? local_items n ≡ some v
      → is_left_alone courses v ≡ true
      → reconcile_coursework json clock tokens captured_at base courses ≡ ok result
      → (items : List Value) × (list_in json (codes "items") result ≡ some items) × Mem v items
  unfolding find_key
  reconcile_coursework-untouched lawful clock tokens captured_at base courses result v local_items n
        l g a h =
      let r = steps_of json clock tokens captured_at base courses result h in
      let checked = passed_of json base courses r.inputs r.checked in
      let has_items = checked.has_items in
      let q : local_items ≡ r.inputs.local_items = ground arith in
      let (more, e) = document-Extends json lawful clock tokens captured_at base courses result r in
      let keys : (key : Bytes) → has_key key r.inputs.captures ≡ is_captured courses key = λ key.
        let k =
          index_captures-keys r.inputs.course_indexes courses [] r.inputs.captures key
            checked.has_captures in
        ground (arith, k) in
      (
        r.document.items,
        result-items json lawful clock tokens captured_at base courses result r,
        subst (λ vs. Mem v vs) (sym e)
            (mem-append_left more (
              place_items-alone clock tokens captured_at r.inputs.local_courses r.inputs.captures
                r.matches courses keys 0 n r.inputs.local_items (nothing_placed json) r.places v
                (rw (sym q) g) a r.placed)),
      )
