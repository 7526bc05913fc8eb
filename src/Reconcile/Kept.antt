-- ===== src/Reconcile/Kept.antt =====
-- What `reconcile_coursework` of src-tauri/src/reconcile.rs keeps of the local document's items.
use duegood.Base.{
  true, not, ◌||◌, none, some, List, [], ◌∷◌, ◌++◌, Bytes, codes, All, All-map, ok, Bool-cases, ◌≡◌,
  refl, sym, ◌∙◌, ap, subst, inl, inr, append-nil, append_assoc, arith,
}
use mathlib.Core.List.{Mem, mem-append_left, mem-append_right, not-mem-nil}
use duegood.Reconcile.Values.{Values, IsLawful, Clock, CourseAssignments}
use duegood.Reconcile.Archive.{archived_ids, keep_archived}
use duegood.Reconcile.Document.{Document}
use duegood.Reconcile.Coursework.{
  start_document, write_lists, nothing_placed, is_nil, reconcile_coursework,
}
use duegood.Reconcile.Survivors.{Survives, place_items-Survives}
use duegood.Reconcile.Growth.{push_item-found, add_courses-P}
use duegood.Reconcile.Steps.{
  Run, steps_of, stamp_root-field, write_lists-items, write_lists-archive,
}
use duegood.Reconcile.Checked.{list_of, list_in, archive_in, passed_of}

is_nil-eq : {A : Type 0} (xs : List A) → is_nil xs ≡ true → xs ≡ []
is_nil-eq [] h = refl
is_nil-eq (x ∷ xs) h = cc

module _ (json : Values) (lawful : IsLawful json) (clock : Clock) (tokens : Bytes → List Bytes)
    (captured_at : clock.SystemTime) where
  open json use {Value}

  -- the items start with some
  abbrev pub Extends : List Value → Document json → Type 0
  Extends items d = (more : List Value) × (d.items ≡ items ++ more)

  pub document-Extends :
      (base : Value) (courses : List (CourseAssignments json)) (result : Value)
      (r : Run json clock tokens captured_at base courses result)
      → Extends r.places.next_items r.document
  document-Extends base courses result r =
      add_courses-P json clock tokens captured_at (archived_ids json r.inputs.archive)
        r.inputs.local_courses (Extends r.places.next_items) (λ d root index capture m p. p)
        (λ capture ignored assignment id d d' (item, (archive, revived)) g e c m h (more, p).
          let (i, _, _, _, q) =
            push_item-found json clock tokens captured_at (archived_ids json r.inputs.archive) d d'
              (capture.key, id) item archive revived h in
          subst (Extends r.places.next_items) q (
            more ++ (item ∷ []),
            ap (λ x. x ++ (item ∷ [])) p ∙ append_assoc r.places.next_items more (item ∷ []),
          ))
        r.inputs.course_indexes courses (start_document json r.inputs r.places) r.document r.added
        ([], sym (append-nil r.places.next_items))

  -- the two lists of the result
  pub result-items :
      (base : Value) (courses : List (CourseAssignments json)) (result : Value)
      (r : Run json clock tokens captured_at base courses result)
      → list_in json (codes "items") result ≡ some r.document.items
  result-items base courses result r =
      ap (list_of json) (
        stamp_root-field json clock tokens captured_at lawful base result
          (write_lists json r.document r.places.newly_archived) (codes "items") refl r.stamped)
      ∙ write_lists-items json clock tokens captured_at lawful r.document r.places.newly_archived

  pub result-archive :
      (base : Value) (courses : List (CourseAssignments json)) (result : Value)
      (r : Run json clock tokens captured_at base courses result)
      → (not (is_nil r.places.newly_archived) || r.document.archive_changed) ≡ true
      → archive_in json result
        ≡ keep_archived json r.places.newly_archived r.document.archive ++ r.places.newly_archived
  result-archive base courses result r e =
      let newly = r.places.newly_archived in
      let q =
        stamp_root-field json clock tokens captured_at lawful base result
          (write_lists json r.document newly) (codes "archivedForecastItems") refl r.stamped in
      let l = write_lists-archive json clock tokens captured_at lawful r.document newly e in
      ap (λ o. elim o [ none ↦ [] | some vs ↦ vs ]) (ap (list_of json) q ∙ l)

  archive-newly :
      (base : Value) (courses : List (CourseAssignments json)) (result : Value)
      (r : Run json clock tokens captured_at base courses result) (v : Value)
      → Mem v r.places.newly_archived
      → Mem v (archive_in json result)
  archive-newly base courses result r v m =
      let newly = r.places.newly_archived in
      elim (Bool-cases (is_nil newly)) [
        | inl e ↦ absurd (not-mem-nil (subst (λ vs. Mem v vs) (is_nil-eq newly e) m))
        | inr e ↦
            let q : archive_in json result ≡ keep_archived json newly r.document.archive ++ newly =
              result-archive base courses result r (ground (arith, e)) in
            subst (λ vs. Mem v vs) (sym q) (mem-append_right _ m)
      ]

  -- Where a document is reconciled, no work of the base is lost: each of its items is among the
  -- items of the result, in one that differs at most in the fields that an assignment may write, or
  -- is in the archive of the result as it was.
  pub reconcile_coursework-kept :
      (base : Value) (courses : List (CourseAssignments json)) (result : Value)
      → reconcile_coursework json clock tokens captured_at base courses ≡ ok result
      → (local_items : List Value) × (items : List Value) × (list_in json (codes "items") base
          ≡ some local_items)
        × (list_in json (codes "items") result ≡ some items)
        × All (Survives json items (archive_in json result)) local_items
  reconcile_coursework-kept base courses result h =
      let r = steps_of json clock tokens captured_at base courses result h in
      let checked = passed_of json base courses r.inputs r.checked in
      let (more, q) = document-Extends base courses result r in
      (
        r.inputs.local_items,
        r.document.items,
        checked.has_items,
        result-items base courses result r,
        All-map (Survives json r.places.next_items r.places.newly_archived)
            (Survives json r.document.items (archive_in json result)) r.inputs.local_items
            (λ v s. elim s [
              | inl (w, m, k) ↦ inl (w, subst (λ vs. Mem w vs) (sym q) (mem-append_left more m), k)
              | inr m ↦ inr (archive-newly base courses result r v m)
            ])
            (place_items-Survives json lawful clock tokens captured_at r.inputs.local_courses
              r.inputs.captures r.matches 0 r.inputs.local_items (nothing_placed json) r.places
              r.placed),
      )
