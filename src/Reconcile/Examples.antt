-- ===== src/Reconcile/Examples.antt =====
-- Runs of the definitions of src-tauri/src/reconcile.rs on a small document.
use duegood.Base.{
  true, Result, ◌>>=◌, err, ◌+◌, ◌≤◌, false, some, List, [], ◌∷◌, Bytes, codes, All, to_lower,
  lower, find_text, strip_prefix, ok, ◌≡◌, refl, arith,
}
use mathlib.Core.List.{Mem}
use duegood.Reconcile.Values.{
  field, invalid, ReconcileError, Clock, CourseAssignments, insert_all, identity_key,
}
use duegood.Reconcile.Checks.{
  find_key, same_reference, known_source, course_key, index_courses, index_local_courses,
  validate_groups, bad_submission, validate_assignment, validate_assignments, validate_capture,
  index_captures, local_identity, add_identity, item_id, index_ids, archive_of, instance_of,
  reference_key, reference_objects, item_references, own_references, validate_owners,
  validate_source_references,
}
use duegood.Reconcile.References.{
  references_match, item_matches_assignment, adopted_reference, find_reference,
  canvas_reference_for, push_reference, append_canvas_reference, find_feed, item_ical_owner,
}
use duegood.Reconcile.Due.{
  observed, canvas_fact, fact_of, drop_owner, set_alternatives, select_fact, take_over,
  observe_again, observe_first, next_fact, write_fact, merge_canvas_due_fact, local_time,
  patch_due_at,
}
use duegood.Reconcile.Update.{
  kind_of, join_words, texts_of, kind_for, patch_optional, find_group, set_group, patch_group,
  clear_fields, copy_fields, patch_submission, set_title, patch_all, set_source, update_item,
  blank_item, new_item,
}
use duegood.Reconcile.Courses.{
  find_course, identities_of, ignored_ids, index_groups, refresh_group, keep_groups, new_group,
  add_groups, local_groups, merged_groups, set_at, merge_course,
}
use duegood.Reconcile.Items.{
  find_match, is_personal_live_item, is_match, matching, is_error, any_malformed, add_match,
  match_assignments, match_courses, matched, record_place, place_matched, place_canvas, place_rest,
  place_other, place_object, place_item, place_items,
}
use duegood.Reconcile.Archive.{
  take_at, canvas_identity, same_canvas_identity, find_archived, revivable_archived_index,
  archived_ids, keep_archived,
}
use duegood.Reconcile.Document.{
  make_item, push_item, add_assignment, add_assignments, add_course, add_courses,
}
use duegood.Reconcile.Coursework.{
  write_lists, check_inputs, stamp_root, run_loops, reconcile_coursework,
}
use duegood.Reconcile.Survivors.{Survives, id_count}
use duegood.Reconcile.Checked.{list_in, archive_in}
use duegood.Reconcile.Frame.{is_canvas_field}
use duegood.Reconcile.Updated.{update_item-field}
use duegood.Reconcile.Safe.{panics}
use duegood.Reconcile.Int.{wrap}
use duegood.Reconcile.Time.{
  days_from_civil, civil_from_days, weekday, nth_sunday, new_york_offset, decimal, pad, SystemTime,
  since, timestamp_of, new_york_date,
}
use duegood.Reconcile.Rfc3339.{new_york_clock}
use duegood.Reconcile.SafeTime.{reconcile_coursework-safe}
use duegood.Reconcile.Untouched.{is_left_alone, is_captured, reconcile_coursework-untouched}
use duegood.Reconcile.Kept.{reconcile_coursework-kept}
use duegood.Reconcile.Ids.{index_ids-count}
use duegood.Reconcile.Reserved.{reconcile_coursework-distinct, reconcile_coursework-reserved}
use duegood.Reconcile.Sample.{
  Json, nothing, flag, whole, word, listing, entries, Entries, empty, entry, elements, json, lawful,
  to_list, get_entry, insert_entry, remove_entry, extend_entries, object_of, array_of, word_of,
  flag_of, digits_of, is_nothing, same_json, same_elements, same_entries,
}

abbrev stamp : SystemTime → Bytes
stamp time = codes "2026-02-01T02:00:00.000Z"

abbrev clock : Clock
clock = new_york_clock stamp

-- 2026-02-01 02:00 UTC, still January in New York
abbrev now : SystemTime
now = since 1769911200

abbrev tokens : Bytes → List Bytes
tokens name = name ∷ []

abbrev entries_of : List (Bytes × Json) → Entries
entries_of [] = empty
entries_of ((name, v) ∷ es) = entry name v (entries_of es)

abbrev fields : List (Bytes × Json) → Json
fields es = entries (entries_of es)

abbrev text : Bytes → Json
text s = word s

-- an item of a course
abbrev item : Bytes → Bytes → List (Bytes × Json) → Json
item id source more = fields (
    (codes "id", word id)
    ∷ (codes "course", word (codes "c"))
    ∷ (codes "source", word source)
    ∷ more)

abbrev essay : Json
essay =
    item (codes "e") (codes "canvas")
      ((codes "canvasId", whole (codes "7")) ∷ (codes "notes", word (codes "n")) ∷ [])

abbrev old_quiz : Json
old_quiz = item (codes "q") (codes "canvas") ((codes "canvasId", whole (codes "8")) ∷ [])

abbrev own_task : Json
own_task = item (codes "o") (codes "manual") []

abbrev base : Json
base = fields (
    (codes "courses", listing (elements (fields ((codes "key", word (codes "c")) ∷ []) ∷ [])))
    ∷ (codes "items", listing (elements (essay ∷ old_quiz ∷ own_task ∷ [])))
    ∷ [])

abbrev assignment : Bytes → Bytes → Json
assignment id name = fields ((codes "id", whole id) ∷ (codes "name", word name) ∷ [])

abbrev capture : CourseAssignments json
capture = record {
  key = codes "c";
  groups = [];
  assignments = assignment (codes "7") (codes "Essay") ∷ assignment (codes "9") (codes "Lab") ∷ [];
}

abbrev essay' : Json
essay' = item (codes "e") (codes "canvas") (
    (codes "canvasId", whole (codes "7"))
    ∷ (codes "notes", word (codes "n"))
    ∷ (codes "title", word (codes "Essay"))
    ∷ (codes "kind", word (codes "paper"))
    ∷ (codes "confidence", word (codes "confirmed"))
    ∷ [])

abbrev lab : Json
lab = fields (
    (codes "id", word (codes "c-canvas-9"))
    ∷ (codes "course", word (codes "c"))
    ∷ (codes "kind", word (codes "lab"))
    ∷ (codes "title", word (codes "Lab"))
    ∷ (codes "source", word (codes "canvas"))
    ∷ (codes "confidence", word (codes "confirmed"))
    ∷ (codes "flags", listing (elements []))
    ∷ (codes "detail", word [])
    ∷ (codes "canvasId", whole (codes "9"))
    ∷ (codes "done", flag false)
    ∷ (codes "doneAt", nothing)
    ∷ (codes "submissionStatus", nothing)
    ∷ (codes "submittedAt", nothing)
    ∷ (codes "gradedAt", nothing)
    ∷ (codes "grade", nothing)
    ∷ (codes "score", nothing)
    ∷ [])

-- The essay is updated, the quiz archived, the student's own task kept, the lab added.
abbrev reconciled : Json
reconciled = fields (
    (
      codes "courses",
      listing (
          elements (
            fields
              ((codes "key", word (codes "c")) ∷ (codes "gradeGroups", listing (elements [])) ∷ [])
            ∷ [])),
    )
    ∷ (codes "items", listing (elements (essay' ∷ own_task ∷ lab ∷ [])))
    ∷ (codes "archivedForecastItems", listing (elements (old_quiz ∷ [])))
    ∷ (codes "sync", fields ((codes "lastSync", word (codes "2026-01-31")) ∷ []))
    ∷ [])

base-reconciles : reconcile_coursework json clock tokens now base (capture ∷ []) ≡ ok reconciled
unfolding wrap days_from_civil civil_from_days weekday nth_sunday new_york_offset decimal pad
    timestamp_of new_york_date insert_all identity_key find_key same_reference known_source
    course_key index_courses index_local_courses validate_groups bad_submission validate_assignment
    validate_assignments validate_capture index_captures local_identity add_identity item_id
    index_ids archive_of instance_of reference_key reference_objects item_references own_references
    validate_owners validate_source_references references_match item_matches_assignment
    adopted_reference find_reference canvas_reference_for push_reference append_canvas_reference
    find_feed item_ical_owner observed canvas_fact fact_of drop_owner set_alternatives select_fact
    take_over observe_again observe_first next_fact write_fact merge_canvas_due_fact local_time
    patch_due_at kind_of join_words texts_of kind_for patch_optional find_group set_group
    patch_group clear_fields copy_fields patch_submission set_title patch_all set_source update_item
    blank_item new_item find_course identities_of ignored_ids index_groups refresh_group keep_groups
    new_group add_groups local_groups merged_groups set_at merge_course find_match
    is_personal_live_item is_match matching is_error any_malformed add_match match_assignments
    match_courses matched record_place place_matched place_canvas place_rest place_other
    place_object place_item place_items take_at canvas_identity same_canvas_identity find_archived
    revivable_archived_index archived_ids keep_archived make_item push_item add_assignment
    add_assignments add_course add_courses write_lists check_inputs stamp_root run_loops
    reconcile_coursework elements to_list get_entry insert_entry remove_entry extend_entries
    object_of array_of word_of flag_of digits_of is_nothing same_json same_elements same_entries
    to_lower lower find_text strip_prefix
base-reconciles = refl

reconcile_coursework-kept_example :
    (local_items : List Json) × (items : List Json) × (list_in json (codes "items") base
      ≡ some local_items)
    × (list_in json (codes "items") reconciled ≡ some items)
    × All (Survives json items (archive_in json reconciled)) local_items
reconcile_coursework-kept_example =
    reconcile_coursework-kept json lawful clock tokens now base (capture ∷ []) reconciled
      base-reconciles

reconcile_coursework-distinct_example :
    (items : List Json) × (list_in json (codes "items") reconciled ≡ some items)
    × ((id : Bytes) → id_count json id items ≤ 1)
reconcile_coursework-distinct_example =
    reconcile_coursework-distinct json lawful clock tokens now base (capture ∷ []) reconciled
      base-reconciles

abbrev base_items : List Json
base_items = essay ∷ old_quiz ∷ own_task ∷ []

base-items : list_in json (codes "items") base ≡ some base_items
unfolding object_of array_of to_list elements get_entry
base-items = refl

base-indexes : index_ids json base_items [] [] ≡ ok (codes "o" ∷ codes "q" ∷ codes "e" ∷ [])
unfolding wrap days_from_civil civil_from_days weekday nth_sunday new_york_offset decimal pad
    timestamp_of new_york_date index_ids item_id add_identity local_identity identity_key object_of
    word_of digits_of get_entry
base-indexes = refl

base-distinct :
    (id : Bytes) → id_count json id base_items + id_count json id (archive_in json base) ≤ 1
unfolding object_of array_of to_list elements get_entry
base-distinct id = ground (
  arith,
  index_ids-count json id base_items [] (codes "o" ∷ codes "q" ∷ codes "e" ∷ []) [] base-indexes,
)

reconcile_coursework-reserved_example :
    (items : List Json) × (list_in json (codes "items") reconciled ≡ some items)
    × ((id : Bytes) → id_count json id items + id_count json id (archive_in json reconciled) ≤ 1)
reconcile_coursework-reserved_example =
    reconcile_coursework-reserved json lawful clock tokens now base (capture ∷ []) reconciled
      base_items base-items base-distinct base-reconciles

own-left : is_left_alone json (capture ∷ []) own_task ≡ true
unfolding is_left_alone is_captured is_personal_live_item object_of word_of get_entry
own-left = refl

reconcile_coursework-untouched_example :
    (items : List Json) × (list_in json (codes "items") reconciled ≡ some items)
    × Mem own_task items
reconcile_coursework-untouched_example =
    reconcile_coursework-untouched json lawful clock tokens now base (capture ∷ []) reconciled
      own_task base_items 2 base-items refl own-left base-reconciles

reconcile_coursework-safe_example :
    panics (reconcile_coursework json clock tokens now base (capture ∷ [])) ≡ false
reconcile_coursework-safe_example =
    reconcile_coursework-safe json lawful stamp tokens now base (capture ∷ [])

essay-updates :
    update_item json clock tokens essay
      (assignment (codes "7") (codes "Essay"))
      capture
      (codes "7")
      now
    ≡ ok essay'
unfolding wrap days_from_civil civil_from_days weekday nth_sunday new_york_offset decimal pad
    timestamp_of new_york_date insert_all identity_key find_key same_reference known_source
    course_key index_courses index_local_courses validate_groups bad_submission validate_assignment
    validate_assignments validate_capture index_captures local_identity add_identity item_id
    index_ids archive_of instance_of reference_key reference_objects item_references own_references
    validate_owners validate_source_references references_match item_matches_assignment
    adopted_reference find_reference canvas_reference_for push_reference append_canvas_reference
    find_feed item_ical_owner observed canvas_fact fact_of drop_owner set_alternatives select_fact
    take_over observe_again observe_first next_fact write_fact merge_canvas_due_fact local_time
    patch_due_at kind_of join_words texts_of kind_for patch_optional find_group set_group
    patch_group clear_fields copy_fields patch_submission set_title patch_all set_source update_item
    blank_item new_item find_course identities_of ignored_ids index_groups refresh_group keep_groups
    new_group add_groups local_groups merged_groups set_at merge_course find_match
    is_personal_live_item is_match matching is_error any_malformed add_match match_assignments
    match_courses matched record_place place_matched place_canvas place_rest place_other
    place_object place_item place_items take_at canvas_identity same_canvas_identity find_archived
    revivable_archived_index archived_ids keep_archived make_item push_item add_assignment
    add_assignments add_course add_courses write_lists check_inputs stamp_root run_loops
    reconcile_coursework elements to_list get_entry insert_entry remove_entry extend_entries
    object_of array_of word_of flag_of digits_of is_nothing same_json same_elements same_entries
    to_lower lower find_text strip_prefix
essay-updates = refl

notes-other : is_canvas_field (codes "notes") ≡ false
unfolding is_canvas_field
notes-other = refl

update_item-field_example : field json (codes "notes") essay' ≡ field json (codes "notes") essay
update_item-field_example =
    update_item-field json lawful (codes "notes") notes-other clock tokens essay essay'
      (assignment (codes "7") (codes "Essay")) capture (codes "7") now essay-updates

-- A capture that makes an item of kind milestone is refused when it comes again.
abbrev plan_capture : CourseAssignments json
plan_capture = record {
  key = codes "c";
  groups = [];
  assignments = assignment (codes "9") (codes "Milestone") ∷ [];
}

abbrev empty_base : Json
empty_base = fields (
    (codes "courses", listing (elements (fields ((codes "key", word (codes "c")) ∷ []) ∷ [])))
    ∷ (codes "items", listing (elements []))
    ∷ [])

abbrev twice : Result ReconcileError Json
twice = do
  first ← reconcile_coursework json clock tokens now empty_base (plan_capture ∷ [])
  reconcile_coursework json clock tokens now first (plan_capture ∷ [])

milestone-collides :
    twice ≡ err (invalid "generated coursework item id collides with an existing item")
unfolding wrap days_from_civil civil_from_days weekday nth_sunday new_york_offset decimal pad
    timestamp_of new_york_date insert_all identity_key find_key same_reference known_source
    course_key index_courses index_local_courses validate_groups bad_submission validate_assignment
    validate_assignments validate_capture index_captures local_identity add_identity item_id
    index_ids archive_of instance_of reference_key reference_objects item_references own_references
    validate_owners validate_source_references references_match item_matches_assignment
    adopted_reference find_reference canvas_reference_for push_reference append_canvas_reference
    find_feed item_ical_owner observed canvas_fact fact_of drop_owner set_alternatives select_fact
    take_over observe_again observe_first next_fact write_fact merge_canvas_due_fact local_time
    patch_due_at kind_of join_words texts_of kind_for patch_optional find_group set_group
    patch_group clear_fields copy_fields patch_submission set_title patch_all set_source update_item
    blank_item new_item find_course identities_of ignored_ids index_groups refresh_group keep_groups
    new_group add_groups local_groups merged_groups set_at merge_course find_match
    is_personal_live_item is_match matching is_error any_malformed add_match match_assignments
    match_courses matched record_place place_matched place_canvas place_rest place_other
    place_object place_item place_items take_at canvas_identity same_canvas_identity find_archived
    revivable_archived_index archived_ids keep_archived make_item push_item add_assignment
    add_assignments add_course add_courses write_lists check_inputs stamp_root run_loops
    reconcile_coursework elements to_list get_entry insert_entry remove_entry extend_entries
    object_of array_of word_of flag_of digits_of is_nothing same_json same_elements same_entries
    to_lower lower find_text strip_prefix
milestone-collides = refl
