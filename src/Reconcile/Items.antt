-- ===== src/Reconcile/Items.antt =====
-- The local items in src-tauri/src/reconcile.rs: which assignment each matches, and its place.
use duegood.Base.{
  ℕ, suc, Bool, true, false, not, ◌&&◌, ◌||◌, ◌==◌, Option, none, some, List, [], ◌∷◌, ◌++◌, Bytes,
  codes, same, some_and, Result, ok, err, ensure, ◌>>=◌, ◌>>◌, if◌then◌else◌,
}
use duegood.Reconcile.Values.{
  Values, ReconcileError, invalid, Clock, CourseAssignments, field, text_of, expect, identity_of,
}
use duegood.Reconcile.Checks.{
  Identity, same_identity, HashMap, find_key, has_key, contains, malformed_reference,
}
use duegood.Reconcile.References.{item_matches_assignment}
use duegood.Reconcile.Update.{update_item}
use duegood.Reconcile.Courses.{ignored_ids}

-- `assignment_matches`: which local item an assignment belongs to
abbrev pub Matches : Type 0
Matches = List (Identity × ℕ)

unfoldable pub find_match : Identity → Matches → Option ℕ
find_match identity [] = none
find_match identity ((key, index) ∷ matches) =
    let later = find_match identity matches in
    if same_identity identity key then some index else later

-- `== Some(&item_index)`
abbrev pub is_at : ℕ → Option ℕ → Bool
is_at index found = some_and (λ i. i == index) found

abbrev pub text_or_empty : Option Bytes → Bytes
text_or_empty none = []
text_or_empty (some s) = s

unfoldable pub is_personal_live_item : Bytes → Bytes → Bool
is_personal_live_item kind source =
    same kind (codes "session") || same kind (codes "milestone") || same source (codes "manual")

module _ (json : Values) where
  open json use {Value, as_object}

  unfoldable pub is_match : Result ReconcileError Bool → Bool
  is_match (ok b) = b
  is_match (err _) = false

  -- the indexes, from one on, of the items that match
  unfoldable pub matching : Bytes → Bytes → ℕ → List Value → List ℕ
  matching course canvas_id index [] = []
  matching course canvas_id index (item ∷ items) =
      let rest = matching course canvas_id (suc index) items in
      if is_match (item_matches_assignment json item course canvas_id) then index ∷ rest else rest

  unfoldable pub is_error : Result ReconcileError Bool → Bool
  is_error (ok _) = false
  is_error (err _) = true

  -- `.any(|item| item_matches_assignment(..).is_err())`
  unfoldable pub any_malformed : Bytes → Bytes → List Value → Bool
  any_malformed course canvas_id [] = false
  any_malformed course canvas_id (item ∷ items) =
      is_error (item_matches_assignment json item course canvas_id)
      || any_malformed course canvas_id items

  unfoldable pub add_match : Identity → List ℕ → Matches → Result ReconcileError Matches
  add_match identity [] matches = ok matches
  add_match identity (index ∷ []) matches = ok ((identity, index) ∷ matches)
  add_match identity (_ ∷ _ ∷ _) matches =
      err (invalid "Canvas assignment has conflicting local identities")

  -- the inner loop, over the assignments of a course
  unfoldable pub match_assignments :
      List Value → Bytes → List Value → Matches → Result ReconcileError Matches
  match_assignments items course [] matches = ok matches
  match_assignments items course (assignment ∷ assignments) matches = do
    canvas_id ←
        expect "assignment id validated" (identity_of json (field json (codes "id") assignment))
    ensure (not (any_malformed course canvas_id items)) malformed_reference
    more ← add_match (course, canvas_id) (matching course canvas_id 0 items) matches
    match_assignments items course assignments more

  unfoldable pub match_courses :
      List Value → List (CourseAssignments json) → Matches → Result ReconcileError Matches
  match_courses items [] matches = ok matches
  match_courses items (capture ∷ courses) matches = do
    more ← match_assignments items capture.key capture.assignments matches
    match_courses items courses more

  -- the first assignment that belongs to the item
  unfoldable pub matched : Matches → Bytes → ℕ → List Value → Option (Value × Bytes)
  matched matches key item_index [] = none
  matched matches key item_index (assignment ∷ assignments) =
      let later = matched matches key item_index assignments in
      elim (identity_of json (field json (codes "id") assignment)) [
        | none ↦ later
        | some id ↦
            if is_at item_index (find_match (key, id) matches) then some (assignment, id) else later
      ]

  -- Where one turn of the loop puts an item: among the next ones as it is, among them and updated
  -- with what it matched, or into the archive.
  pub data Placement : Type 0 where
    kept archived : Value → Placement
    updated : Value → Identity → Placement

  -- `seen`, `next_items` and `newly_archived`
  pub record Places : Type 0 where
    pub seen : List Identity
    pub next_items : List Value
    pub newly_archived : List Value

  unfoldable pub record_place : Places → Placement → Places
  record_place p (kept item) = record p { next_items = p.next_items ++ (item ∷ []) }
  record_place p (archived item) = record p { newly_archived = p.newly_archived ++ (item ∷ []) }
  record_place p (updated item identity) = record p {
    seen = identity ∷ p.seen;
    next_items = p.next_items ++ (item ∷ []);
  }

  module _ (clock : Clock) (tokens : Bytes → List Bytes) (captured_at : clock.SystemTime) where
    module _ (local_courses : List Value) (captures : HashMap (CourseAssignments json))
        (matches : Matches) where
      -- an item with its match: `ignored` is its place when the assignment is ignored
      unfoldable pub place_matched :
          Placement
          → Value
          → CourseAssignments json
          → Bytes
          → Value × Bytes
          → Result ReconcileError Placement
      place_matched ignored item capture key (assignment, id) = do
        ids ← ignored_ids json local_courses key
        if contains id ids then ok ignored else (do
          item' ← update_item json clock tokens item assignment capture id captured_at
          ok (updated item' (key, id)))

      -- an item whose source is Canvas
      unfoldable pub place_canvas :
          ℕ → Value → Option Bytes → Option Bytes → Result ReconcileError Placement
      place_canvas index item none canvas_id = ok (kept item)
      place_canvas index item (some key) canvas_id = elim (find_key key captures) [
        | none ↦ ok (kept item)
        | some capture ↦ elim (matched matches key index capture.assignments) [
          | some found ↦ place_matched (archived item) item capture key found
          | none ↦ elim canvas_id [ none ↦ ok (kept item) | some _ ↦ ok (archived item) ]
        ]
      ]

      -- the end of the loop's body
      unfoldable pub place_rest : Value → Bytes → Option Bytes → Placement
      place_rest item source key =
          if same source (codes "syllabus") && some_and (λ k. has_key k captures) key
          then archived item
          else kept item

      -- an item of another source
      unfoldable pub place_other :
          ℕ → Value → Bytes → Option Bytes → Result ReconcileError Placement
      place_other index item source none = ok (place_rest item source none)
      place_other index item source (some key) = elim (find_key key captures) [
        | none ↦ ok (place_rest item source (some key))
        | some capture ↦ elim (matched matches key index capture.assignments) [
          | some found ↦ place_matched (kept item) item capture key found
          | none ↦ ok (place_rest item source (some key))
        ]
      ]

      -- the body of the loop, over an item that is an object
      unfoldable pub place_object : ℕ → Value → Result ReconcileError Placement
      place_object index item =
          let kind = text_or_empty (text_of json (field json (codes "kind") item)) in
          let source = text_or_empty (text_of json (field json (codes "source") item)) in
          let key = text_of json (field json (codes "course") item) in
          if is_personal_live_item kind source
          then ok (kept item)
          else if same source (codes "canvas")
          then place_canvas index item key (identity_of json (field json (codes "canvasId") item))
          else place_other index item source key

      unfoldable pub place_item : ℕ → Value → Result ReconcileError Placement
      place_item index item =
          expect "validated item object" (as_object item) >> place_object index item

      -- the loop over the local items, from an index on
      unfoldable pub place_items : ℕ → List Value → Places → Result ReconcileError Places
      place_items index [] places = ok places
      place_items index (item ∷ items) places = do
        placement ← place_item index item
        place_items (suc index) items (record_place places placement)
