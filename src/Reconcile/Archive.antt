-- ===== src/Reconcile/Archive.antt =====
-- The archive in src-tauri/src/reconcile.rs.
use duegood.Base.{
  ℕ, zero, suc, Bool, true, false, ◌&&◌, Option, none, some, List, [], ◌∷◌, Bytes, codes, any,
  Result, ok, err, if◌then◌else◌,
}
use duegood.Reconcile.Values.{Values, ReconcileError, invalid, field, text_of, identity_of, is_text}
use duegood.Reconcile.Checks.{Identity, same_identity}

abbrev same_canvas : Option Identity → Option Identity → Bool
same_canvas (some a) (some b) = same_identity a b
same_canvas _ _ = false

-- `Vec::remove`
unfoldable pub take_at : {A : Type 0} → ℕ → List A → Option (A × List A)
take_at i [] = none
take_at zero (x ∷ xs) = some (x, xs)
take_at (suc i) (x ∷ xs) = elim (take_at i xs) [ none ↦ none | some (y, ys) ↦ some (y, x ∷ ys) ]

module _ (json : Values) where
  open json use {Value}

  unfoldable pub canvas_identity : Value → Option Identity
  canvas_identity item = elim (text_of json (field json (codes "course") item)) [
    | none ↦ none
    | some course ↦ elim (identity_of json (field json (codes "canvasId") item)) [
      | none ↦ none
      | some id ↦ some (course, id)
    ]
  ]

  abbrev pub is_canvas : Value → Bool
  is_canvas item = is_text (codes "canvas") (text_of json (field json (codes "source") item))

  unfoldable pub same_canvas_identity : Value → Value → Bool
  same_canvas_identity old fresh =
      is_canvas old && same_canvas (canvas_identity old) (canvas_identity fresh)

  abbrev pub is_archived_as : Bytes → Bytes → Value → Bool
  is_archived_as course canvas_id item =
      is_canvas item
      && is_text canvas_id (identity_of json (field json (codes "canvasId") item))
      && is_text course (text_of json (field json (codes "course") item))

  -- the loop of `revivable_archived_index`, from an index on
  unfoldable pub find_archived :
      Bytes → Bytes → ℕ → List Value → Option ℕ → Result ReconcileError (Option ℕ)
  find_archived course canvas_id index [] found = ok found
  find_archived course canvas_id index (item ∷ items) found =
      elim (is_archived_as course canvas_id item) [
        | false ↦ find_archived course canvas_id (suc index) items found
        | true ↦ elim found [
          | none ↦ find_archived course canvas_id (suc index) items (some index)
          | some _ ↦ err (invalid "archived Canvas assignment identity is duplicated")
        ]
      ]

  unfoldable pub revivable_archived_index :
      List Value → Bytes → Bytes → Result ReconcileError (Option ℕ)
  revivable_archived_index archive course canvas_id = find_archived course canvas_id 0 archive none

  -- `filter_map` of the archived items to their IDs
  unfoldable pub archived_ids : List Value → List Bytes
  archived_ids [] = []
  archived_ids (item ∷ items) =
      let rest = archived_ids items in
      elim (text_of json (field json (codes "id") item)) [ none ↦ rest | some id ↦ id ∷ rest ]

  -- `retain` of the archived items that no newly archived one replaces
  unfoldable pub keep_archived : List Value → List Value → List Value
  keep_archived newly_archived [] = []
  keep_archived newly_archived (old ∷ archive) =
      let rest = keep_archived newly_archived archive in
      if any (same_canvas_identity old) newly_archived then rest else old ∷ rest
