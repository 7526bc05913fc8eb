-- ===== src/Reconcile/Due.antt =====
-- The due date of an item in src-tauri/src/reconcile.rs: the visible one and its observations.
use duegood.Base.{
  Bool, true, false, ◌&&◌, Option, none, some, List, [], ◌∷◌, ◌++◌, Bytes, codes, is_some, Result,
  ok, err, ok_or, ensure, ◌>>=◌, ◌>>◌, if◌then◌else◌,
}
use duegood.Reconcile.Values.{
  Values, ReconcileError, invalid, Clock, field, or_null, expect, same_option, insert_all,
}
use duegood.Reconcile.References.{item_ical_owner}

abbrev malformed_observations : ReconcileError
malformed_observations = invalid "field observations are malformed"

module _ (json : Values) where
  open json use {
    Value, Map, as_object, as_array, as_str, is_null, null, string, array, object, get, insert,
    remove, extend, new_map, same_value,
  }

  -- what is observed of the field `at`
  unfoldable pub observed : Map → Result ReconcileError (Option Value)
  observed target = elim (get (codes "fieldObservations") target) [
    | none ↦ ok none
    | some v ↦ elim (as_object v) [
      | none ↦ err malformed_observations
      | some observations ↦ ok (get (codes "at") observations)
    ]
  ]

  -- the closure `canvas_fact`, with a stamp
  unfoldable pub canvas_fact : Value → Value → Bytes → Map
  canvas_fact owner value stamp =
      insert_all json
        ((codes "owner", owner) ∷ (codes "value", value) ∷ (codes "observedAt", string stamp) ∷ [])
        new_map

  -- `.get("selected").unwrap_or(record)`
  abbrev pub selected_of : Value → Value
  selected_of record_value = elim (field json (codes "selected") record_value) [
    | none ↦ record_value
    | some v ↦ v
  ]

  abbrev is_owned : Option Value → Value → Bool
  is_owned owner fact = same_option json (field json (codes "owner") fact) owner

  -- the first fact of an owner, as an object
  unfoldable pub fact_of : Option Value → List Value → Option Map
  fact_of owner [] = none
  fact_of owner (fact ∷ facts) =
      let later = fact_of owner facts in if is_owned owner fact then as_object fact else later

  -- `retain` of the facts of other owners
  unfoldable pub drop_owner : Option Value → List Value → List Value
  drop_owner owner [] = []
  drop_owner owner (fact ∷ facts) =
      let rest = drop_owner owner facts in if is_owned owner fact then rest else fact ∷ rest

  abbrev alternatives_of : Value → List Value
  alternatives_of existing = elim (field json (codes "alternatives") existing) [
    | none ↦ []
    | some v ↦ elim (as_array v) [ none ↦ [] | some facts ↦ facts ]
  ]

  -- the alternatives into the record, which has none of an empty list
  unfoldable pub set_alternatives : List Value → Map → Map
  set_alternatives [] record_map = remove (codes "alternatives") record_map
  set_alternatives (fact ∷ facts) record_map =
      insert (codes "alternatives") (array (fact ∷ facts)) record_map

  -- the selected fact in its place: under `selected`, or the record itself
  unfoldable pub select_fact : Bool → Map → Map → Map
  select_fact true incoming record_map = insert (codes "selected") (object incoming) record_map
  select_fact false incoming record_map =
      extend
        (remove (codes "observedAt") (remove (codes "value") (remove (codes "owner") record_map)))
        incoming

  abbrev or_new : Option Map → Map
  or_new none = new_map
  or_new (some m) = m

  -- A new fact of Canvas; what was selected of another owner becomes an alternative.
  unfoldable pub take_over : Value → Map → Map → Bool → Value → Value → Bytes → Value
  unfolding fact_of drop_owner set_alternatives select_fact
  take_over existing record_map selected selected_is_canvas local canvas_reference stamp =
      let facts = alternatives_of existing in
      let previous_canvas = fact_of (some canvas_reference) facts in
      let others =
        drop_owner (get (codes "owner") selected) (drop_owner (some canvas_reference) facts) in
      let previous = remove (codes "alternatives") selected in
      let alternatives = if selected_is_canvas then others else others ++ (object previous ∷ []) in
      let start = if selected_is_canvas then selected else or_new previous_canvas in
      let incoming =
        extend (remove (codes "alternatives") start) (canvas_fact canvas_reference local stamp) in
      object (
        set_alternatives alternatives
          (select_fact (is_some (get (codes "selected") record_map)) incoming record_map))

  -- the branch where something is observed already
  unfoldable pub observe_again : Value → Value → Value → Bytes → Result ReconcileError Value
  observe_again existing local canvas_reference stamp = do
    record_map ← ok_or malformed_observations (as_object existing)
    selected ← ok_or malformed_observations (as_object (selected_of existing))
    owner ←
        ok_or malformed_observations
          (elim (get (codes "owner") selected) [ none ↦ none | some v ↦ as_object v ])
    ensure (is_some (get (codes "value") selected)) malformed_observations
    reference ← expect "reference object" (as_object canvas_reference)
    let selected_is_canvas = same_value (object owner) (object reference)
    if selected_is_canvas && same_option json (get (codes "value") selected) (some local)
        then ok existing
        else ok
            (take_over existing record_map selected selected_is_canvas local canvas_reference stamp)

  -- the branch of a first observation: the calendar's date Stays as an alternative
  unfoldable pub observe_first : Map → Value → Value → Bytes → Result ReconcileError Value
  observe_first target local canvas_reference stamp = do
    owner ← item_ical_owner json target
    let fact = canvas_fact canvas_reference local stamp
    elim owner [
      | none ↦ ok (object fact)
      | some feed ↦ ok (
          object (
            insert (codes "alternatives")
              (array (
                object (
                  insert_all json
                    ((codes "owner", feed)
                      ∷ (codes "value", or_null json (get (codes "at") target))
                      ∷ [])
                    new_map)
                ∷ []))
              fact))
    ]

  -- `fieldObservations`, or a new object
  abbrev pub observations_of : Map → Value
  observations_of target = elim (get (codes "fieldObservations") target) [
    | none ↦ object new_map
    | some v ↦ v
  ]

  unfoldable pub next_fact : Map → Value → Value → Bytes → Result ReconcileError Value
  next_fact target local canvas_reference stamp = do
    existing ← observed target
    elim existing [
      | some fact ↦ observe_again fact local canvas_reference stamp
      | none ↦ observe_first target local canvas_reference stamp
    ]

  -- the fact into the item, and its selected value before the student
  unfoldable pub write_fact : Map → Value → Result ReconcileError Map
  write_fact target next = do
    selected ← ok_or malformed_observations (field json (codes "value") (selected_of next))
    observations ← ok_or malformed_observations (as_object (observations_of target))
    ok (
        insert (codes "at") selected (
          insert (codes "fieldObservations") (object (insert (codes "at") next observations))
            target))

  unfoldable pub merge_canvas_due_fact : Map → Value → Value → Bytes → Result ReconcileError Map
  merge_canvas_due_fact target local canvas_reference stamp = do
    next ← next_fact target local canvas_reference stamp
    write_fact target next

  module _ (clock : Clock) where
    open clock use {SystemTime, utc_stamp, utc_to_new_york}

    -- the wall clock of a `due_at`
    unfoldable pub local_time : Value → Result ReconcileError Value
    local_time value = if is_null value then ok null else (do
      utc ← ok_or (invalid "Canvas due_at must be a string or null") (as_str value)
      local ← utc_to_new_york utc
      ok (string local))

    unfoldable pub patch_due_at :
        Map → Value → Option Value → SystemTime → Result ReconcileError Map
    patch_due_at target assignment canvas_reference captured_at =
        elim (field json (codes "due_at") assignment) [
          | none ↦ ok target
          | some value ↦ (do
            local ← local_time value
            elim canvas_reference [
              | some reference ↦
                  merge_canvas_due_fact target local reference (utc_stamp captured_at)
              | none ↦ ok (insert (codes "at") local target)
            ])
        ]
