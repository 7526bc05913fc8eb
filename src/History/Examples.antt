-- ===== src/History/Examples.antt =====
-- Diffs of small documents: tests of src-tauri/src/history.rs, and the theorems at them.
use duegood.Base.{
  ℕ, ◌+◌, ◌≡◌, refl, ap, Bool, true, false, ◌&&◌, Option, none, some, List, [], ◌∷◌, Bytes, codes,
  same, same_refl, map, length, ok, if◌then◌else◌, text_le, arith,
}
use duegood.History.Items.{
  Json, Indexed, lookup, place_key, is_observed_source_item, stable_key, index_item, index_items,
  indexed_items,
}
use duegood.History.Diff.{
  CourseworkDiff, no_diff, added, changed, removed, display_changes, changes_of, field_changes,
  item_label, visit, visit_current, drop_item, visit_previous, diff_indexed, diff_coursework,
}
use duegood.History.Balance.{diff_coursework-balance}
use duegood.CaptureRun.Disk.{written}
use duegood.History.Ledger.{
  LedgerJson, Shelf, present, append_event, existing_history, parsed_history, start_ledger,
  quarantine, push_event, events_of, trim_events, write_ledger,
}
use duegood.History.Bounded.{Extends, IsPushed, append_event-kept}
use duegood.History.Quiet.{diff_coursework-same}

-- Ledgers whose values are numbered events and lists of them; a ledger's text is its events.
data Entry : Type 0 where
  event : ℕ → Entry
  entries ledger : List ℕ → Entry

abbrev number_of : Entry → ℕ
number_of (event n) = n
number_of _ = 0

abbrev entry_field : Bytes → Entry → Option Entry
entry_field name (ledger ns) = if same name (codes "events") then some (entries ns) else none
entry_field name _ = none

abbrev entries_of : Entry → Option (List Entry)
entries_of (entries ns) = some (map event ns)
entries_of _ = none

abbrev is_ledger : Entry → Bool
is_ledger (ledger _) = true
is_ledger _ = false

abbrev no_number : Entry → Option ℕ
no_number _ = none

abbrev ledgers : LedgerJson
ledgers = record {
  Text = Option (List ℕ);
  Value = Entry;
  parse = λ t. elim t [ none ↦ none | some ns ↦ some (ledger ns) ];
  is_object = is_ledger;
  get = entry_field;
  as_array = entries_of;
  as_u64 = no_number;
  with_events = λ v es. ledger (map number_of es);
  size = λ v. 100;
  text = λ v. elim v [ ledger ns ↦ some ns | _ ↦ none ];
  object = λ fields. ledger [];
  array = λ vs. entries (map number_of vs);
  number = event;
}

-- a file that is no JSON, a valid ledger
abbrev broken : Shelf (Option (List ℕ))
broken = record { file = present none; quarantined = []; renaming = written; writing = written }

broken-appends :
    append_event ledgers broken (event 7)
    ≡ (ok tt, record broken { file = present (some (7 ∷ [])); quarantined = present none ∷ [] })
unfolding append_event existing_history parsed_history start_ledger quarantine push_event events_of
    trim_events write_ledger
broken-appends = refl

append_event-kept_example :
    (history : Entry) × Extends ledgers broken (append_event ledgers broken (event 7)).1 history
    × IsPushed ledgers (append_event ledgers broken (event 7)).1 history (event 7)
append_event-kept_example =
    append_event-kept ledgers broken (event 7) (ap (λ r. r.0) broken-appends)

-- The values of a document of Canvas items, each with an ID and a title.
data Value : Type 0 where
  nothing : Value
  word : Bytes → Value
  item : Bytes → Bytes → Value
  listing document : List (Bytes × Bytes) → Value

abbrev field_of : Bytes → Value → Option Value
field_of name (item id title) =
    if same name (codes "id")
    then some (word id)
    else if same name (codes "title")
    then some (word title)
    else if same name (codes "source")
    then some (word (codes "canvas"))
    else none
field_of name (document items) = if same name (codes "items") then some (listing items) else none
field_of name _ = none

abbrev word_of : Value → Option Bytes
word_of (word s) = some s
word_of _ = none

abbrev items_in : Value → Option (List Value)
items_in (listing items) = some (map (λ p. item p.0 p.1) items)
items_in _ = none

abbrev is_same : Value → Value → Bool
is_same nothing nothing = true
is_same (word a) (word b) = same a b
is_same (item a s) (item b t) = same a b && same s t
is_same (listing _) (listing _) = true
is_same (document _) (document _) = true
is_same _ _ = false

is_same_refl : (v : Value) → is_same v v ≡ true
is_same_refl nothing = refl
is_same_refl (word a) = same_refl a
is_same_refl (item a s) = ground (arith, same_refl a, same_refl s)
is_same_refl (listing l) = refl
is_same_refl (document l) = refl

abbrev json : Json
json = record {
  Value = Value;
  get = field_of;
  as_str = word_of;
  as_array = items_in;
  null = nothing;
  string = word;
  same_value = is_same;
}

abbrev first_week : Value
first_week = document ((codes "a", codes "Essay") ∷ (codes "b", codes "Quiz") ∷ [])

abbrev second_week : Value
second_week = document ((codes "c", codes "Lab") ∷ (codes "b", codes "Quiz 1") ∷ [])

-- One item of each kind: c is new, b has another title, a is gone.
abbrev week_diff : CourseworkDiff Value
week_diff = record {
  added = 1;
  updated = 1;
  removed = 1;
  changes =
      record {
        kind = changed;
        item_id = word (codes "b");
        title = word (codes "Quiz 1");
        course = nothing;
        fields =
            record {
              field = codes "title";
              before = word (codes "Quiz");
              after = word (codes "Quiz 1");
            }
            ∷ [];
      }
      ∷ record {
        kind = added;
        item_id = word (codes "c");
        title = word (codes "Lab");
        course = nothing;
        fields = [];
      }
      ∷ record {
        kind = removed;
        item_id = word (codes "a");
        title = word (codes "Essay");
        course = nothing;
        fields = [];
      }
      ∷ [];
}

weeks-differ : diff_coursework json first_week second_week ≡ ok week_diff
unfolding diff_coursework diff_indexed indexed_items index_items index_item is_observed_source_item
    stable_key lookup place_key text_le visit_current visit display_changes changes_of field_changes
    item_label visit_previous drop_item
weeks-differ = refl

diff_coursework-balance_example :
    (previous : Indexed Value) × (current : Indexed Value) × (indexed_items json first_week
      ≡ ok previous)
    × (indexed_items json second_week ≡ ok current)
    × (week_diff.added + length previous ≡ week_diff.removed + length current)
    × (length week_diff.changes ≡ week_diff.added + week_diff.updated + week_diff.removed)
diff_coursework-balance_example =
    diff_coursework-balance json first_week second_week week_diff weeks-differ

abbrev first_index : Indexed Value
first_index =
    (codes "a", item (codes "a") (codes "Essay"))
    ∷ (codes "b", item (codes "b") (codes "Quiz"))
    ∷ []

first-indexes : indexed_items json first_week ≡ ok first_index
unfolding indexed_items index_items index_item is_observed_source_item stable_key lookup place_key
    text_le
first-indexes = refl

diff_coursework-same_example : diff_coursework json first_week first_week ≡ ok no_diff
diff_coursework-same_example =
    diff_coursework-same json is_same_refl first_week first_index first-indexes
