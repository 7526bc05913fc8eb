-- ===== src/Reconcile/Values.antt =====
-- The JSON values and the errors of src-tauri/src/reconcile.rs. `serde_json` enters through its
-- accessors, its constructors and the operations of its maps.
use duegood.Base.{
  Bool, true, false, Option, none, some, List, [], ◌∷◌, Bytes, same, String, Result, ok, err, ◌≡◌,
  arith,
}

-- `Value` and `Map<String, Value>`; `extend` takes over the entries of its second argument
pub record Values : Type 1 where
  pub Value : Type 0
  pub Map : Type 0
  pub as_object : Value → Option Map
  pub as_array : Value → Option (List Value)
  pub as_str : Value → Option Bytes
  pub as_bool : Value → Option Bool
  -- the decimal text of a number that is a `u64`
  pub u64_text : Value → Option Bytes
  pub is_null : Value → Bool
  pub null : Value
  pub boolean : Bool → Value
  pub string : Bytes → Value
  pub array : List Value → Value
  pub object : Map → Value
  pub new_map : Map
  pub get : Bytes → Map → Option Value
  pub insert : Bytes → Value → Map → Map
  pub remove : Bytes → Map → Map
  pub extend : Map → Map → Map
  pub same_value : Value → Value → Bool

module _ (json : Values) where
  open json use {Value, Map, as_object, as_str, as_array, object, string, array, get, insert}

  -- What the documentation of `serde_json` promises of constructors and of `Map::insert`.
  pub record IsLawful : Type 0 where
    pub as_object-object : (m : Map) → as_object (object m) ≡ some m
    pub as_str-string : (s : Bytes) → as_str (string s) ≡ some s
    pub as_array-array : (vs : List Value) → as_array (array vs) ≡ some vs
    pub get-insert : (name : Bytes) (v : Value) (m : Map) → get name (insert name v m) ≡ some v
    pub get-insert_other :
        (name other : Bytes) (v : Value) (m : Map)
        → same name other ≡ false
        → get name (insert other v m) ≡ get name m

-- `ReconcileError` with its message; `panic` is an `expect` that fails.
pub data ReconcileError : Type 0 where
  invalid panic : String → ReconcileError

-- What the module takes from the clock: the UTC stamp of `store.rs`, the New York date of a time,
-- and the New York wall clock of an RFC 3339 text.
pub record Clock : Type 1 where
  pub SystemTime : Type 0
  pub utc_stamp : SystemTime → Bytes
  pub new_york_date : SystemTime → Result ReconcileError Bytes
  pub utc_to_new_york : Bytes → Result ReconcileError Bytes

module _ (json : Values) where
  open json use {Value, Map, as_object, as_str, as_array, u64_text, get}

  -- `CourseAssignments`
  pub record CourseAssignments : Type 0 where
    pub key : Bytes
    pub groups : List Value
    pub assignments : List Value

  -- `Value::get`: a field of an object, none of another value
  abbrev pub field : Bytes → Value → Option Value
  field name v = elim (as_object v) [ none ↦ none | some m ↦ get name m ]

  pub field-eq :
      (name : Bytes) (v : Value) (m : Map) → as_object v ≡ some m → field name v ≡ get name m
  field-eq name v m e = ground (arith, e)

  -- `.and_then(Value::as_str)`
  abbrev pub text_of : Option Value → Option Bytes
  text_of none = none
  text_of (some v) = as_str v

  abbrev non_empty : Option Bytes → Option Bytes
  non_empty none = none
  non_empty (some []) = none
  non_empty (some (c ∷ s)) = some (c ∷ s)

  -- `.and_then(Value::as_str).filter(|text| !text.is_empty())`
  abbrev pub filled : Option Value → Option Bytes
  filled v = non_empty (text_of v)

  -- a value or `Value::Null`
  abbrev pub or_null : Option Value → Value
  or_null none = json.null
  or_null (some v) = v

  -- a test `== Some(value)` or between two fields
  abbrev pub same_option : Option Value → Option Value → Bool
  same_option none none = true
  same_option (some a) (some b) = json.same_value a b
  same_option _ _ = false

  -- the entries of a `json!` object, inserted in their order
  unfoldable pub insert_all : List (Bytes × Value) → Map → Map
  insert_all [] m = m
  insert_all ((name, v) ∷ entries) m = insert_all entries (json.insert name v m)

  unfoldable pub identity_key : Value → Option Bytes
  identity_key v = elim (as_str v) [
    | some [] ↦ none
    | some (c ∷ s) ↦ some (c ∷ s)
    | none ↦ u64_text v
  ]

  -- `.and_then(identity_key)`
  abbrev pub identity_of : Option Value → Option Bytes
  identity_of none = none
  identity_of (some v) = identity_key v

-- `== Some(text)`
abbrev pub is_text : Bytes → Option Bytes → Bool
is_text text none = false
is_text text (some s) = same text s

-- `Option::expect`
abbrev pub expect : {A : Type 0} → String → Option A → Result ReconcileError A
expect reason none = err (panic reason)
expect reason (some a) = ok a
