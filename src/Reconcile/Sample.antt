-- ===== src/Reconcile/Sample.antt =====
-- JSON values as a data type, for the runs of the definitions of src-tauri/src/reconcile.rs: an
-- object is the list of its entries in the order of their insertion.
use duegood.Base.{
  Bool, true, false, ◌&&◌, Option, none, some, List, [], ◌∷◌, Bytes, same, same_iff, same_refl, ◌≡◌,
  refl, ap, inl, inr, Bool-cases, if◌then◌else◌, arith,
}
use duegood.Reconcile.Values.{Values, IsLawful}

mutual
  pub data Json : Type 0 where
    nothing : Json
    flag : Bool → Json
    whole : Bytes → Json
    word : Bytes → Json
    listing : Elements → Json
    entries : Entries → Json

  pub data Elements : Type 0 where
    no_more : Elements
    next : Json → Elements → Elements

  pub data Entries : Type 0 where
    empty : Entries
    entry : Bytes → Json → Entries → Entries

unfoldable pub elements : List Json → Elements
elements [] = no_more
elements (v ∷ vs) = next v (elements vs)

unfoldable pub to_list : Elements → List Json
to_list no_more = []
to_list (next v vs) = v ∷ to_list vs

unfoldable pub get_entry : Bytes → Entries → Option Json
get_entry name empty = none
get_entry name (entry key v m) =
    let rest = get_entry name m in if same name key then some v else rest

unfoldable pub insert_entry : Bytes → Json → Entries → Entries
insert_entry name v empty = entry name v empty
insert_entry name v (entry key w m) =
    let rest = insert_entry name v m in if same name key then entry key v m else entry key w rest

unfoldable pub remove_entry : Bytes → Entries → Entries
remove_entry name empty = empty
remove_entry name (entry key w m) =
    let rest = remove_entry name m in if same name key then rest else entry key w rest

unfoldable pub extend_entries : Entries → Entries → Entries
extend_entries m empty = m
extend_entries m (entry key v more) = extend_entries (insert_entry key v m) more

unfoldable mutual
  pub same_json : Json → Json → Bool
  same_json nothing nothing = true
  same_json (flag true) (flag true) = true
  same_json (flag false) (flag false) = true
  same_json (whole s) (whole t) = same s t
  same_json (word a) (word b) = same a b
  same_json (listing a) (listing b) = same_elements a b
  same_json (entries a) (entries b) = same_entries a b
  same_json _ _ = false

  pub same_elements : Elements → Elements → Bool
  same_elements no_more no_more = true
  same_elements (next v vs) (next w ws) = same_json v w && same_elements vs ws
  same_elements _ _ = false

  pub same_entries : Entries → Entries → Bool
  same_entries empty empty = true
  same_entries (entry k v m) (entry l w n) = same k l && same_json v w && same_entries m n
  same_entries _ _ = false

unfoldable pub object_of : Json → Option Entries
object_of (entries m) = some m
object_of _ = none

unfoldable pub array_of : Json → Option (List Json)
array_of (listing vs) = some (to_list vs)
array_of _ = none

unfoldable pub word_of : Json → Option Bytes
word_of (word s) = some s
word_of _ = none

unfoldable pub flag_of : Json → Option Bool
flag_of (flag b) = some b
flag_of _ = none

unfoldable pub digits_of : Json → Option Bytes
digits_of (whole s) = some s
digits_of _ = none

unfoldable pub is_nothing : Json → Bool
is_nothing nothing = true
is_nothing _ = false

abbrev pub json : Values
json = record {
  Value = Json;
  Map = Entries;
  as_object = object_of;
  as_array = array_of;
  as_str = word_of;
  as_bool = flag_of;
  u64_text = digits_of;
  is_null = is_nothing;
  null = nothing;
  boolean = flag;
  string = word;
  array = λ vs. listing (elements vs);
  object = entries;
  new_map = empty;
  get = get_entry;
  insert = insert_entry;
  remove = remove_entry;
  extend = extend_entries;
  same_value = same_json;
}

to_list-elements : (vs : List Json) → to_list (elements vs) ≡ vs
unfolding to_list elements
to_list-elements [] = refl
to_list-elements (v ∷ vs) = ap (λ x. v ∷ x) (to_list-elements vs)

get-insert_lem :
    (name : Bytes) (v : Json) (m : Entries) → get_entry name (insert_entry name v m) ≡ some v
unfolding get_entry insert_entry
get-insert_lem name v empty = ground (arith, same_refl name)
get-insert_lem name v (entry key w m) = ground (arith, get-insert_lem name v m)

get-insert_other_lem :
    (name other : Bytes) (v : Json) (m : Entries)
    → same name other ≡ false
    → get_entry name (insert_entry other v m) ≡ get_entry name m
unfolding get_entry insert_entry
get-insert_other_lem name other v empty h = ground arith
get-insert_other_lem name other v (entry key w m) h = elim (Bool-cases (same other key)) [
  | inl e ↦ ground (arith, e, same_iff other key)
  | inr e ↦ ground (arith, e, get-insert_other_lem name other v m h)
]

pub lawful : IsLawful json
unfolding object_of array_of word_of
lawful = record {
  as_object-object = λ m. refl;
  as_str-string = λ s. refl;
  as_array-array = λ vs. ap some (to_list-elements vs);
  get-insert = get-insert_lem;
  get-insert_other = get-insert_other_lem;
}
