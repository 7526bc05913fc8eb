-- ===== src/Ical/Links.antt =====
-- Canvas links: the second half of src-tauri/src/ical_parse.rs.
use duegood.Base.{
  ℕ, Bool, true, false, not, ◌&&◌, ◌||◌, ltb, leb, ◌==◌, Option, none, some, List, [], ◌∷◌, ◌++◌,
  Bytes, codes, same, strip_prefix, starts_with, split_on, is_digit, all_digits, length, is_some,
  Result, ok, err, if◌then◌else◌,
}
use duegood.Ical.Types.{IcalError, invalid_input, Urls}
use duegood.Ical.Lines.{utf16_len, is_empty}

-- `kind` of a `CanvasLink`: the static names "assignment" and "event"
pub data LinkKind : Type 0 where
  assignment event : LinkKind

pub record CanvasLink : Type 0 where
  pub course_id : Bytes
  pub kind : LinkKind
  pub id : Bytes
  pub url : Bytes

-- the path's segment for a kind
abbrev pub segment : LinkKind → Bytes
segment assignment = codes "assignments"
segment event = codes "calendar_events"

unfoldable pub numeric_id : Bytes → Bool
unfolding all_digits is_digit
numeric_id [] = false
numeric_id (c ∷ s) = is_digit c && not (c == b'0') && all_digits (c ∷ s)

unfoldable pub calendar_month : Bytes → Bool
calendar_month (a ∷ []) = leb b'1' a && leb a b'9'
calendar_month (a ∷ b ∷ []) =
    (a == b'0' && leb b'1' b && leb b b'9') || (a == b'1' && leb b'0' b && leb b b'2')
calendar_month _ = false

-- the pieces of a path without the last one if that is empty
pub drop_empty_last : List Bytes → List Bytes
drop_empty_last [] = []
drop_empty_last (p ∷ []) = if is_empty p then [] else p ∷ []
drop_empty_last (p ∷ q ∷ ps) = p ∷ drop_empty_last (q ∷ ps)

-- `resource.is_none_or(|r| r == name)`
abbrev wanted : Option Bytes → Bytes → Bool
wanted none name = true
wanted (some r) name = same r name

unfoldable pub path_kind : Option Bytes → Bytes → Option LinkKind
path_kind resource part =
    if same part (codes "assignments") && wanted resource (codes "assignments")
    then some assignment
    else if same part (codes "calendar_events") && wanted resource (codes "calendar_events")
    then some event
    else none

-- the test on the five parts of a path, and its result
unfoldable pub five_parts : Option Bytes → List Bytes → Option (Bytes × LinkKind × Bytes)
five_parts resource (root ∷ courses ∷ course ∷ kind ∷ id ∷ []) =
    if not (is_empty root)
      || not (same courses (codes "courses"))
      || not (numeric_id course)
      || not (numeric_id id)
    then none
    else elim (path_kind resource kind) [ none ↦ none | some k ↦ some (course, k, id) ]
five_parts resource _ = none

abbrev pub is_slash : ℕ → Bool
is_slash c = c == b'/'

unfoldable pub path_id : Bytes → Option Bytes → Option (Bytes × LinkKind × Bytes)
unfolding five_parts path_kind drop_empty_last split_on
path_id path resource = five_parts resource (drop_empty_last (split_on is_slash path))

-- the canonical URL of a link
unfoldable pub canonical_url : Bytes → Bytes → LinkKind → Bytes → Bytes
canonical_url origin course_id kind id =
    origin
    ++ (codes "/courses/" ++ (course_id ++ (codes "/" ++ (segment kind ++ (codes "/" ++ id)))))

abbrev pub link : Bytes → Bytes → LinkKind → Bytes → CanvasLink
link origin course_id kind id = record {
  course_id = course_id;
  kind = kind;
  id = id;
  url = canonical_url origin course_id kind id;
}

-- the kind and the ID that a UID names
unfoldable pub uid_kind : Bytes → Option (LinkKind × Bytes)
unfolding strip_prefix
uid_kind uid = elim (strip_prefix (codes "event-") uid) [
  | none ↦ none
  | some u ↦ elim (strip_prefix (codes "assignment-") u) [
    | some id ↦ some (assignment, id)
    | none ↦ elim (strip_prefix (codes "calendar-event-") u) [
      | some id ↦ some (event, id)
      | none ↦ none
    ]
  ]
]

-- `values.get(key)`, the map being filled from the pairs
unfoldable pub value_of : Bytes → List (Bytes × Bytes) → Option Bytes
value_of key [] = none
value_of key ((k, v) ∷ pairs) =
    let later = value_of key pairs in if same k key then some v else later

has_key : Bytes → List (Bytes × Bytes) → Bool
unfolding value_of
has_key key pairs = is_some (value_of key pairs)

-- some key is inserted a second time
unfoldable pub repeats_key : List (Bytes × Bytes) → Bool
unfolding has_key
repeats_key [] = false
repeats_key ((k, v) ∷ pairs) = has_key k pairs || repeats_key pairs

valid_year : Bytes → Bool
valid_year year = length year == 4 && not (starts_with (codes "0") year) && all_digits year

abbrev pub fragment_prefix : LinkKind → Bytes
fragment_prefix assignment = codes "assignment_"
fragment_prefix event = codes "calendar_event_"

-- the tests on the course, the month and the year of a calendar link
unfoldable pub calendar_course : List (Bytes × Bytes) → Option Bytes
unfolding value_of valid_year
calendar_course pairs = elim (value_of (codes "include_contexts") pairs) [
  | none ↦ none
  | some context ↦ elim (strip_prefix (codes "course_") context) [
    | none ↦ none
    | some course_id ↦ elim (value_of (codes "month") pairs) [
      | none ↦ none
      | some month ↦ elim (value_of (codes "year") pairs) [
        | none ↦ none
        | some year ↦
            if not (numeric_id course_id) || not (calendar_month month) || not (valid_year year)
            then none
            else some course_id
      ]
    ]
  ]
]

module _ (urls : Urls) where
  open urls use {
    Url, parse, scheme, username, password, path, query, fragment, query_pairs,
    origin as url_origin,
  }

  abbrev is_https : Url → Bool
  is_https u = same (scheme u) (codes "https")

  -- `origin`: a bare https origin, and its serialisation
  unfoldable pub origin : Bytes → Result IcalError (Url × Bytes)
  origin value = elim (parse value) [
    | none ↦ err invalid_input
    | some u ↦
        if not (is_https u)
          || not (is_empty (username u))
          || is_some (password u)
          || not (same (path u) (codes "/"))
          || is_some (query u)
          || is_some (fragment u)
        then err invalid_input
        else ok (u, url_origin u)
  ]

  abbrev no_fragment : Option Bytes → Bool
  no_fragment none = true
  no_fragment (some f) = is_empty f

  -- a link straight to an assignment or an event
  unfoldable pub direct_link : Url → Bytes → Option CanvasLink
  direct_link u expected = if not (is_https u) then none else elim (path_id (path u) none) [
    | none ↦ none
    | some (course, kind, id) ↦ some (link expected course kind id)
  ]

  -- a link to the calendar, which must agree with the UID
  unfoldable pub calendar_link : Url → Bytes → Bytes → Option CanvasLink
  calendar_link u uid expected =
      if not (same (path u) (codes "/calendar")) || not (is_https u)
      then none
      else elim (uid_kind uid) [
        | none ↦ none
        | some (kind, id) ↦
            if not (numeric_id id)
              || not (length (query_pairs u) == 3)
              || repeats_key (query_pairs u)
            then none
            else elim (calendar_course (query_pairs u)) [
              | none ↦ none
              | some course ↦ elim (fragment u) [
                | none ↦ none
                | some f ↦
                    if same f (fragment_prefix kind ++ id)
                    then some (link expected course kind id)
                    else none
              ]
            ]
      ]

  unfoldable pub link_of : Url → Bytes → Bytes → Option CanvasLink
  unfolding direct_link calendar_link
  link_of u uid expected =
      if not (same (url_origin u) expected) || not (is_empty (username u)) || is_some (password u)
      then none
      else if no_fragment (fragment u)
      then direct_link u expected
      else calendar_link u uid expected

  unfoldable pub canvas_link : Option Bytes → Bytes → Bytes → Option CanvasLink
  unfolding link_of
  canvas_link none uid expected = none
  canvas_link (some raw) uid expected =
      if ltb 2048 (utf16_len raw)
      then none
      else elim (parse raw) [ none ↦ none | some u ↦ link_of u uid expected ]
