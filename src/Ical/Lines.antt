-- ===== src/Ical/Lines.antt =====
-- The text level of src-tauri/src/ical_parse.rs: bounded text, folded lines, escapes.
use duegood.Base.{
  ℕ, ◌+◌, Bool, true, false, not, ◌&&◌, ◌||◌, ltb, leb, ◌==◌, Option, none, some, List, [], ◌∷◌,
  ◌++◌, reverse, Bytes, codes, same, split_on, split_once, eq_ignore_case, any, last?, some_and,
  is_some, Result, ok, err, ok_or, if◌then◌else◌, ◌>>=◌,
}
use duegood.Ical.Types.{IcalError, malformed_calendar, unresolved_timezone, Clock}

-- `encode_utf16().count()`: one unit for each character of up to three bytes, two for four
utf16_units : ℕ → ℕ
utf16_units c = if ltb c 0x80 then 1 else if ltb c 0xc0 then 0 else if ltb c 0xf0 then 1 else 2

unfoldable pub utf16_len : Bytes → ℕ
unfolding utf16_units
utf16_len [] = 0
utf16_len (c ∷ s) = utf16_units c + utf16_len s

unfoldable pub is_control : ℕ → Bool
is_control c = leb c 8 || (leb 11 c && leb c 12) || (leb 14 c && leb c 31) || c == 127

abbrev pub is_empty : Bytes → Bool
is_empty [] = true
is_empty (_ ∷ _) = false

unfoldable pub safe_text : Bytes → ℕ → Bool
unfolding utf16_len is_control
safe_text value max =
    not (is_empty value) && leb (utf16_len value) max && not (any is_control value)

unfoldable pub is_blank : ℕ → Bool
is_blank c = c == 32 || c == 9

unfoldable pub is_break : ℕ → Bool
is_break c = c == 13 || c == 10

-- The loop of `unfold`; `lines` holds the last line first.
unfoldable pub join_lines : List Bytes → List Bytes → Result IcalError (List Bytes)
join_lines lines [] = ok (reverse lines)
join_lines lines ([] ∷ input) = join_lines lines input
join_lines [] ((c ∷ s) ∷ input) =
    let more = join_lines ((c ∷ s) ∷ []) input in
    if is_blank c then err malformed_calendar else more
join_lines (previous ∷ lines) ((c ∷ s) ∷ input) =
    let joined = join_lines ((previous ++ s) ∷ lines) input in
    let fresh = join_lines ((c ∷ s) ∷ previous ∷ lines) input in
    if is_blank c then joined else fresh

abbrev first? : List Bytes → Option Bytes
first? [] = none
first? (l ∷ _) = some l

-- the envelope that `unfold` asks for
unfoldable pub has_envelope : List Bytes → Bool
has_envelope lines =
    some_and (same (codes "BEGIN:VCALENDAR")) (first? lines)
    && some_and (same (codes "END:VCALENDAR")) (last? lines)
    && any (same (codes "VERSION:2.0")) lines

unfoldable pub unfold_lines : Bytes → Result IcalError (List Bytes)
unfolding join_lines has_envelope is_break is_blank split_on
unfold_lines input = do
  lines ← join_lines [] (split_on is_break input)
  if has_envelope lines then ok lines else err malformed_calendar

-- the part behind the first colon
abbrev value_part : Option (Bytes × Bytes) → Option Bytes
value_part none = none
value_part (some (_, v)) = some v

unfoldable pub property_value : Bytes → Result IcalError Bytes
unfolding split_once
property_value line = ok_or malformed_calendar (value_part (split_once b':' line))

-- the value of a `KEY=value` parameter whose key is TZID
tzid_param : Option (Bytes × Bytes) → Option Bytes
tzid_param none = none
tzid_param (some (key, value)) = if eq_ignore_case key (codes "TZID") then some value else none

unfoldable pub find_tzid : List Bytes → Option Bytes
unfolding tzid_param split_once eq_ignore_case
find_tzid [] = none
find_tzid (p ∷ params) =
    let later = find_tzid params in
    elim (tzid_param (split_once b'=' p)) [ some v ↦ some v | none ↦ later ]

abbrev pub skip_first : List Bytes → List Bytes
skip_first [] = []
skip_first (_ ∷ rest) = rest

abbrev pub is_semicolon : ℕ → Bool
is_semicolon c = c == b';'

module _ (clock : Clock) where
  known_zone : Option Bytes → Result IcalError (Unit {0})
  known_zone none = ok tt
  known_zone (some name) =
      if is_some (clock.parse_zone name) then ok tt else err unresolved_timezone

  unfoldable pub validate_tzid : Bytes → Result IcalError (Unit {0})
  unfolding known_zone find_tzid split_on
  validate_tzid head = known_zone (find_tzid (skip_first (split_on is_semicolon head)))

-- what a backslash and the next character stand for
unescaped : ℕ → Bytes → Bytes
unescaped d out =
    if d == b'n' || d == b'N'
    then 10 ∷ out
    else if d == b',' || d == b';' || d == b'\\'
    then d ∷ out
    else b'\\' ∷ d ∷ out

unfoldable pub unescape_text : Bytes → Bytes
unfolding unescaped
unescape_text [] = []
unescape_text (c ∷ []) = c ∷ []
unescape_text (c ∷ d ∷ s) =
    let behind = unescape_text s in
    let next = unescape_text (d ∷ s) in if c == b'\\' then unescaped d behind else c ∷ next
