-- ===== src/Media/Types.antt =====
-- The reviewed MIME types of src-tauri/src/capture_media.rs and their aliases.
use duegood.Base.{
  ℕ, Bool, ◌==◌, Option, none, some, List, [], ◌∷◌, Bytes, codes, same, split_on, to_lower, trim,
  if◌then◌else◌, ◌||◌,
}

-- one constructor for each canonical name, and one for each detected name
pub data Mime : Type 0 where
  octet_stream pdf zip : Mime
  docx xlsx pptx : Mime
  msword ms_excel ms_powerpoint ole_storage : Mime
  jpeg png gif webp : Mime
  plain csv json xml : Mime
  sql sqlite3 mp4 svg html : Mime

abbrev pub mime_code : Mime → ℕ
mime_code octet_stream = 0
mime_code pdf = 1
mime_code zip = 2
mime_code docx = 3
mime_code xlsx = 4
mime_code pptx = 5
mime_code msword = 6
mime_code ms_excel = 7
mime_code ms_powerpoint = 8
mime_code ole_storage = 9
mime_code jpeg = 10
mime_code png = 11
mime_code gif = 12
mime_code webp = 13
mime_code plain = 14
mime_code csv = 15
mime_code json = 16
mime_code xml = 17
mime_code sql = 18
mime_code sqlite3 = 19
mime_code mp4 = 20
mime_code svg = 21
mime_code html = 22

-- equality of the static names
unfoldable pub is_mime : Mime → Mime → Bool
is_mime a b = mime_code a == mime_code b

-- the arms of the match in `canonical_content_type`
abbrev names : List (Bytes × Mime)
names =
    (codes "application/octet-stream", octet_stream)
    ∷ (codes "application/pdf", pdf)
    ∷ (codes "application/x-pdf", pdf)
    ∷ (codes "application/zip", zip)
    ∷ (codes "application/x-zip-compressed", zip)
    ∷ (codes "application/vnd.openxmlformats-officedocument.wordprocessingml.document", docx)
    ∷ (codes "application/vnd.openxmlformats-officedocument.spreadsheetml.sheet", xlsx)
    ∷ (codes "application/vnd.openxmlformats-officedocument.presentationml.presentation", pptx)
    ∷ (codes "application/msword", msword)
    ∷ (codes "application/vnd.ms-word", msword)
    ∷ (codes "application/vnd.ms-excel", ms_excel)
    ∷ (codes "application/vnd.ms-powerpoint", ms_powerpoint)
    ∷ (codes "image/jpeg", jpeg)
    ∷ (codes "image/jpg", jpeg)
    ∷ (codes "image/png", png)
    ∷ (codes "image/gif", gif)
    ∷ (codes "image/webp", webp)
    ∷ (codes "text/plain", plain)
    ∷ (codes "text/csv", csv)
    ∷ (codes "application/csv", csv)
    ∷ (codes "application/json", json)
    ∷ (codes "text/json", json)
    ∷ (codes "application/xml", xml)
    ∷ (codes "text/xml", xml)
    ∷ (codes "application/sql", sql)
    ∷ (codes "text/x-sql", sql)
    ∷ (codes "application/vnd.sqlite3", sqlite3)
    ∷ (codes "application/x-sqlite3", sqlite3)
    ∷ (codes "video/mp4", mp4)
    ∷ (codes "image/svg+xml", svg)
    ∷ (codes "text/html", html)
    ∷ (codes "application/xhtml+xml", html)
    ∷ []

named : Bytes → List (Bytes × Mime) → Option Mime
named value [] = none
named value ((n, m) ∷ rest) = let other = named value rest in if same value n then some m else other

-- `value.split(';').next()?`
first_piece : List Bytes → Option Bytes
first_piece [] = none
first_piece (p ∷ _) = some p

unfoldable pub canonical_content_type : Bytes → Option Mime
unfolding named first_piece split_on trim to_lower
canonical_content_type value = elim (first_piece (split_on (λ c. c == b';') value)) [
  | none ↦ none
  | some p ↦ named (to_lower (trim p)) names
]

unfoldable pub is_office_open_xml : Mime → Bool
is_office_open_xml m = is_mime m docx || is_mime m xlsx || is_mime m pptx

unfoldable pub is_legacy_office : Mime → Bool
is_legacy_office m = is_mime m msword || is_mime m ms_excel || is_mime m ms_powerpoint

unfoldable pub is_text_type : Mime → Bool
is_text_type m = is_mime m plain || is_mime m csv || is_mime m json || is_mime m xml
