-- ===== src/Media/Sniff.antt =====
-- `sniff_content_type` of src-tauri/src/capture_media.rs and the formats that it looks for.
use duegood.Base.{
  ℕ, ◌+◌, ◌-◌, ◌*◌, ◌%◌, Bool, true, false, not, ◌&&◌, ◌||◌, ltb, leb, ◌==◌, Option, none, some,
  List, [], ◌∷◌, Bytes, codes, same, starts_with, contains_byte, to_lower, trim_start, length, take,
  drop, any, get_elem?, if◌then◌else◌,
}
use duegood.Base.Utf8.{Utf8, valid, incomplete, invalid, from_utf8}
use duegood.Media.Types.{
  Mime, pdf, zip, ole_storage, jpeg, png, gif, webp, plain, sql, sqlite3, mp4, svg,
}
use duegood.Media.Scripts.{without_bom, is_svg, is_sql}

-- `slice[from..to]`, where it is in range
abbrev slice : ℕ → ℕ → Bytes → Bytes
slice from to s = take (to - from) (drop from s)

abbrev byte_at : Bytes → ℕ → ℕ
byte_at s i = elim (get_elem? s i) [ none ↦ 0 | some c ↦ c ]

abbrev brands : List Bytes
brands =
    codes "isom"
    ∷ codes "iso2"
    ∷ codes "iso3"
    ∷ codes "iso4"
    ∷ codes "iso5"
    ∷ codes "iso6"
    ∷ codes "iso7"
    ∷ codes "iso8"
    ∷ codes "iso9"
    ∷ codes "mp41"
    ∷ codes "mp42"
    ∷ codes "mp71"
    ∷ codes "avc1"
    ∷ codes "dash"
    ∷ codes "M4V "
    ∷ codes "M4VH"
    ∷ codes "M4VP"
    ∷ codes "MSNV"
    ∷ []

-- `u32::from_be_bytes`
box_size : Bytes → ℕ
box_size s = ((byte_at s 0 * 256 + byte_at s 1) * 256 + byte_at s 2) * 256 + byte_at s 3

unfoldable pub is_mp4 : Bytes → Bool
unfolding box_size
is_mp4 prefix =
    if ltb (length prefix) 16 || not (same (slice 4 8 prefix) (codes "ftyp"))
    then false
    else if ltb (box_size prefix) 16 || not ((box_size prefix - 16) % 4 == 0)
    then false
    else any (same (slice 8 12 prefix)) brands

unfoldable pub text_like : Utf8 → Bool
text_like valid = true
text_like (incomplete n) = ltb 0 n
text_like (invalid _) = false

unfoldable pub is_text_prefix : Bytes → Bool
unfolding text_like
is_text_prefix prefix = if contains_byte 0 prefix then false else text_like (from_utf8 prefix)

unfoldable pub sniff_content_type : Bytes → Option Mime
sniff_content_type prefix =
    if starts_with (codes "%PDF-") prefix
    then some pdf
    else if starts_with (0x89 ∷ b'P' ∷ b'N' ∷ b'G' ∷ 13 ∷ 10 ∷ 0x1a ∷ 10 ∷ []) prefix
    then some png
    else if starts_with (0xff ∷ 0xd8 ∷ 0xff ∷ []) prefix
    then some jpeg
    else if starts_with (codes "GIF87a") prefix || starts_with (codes "GIF89a") prefix
    then some gif
    else if leb 12 (length prefix)
        && starts_with (codes "RIFF") prefix
        && same (slice 8 12 prefix) (codes "WEBP")
    then some webp
    else if starts_with (b'P' ∷ b'K' ∷ 3 ∷ 4 ∷ []) prefix
        || starts_with (b'P' ∷ b'K' ∷ 5 ∷ 6 ∷ []) prefix
    then some zip
    else if starts_with (0xd0 ∷ 0xcf ∷ 0x11 ∷ 0xe0 ∷ 0xa1 ∷ 0xb1 ∷ 0x1a ∷ 0xe1 ∷ []) prefix
    then some ole_storage
    else if starts_with (codes "SQLite format 3\0") prefix
    then some sqlite3
    else if is_mp4 prefix
    then some mp4
    else if is_svg prefix
    then some svg
    else if is_sql prefix
    then some sql
    else if is_text_prefix prefix
    then some plain
    else none

abbrev pub html_markers : List Bytes
html_markers =
    codes "<!doctype html"
    ∷ codes "<html"
    ∷ codes "<head"
    ∷ codes "<body"
    ∷ codes "<form"
    ∷ codes "<meta"
    ∷ codes "<script"
    ∷ []

-- The markers and white space are ASCII or whole characters, so that replacing the bytes that
-- are no UTF-8 (`from_utf8_lossy`) changes none of these tests.
unfoldable pub looks_like_html : Bytes → Bool
unfolding starts_with to_lower trim_start
looks_like_html prefix =
    let trimmed = to_lower (trim_start (without_bom prefix)) in
    any (λ marker. starts_with marker trimmed) html_markers
