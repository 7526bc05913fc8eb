-- ===== src/Media/Verify.antt =====
-- `verify_content_type` of src-tauri/src/capture_media.rs.
use duegood.Base.{
  Bool, ◌&&◌, ◌||◌, Option, none, some, [], Bytes, Result, ok, err, ok_or, some_and, if◌then◌else◌,
  ◌>>=◌,
}
use duegood.Media.Types.{
  Mime, octet_stream, zip, ole_storage, plain, sql, html, is_mime, canonical_content_type,
  is_office_open_xml, is_legacy_office, is_text_type,
}
use duegood.Media.Sniff.{sniff_content_type, looks_like_html}

pub data MediaError : Type 0 where
  sign_in_response mime_signature_mismatch : MediaError

-- the tests that return the declared type, in their order
unfoldable pub agrees : Mime → Mime → Bool
agrees content_type detected =
    is_mime content_type detected
    || (is_text_type content_type && is_mime detected plain)
    || (is_mime content_type sql && is_mime detected plain)
    || (is_office_open_xml content_type && is_mime detected zip)
    || (is_legacy_office content_type && is_mime detected ole_storage)

-- the tests of a canonical type against the detected one
unfoldable pub against_header : Mime → Mime → Result MediaError Mime
against_header content_type detected =
    if is_mime content_type octet_stream
    then ok detected
    else if agrees content_type detected
    then ok content_type
    else err mime_signature_mismatch

unfoldable pub checked_header : Option Bytes → Mime → Result MediaError Mime
checked_header none detected = ok detected
checked_header (some raw_header) detected = do
  content_type ← ok_or mime_signature_mismatch (canonical_content_type raw_header)
  against_header content_type detected

-- `header.and_then(canonical_content_type)`
unfoldable pub header_type : Option Bytes → Option Mime
header_type none = none
header_type (some h) = canonical_content_type h

unfoldable pub verify_content_type : Option Bytes → Bytes → Result MediaError Mime
verify_content_type header [] = err mime_signature_mismatch
verify_content_type header prefix =
    if some_and (λ t. is_mime t html) (header_type header) || looks_like_html prefix
    then err sign_in_response
    else do
      detected ← ok_or mime_signature_mismatch (sniff_content_type prefix)
      checked_header header detected
