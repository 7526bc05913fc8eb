-- ===== src/Media/Examples.antt =====
-- The checks of src-tauri/src/capture_media.rs at concrete files: tests, and the theorems there.
use duegood.Base.{
  ◌≡◌, ◌≢◌, ◌↔◌, refl, true, false, Option, some, [], ◌∷◌, ◌++◌, Bytes, codes, ok, err, arith,
  contains_byte, split_on, trim, trim_start, trim_end, to_lower, strip_prefix, starts_with,
  find_text,
}
use duegood.Base.Utf8.{valid, from_utf8, scan, after_lead}
use duegood.Media.Types.{pdf, is_mime, canonical_content_type}
use duegood.Media.Scripts.{rest, out_of_fuel, skip_once, skip_blocks, sql_blocks}
use duegood.Media.Sniff.{sniff_content_type, looks_like_html, is_text_prefix}
use duegood.Media.Verify.{
  agrees, against_header, checked_header, header_type, verify_content_type, sign_in_response,
}
use duegood.Media.Prolog.{OpensFilled, Consists, OpensNone, skip_blocks_ends, skip_blocks-Consists}
use duegood.Media.Accepts.{Passes, verify_iff}
use duegood.Media.SignIn.{sign_in_refused}
use duegood.Media.TextPrefix.{text_prefix_recognised}

abbrev file : Bytes
file = codes "%PDF-1.7"

abbrev header : Option Bytes
header = some (codes "application/pdf; charset=binary")

pdf-verifies : verify_content_type header file ≡ ok pdf
unfolding verify_content_type header_type canonical_content_type looks_like_html sniff_content_type
    checked_header against_header agrees is_mime trim trim_start trim_end to_lower split_on
    starts_with strip_prefix
pdf-verifies = refl

verify_iff_example : (verify_content_type header file ≡ ok pdf) ↔ Passes header file pdf
verify_iff_example = verify_iff header pdf file

sign_in_refused_example :
    (verify_content_type header (codes "\n " ++ (codes "<HTML" ++ codes ">"))
      ≡ err sign_in_response)
    × (verify_content_type (some (codes "text/html" ++ (b';' ∷ codes "charset=utf-8"))) file
        ≡ err sign_in_response)
unfolding to_lower
sign_in_refused_example =
    sign_in_refused header (codes "\n ") (codes "<HTML") (codes ">") (codes "charset=utf-8") b'%'
      (codes "PDF-1.7") refl refl

-- a text that is cut within its last character
abbrev cut : Bytes
cut = codes "abc" ++ 0xc3 ∷ []

cut-valid : from_utf8 (cut ++ 0xa9 ∷ []) ≡ valid
unfolding from_utf8 scan after_lead
cut-valid = refl

cut-plain : contains_byte 0 cut ≡ false
unfolding contains_byte
cut-plain = refl

text_prefix_recognised_example : is_text_prefix cut ≡ true
text_prefix_recognised_example =
    text_prefix_recognised cut (0xa9 ∷ []) cut-valid cut-plain (omega arith)

abbrev script : Bytes
script = codes "-- a\n/* b */ SELECT"

abbrev opens : OpensFilled sql_blocks
opens = (omega arith, (omega arith, tt))

skip_blocks_ends_example : skip_blocks sql_blocks 20 script ≢ out_of_fuel
skip_blocks_ends_example = skip_blocks_ends sql_blocks 20 script opens (omega arith)

script-rests : skip_blocks sql_blocks 20 script ≡ rest (codes "SELECT")
unfolding skip_blocks skip_once trim_start strip_prefix find_text
script-rests = refl

skip_blocks-Consists_example :
    Consists sql_blocks (codes "SELECT") script × OpensNone sql_blocks (codes "SELECT")
skip_blocks-Consists_example =
    skip_blocks-Consists sql_blocks 20 script (codes "SELECT") script-rests
