-- ===== src/Media/SignIn.antt =====
-- The sign-in check of `verify_content_type` in src-tauri/src/capture_media.rs.
use duegood.Base.{
  ℕ, ◌≡◌, ◌≢◌, true, Option, some, List, [], ◌∷◌, ◌++◌, ap, refl, inl, inr, Bool-cases, ◌∙◌, Bytes,
  codes, same, same_iff, all, any, lower, to_lower, starts_with, is_ascii_space, trim_start-gap,
  starts_with_iff, split_on, trim, trim_end, trim_start, strip_prefix, err, arith,
}
use duegood.Media.Sniff.{looks_like_html, html_markers}
use duegood.Media.Scripts.{without_bom}
use duegood.Media.Types.{canonical_content_type, is_mime}
use duegood.Media.Verify.{sign_in_response, header_type, verify_content_type}

to_lower-append : (a b : Bytes) → to_lower (a ++ b) ≡ to_lower a ++ to_lower b
unfolding to_lower
to_lower-append [] b = refl
to_lower-append (x ∷ a) b = ap (λ t. lower x ∷ t) (to_lower-append a b)

any_prefix :
    (marks : List Bytes) (tag rest : Bytes)
    → any (same (to_lower tag)) marks ≡ true
    → any (λ mark. starts_with mark (to_lower (tag ++ rest))) marks ≡ true
any_prefix [] tag rest h = h
any_prefix (mark ∷ marks) tag rest h = elim (Bool-cases (same (to_lower tag) mark)) [
  | inl e ↦
      let q : to_lower tag ≡ mark = (same_iff (to_lower tag) mark).0 e in
      let s : starts_with mark (to_lower (tag ++ rest)) ≡ true =
        (starts_with_iff mark _).1
          (to_lower rest, to_lower-append tag rest ∙ ap (λ t. t ++ to_lower rest) q) in
      ground (arith, s)
  | inr e ↦ ground (arith, e, any_prefix marks tag rest)
]

-- Every mark begins with `<`, which is no letter.
mark_opens :
    (tag : Bytes) → any (same (to_lower tag)) html_markers ≡ true → (t : Bytes) × (tag ≡ b'<' ∷ t)
unfolding to_lower lower
mark_opens [] h = ground arith
mark_opens (c ∷ t) h = let q : c ≡ b'<' = ground arith in (t, rw q refl)

no_bom :
    (gap t : Bytes)
    → all is_ascii_space gap ≡ true
    → without_bom (gap ++ (b'<' ∷ t)) ≡ gap ++ (b'<' ∷ t)
unfolding strip_prefix
no_bom [] t a = refl
no_bom (c ∷ gap) t a = ground arith

filled : (gap t : Bytes) → gap ++ (b'<' ∷ t) ≢ []
filled [] t h = cc
filled (c ∷ gap) t h = cc

html_refused :
    (header : Option Bytes) (prefix : Bytes)
    → looks_like_html prefix ≡ true
    → prefix ≢ []
    → verify_content_type header prefix ≡ err sign_in_response
unfolding verify_content_type
html_refused header [] h n = absurd (n refl)
html_refused header (c ∷ s) h n = ground (arith, h)

marked :
    (gap tag rest t : Bytes)
    → tag ≡ b'<' ∷ t
    → all is_ascii_space gap ≡ true
    → any (same (to_lower tag)) html_markers ≡ true
    → looks_like_html (gap ++ (tag ++ rest)) ≡ true
unfolding looks_like_html
marked gap tag rest t e a h =
    let trimmed : trim_start (without_bom (gap ++ (tag ++ rest))) ≡ tag ++ rest =
      rw e (rw (no_bom gap (t ++ rest) a) (trim_start-gap gap (t ++ rest) a)) in
    rw trimmed (any_prefix html_markers tag rest h)

html_header_refused :
    (params : Bytes) (c : ℕ) (s : Bytes)
    → verify_content_type (some (codes "text/html" ++ (b';' ∷ params))) (c ∷ s)
      ≡ err sign_in_response
unfolding verify_content_type header_type canonical_content_type is_mime split_on trim trim_start
    trim_end to_lower strip_prefix
html_header_refused params c s = refl

-- A text that begins, behind any ASCII white space, with the mark of an HTML page in letters of any case
-- is refused as a sign-in response, whatever its header is and whatever follows the mark; and so is
-- any file that is not empty under a header of text/html with whatever parameters.
pub sign_in_refused :
    (header : Option Bytes) (gap tag rest params : Bytes) (c : ℕ) (s : Bytes)
    → all is_ascii_space gap ≡ true
    → any (same (to_lower tag)) html_markers ≡ true
    → (verify_content_type header (gap ++ (tag ++ rest)) ≡ err sign_in_response)
      × (verify_content_type (some (codes "text/html" ++ (b';' ∷ params))) (c ∷ s)
          ≡ err sign_in_response)
sign_in_refused header gap tag rest params c s a h =
    let (t, e) = mark_opens tag h in
    (
      html_refused header _ (marked gap tag rest t e a h) (rw e (filled gap (t ++ rest))),
      html_header_refused params c s,
    )
