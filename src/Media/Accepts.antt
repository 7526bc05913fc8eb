-- ===== src/Media/Accepts.antt =====
-- What `verify_content_type` accepts, described without its order of tests.
use duegood.Base.{
  ◌≡◌, ◌≢◌, ◌↔◌, ◌⊎◌, refl, sym, inl, inr, ap, true, false, Option, none, some, List, [], ◌∷◌,
  Bytes, ok, arith, get_elem?, ==-iff, some_and, Bool-cases, Option-cases,
}
use duegood.Media.Types.{
  Mime, octet_stream, pdf, zip, docx, xlsx, pptx, msword, ms_excel, ms_powerpoint, ole_storage,
  jpeg, png, gif, webp, plain, csv, json, xml, sql, sqlite3, mp4, svg, html, mime_code, is_mime,
  is_text_type, is_office_open_xml, is_legacy_office, canonical_content_type,
}
use duegood.Media.Sniff.{sniff_content_type, looks_like_html}
use duegood.Media.Verify.{agrees, against_header, checked_header, header_type, verify_content_type}

abbrev all_types : List Mime
all_types =
    octet_stream ∷ pdf ∷ zip ∷ docx ∷ xlsx ∷ pptx ∷ msword ∷ ms_excel ∷ ms_powerpoint ∷ ole_storage
    ∷ jpeg ∷ png ∷ gif ∷ webp ∷ plain ∷ csv ∷ json ∷ xml ∷ sql ∷ sqlite3 ∷ mp4 ∷ svg ∷ html ∷ []

coded : (m : Mime) → get_elem? all_types (mime_code m) ≡ some m
coded octet_stream = refl
coded _ = refl

is_mime_iff : (a b : Mime) → (is_mime a b ≡ true) ↔ (a ≡ b)
unfolding is_mime
is_mime_iff a b = (
  λ h. cc (ap (get_elem? all_types) ((==-iff _ _).0 h), coded a, coded b),
  λ e. (==-iff _ _).1 (ap mime_code e),
)

-- A declared type and the format that the bytes show may differ in these ways.
abbrev pub Compatible : Mime → Mime → Type 0
Compatible declared detected =
    (declared ≡ detected)
    ⊎ (((declared ≡ plain)
          ⊎ (declared ≡ csv)
          ⊎ (declared ≡ json)
          ⊎ (declared ≡ xml)
          ⊎ (declared ≡ sql))
        × (detected ≡ plain))
    ⊎ (((declared ≡ docx) ⊎ (declared ≡ xlsx) ⊎ (declared ≡ pptx)) × (detected ≡ zip))
    ⊎ (((declared ≡ msword) ⊎ (declared ≡ ms_excel) ⊎ (declared ≡ ms_powerpoint))
        × (detected ≡ ole_storage))

abbrev pub Allows : Option Bytes → Mime → Mime → Type 0
Allows none detected m = m ≡ detected
Allows (some h) detected m =
    (declared : Mime) × (canonical_content_type h ≡ some declared)
    × (((declared ≡ octet_stream) × (m ≡ detected))
        ⊎ ((declared ≢ octet_stream) × (m ≡ declared) × Compatible declared detected))

is_text_type_iff :
    (t : Mime) → (is_text_type t ≡ true) ↔ ((t ≡ plain) ⊎ (t ≡ csv) ⊎ (t ≡ json) ⊎ (t ≡ xml))
unfolding is_text_type
is_text_type_iff t =
    ground (arith, is_mime_iff t plain, is_mime_iff t csv, is_mime_iff t json, is_mime_iff t xml)

is_office_open_xml_iff :
    (t : Mime) → (is_office_open_xml t ≡ true) ↔ ((t ≡ docx) ⊎ (t ≡ xlsx) ⊎ (t ≡ pptx))
unfolding is_office_open_xml
is_office_open_xml_iff t =
    ground (arith, is_mime_iff t docx, is_mime_iff t xlsx, is_mime_iff t pptx)

is_legacy_office_iff :
    (t : Mime) → (is_legacy_office t ≡ true) ↔ ((t ≡ msword) ⊎ (t ≡ ms_excel) ⊎ (t ≡ ms_powerpoint))
unfolding is_legacy_office
is_legacy_office_iff t =
    ground (arith, is_mime_iff t msword, is_mime_iff t ms_excel, is_mime_iff t ms_powerpoint)

module _ (t d m : Mime) where
  agrees_iff : (agrees t d ≡ true) ↔ Compatible t d
  unfolding agrees
  agrees_iff = ground (
    arith,
    is_mime_iff t d,
    is_text_type_iff t,
    is_mime_iff t sql,
    is_mime_iff d plain,
    is_office_open_xml_iff t,
    is_mime_iff d zip,
    is_legacy_office_iff t,
    is_mime_iff d ole_storage,
  )

  abbrev Answer : Type 0
  Answer = ((t ≡ octet_stream) × (m ≡ d)) ⊎ ((t ≢ octet_stream) × (m ≡ t) × Compatible t d)

  against_header_sound : against_header t d ≡ ok m → Answer
  unfolding against_header
  against_header_sound h = elim (Bool-cases (is_mime t octet_stream)) [
    | inl o ↦ inl ((is_mime_iff t octet_stream).0 o, ground arith)
    | inr o ↦ elim (Bool-cases (agrees t d)) [
      | inl g ↦ inr ((λ e. cc (o, (is_mime_iff t octet_stream).1 e)), ground arith, agrees_iff.0 g)
      | inr g ↦ absurd (ground arith)
    ]
  ]

  against_header_complete : Answer → against_header t d ≡ ok m
  unfolding against_header
  against_header_complete (inl (e, k)) = rw ((is_mime_iff t octet_stream).1 e) (ap ok (sym k))
  against_header_complete (inr (e, k, c)) = elim (Bool-cases (is_mime t octet_stream)) [
    | inl o ↦ absurd (e ((is_mime_iff t octet_stream).0 o))
    | inr o ↦ rw (o, agrees_iff.1 c) (ap ok (sym k))
  ]

-- A file passes exactly when it is not empty, neither its header nor its bytes are HTML, its
-- bytes show some format, and the header (if any) allows the result for that format.
abbrev pub Passes : Option Bytes → Bytes → Mime → Type 0
Passes header prefix m =
    (prefix ≢ [])
    × (header_type header ≢ some html)
    × (looks_like_html prefix ≡ false)
    × ((detected : Mime) × (sniff_content_type prefix ≡ some detected) × Allows header detected m)

is_html_iff : (o : Option Mime) → (some_and (λ t. is_mime t html) o ≡ true) ↔ (o ≡ some html)
is_html_iff none = ground arith
is_html_iff (some t) = ground (arith, is_mime_iff t html)

checked_header-Allows :
    (header : Option Bytes) (d m : Mime) → (checked_header header d ≡ ok m) ↔ Allows header d m
unfolding checked_header
checked_header-Allows none d m = (λ h. ground arith, λ h. ground arith)
checked_header-Allows (some raw) d m = elim (Option-cases (canonical_content_type raw)) [
  | inl e ↦ (λ h. absurd (ground arith), λ w. let (t, k, _) = w in absurd (ground arith))
  | inr (t, e) ↦ (
    (λ h. (t, e, against_header_sound t d m (rw (e, checked_header) at h))),
    λ w. let (t', k, c) = w in rw (k, checked_header) (against_header_complete t' d m c),
  )
]

module _ (header : Option Bytes) (m : Mime) where
  verify_sound :
      (prefix : Bytes) → verify_content_type header prefix ≡ ok m → Passes header prefix m
  unfolding verify_content_type
  verify_sound [] h = absurd (ground arith)
  verify_sound (c ∷ s) h = elim (Option-cases (sniff_content_type (c ∷ s))) [
    | inl e ↦ absurd (ground arith)
    | inr (d, e) ↦ (
      (λ k. cc k),
      (λ k. ground (arith, is_html_iff (header_type header))),
      ground arith,
      (d, e, (checked_header-Allows header d m).0 (ground arith)),
    )
  ]

  verify_complete :
      (prefix : Bytes) → Passes header prefix m → verify_content_type header prefix ≡ ok m
  unfolding verify_content_type
  verify_complete [] p = absurd (p.0 refl)
  verify_complete (c ∷ s) (_, nh, nl, (d, e, al)) =
      ground (arith, is_html_iff (header_type header), (checked_header-Allows header d m).1 al)

  -- The check returns a type exactly when the file passes: it is not empty, neither its header nor its
  -- bytes are HTML, its bytes show some format, and the header, if any, allows the type for it.
  pub verify_iff :
      (prefix : Bytes) → (verify_content_type header prefix ≡ ok m) ↔ Passes header prefix m
  verify_iff prefix = (verify_sound prefix, verify_complete prefix)
