-- ===== src/Ical/LinksSound.antt =====
-- What a link that `canvas_link` of src-tauri/src/ical_parse.rs accepts is like.
use duegood.Base.{
  true, ◌≤◌, Option, none, some, List, [], ◌∷◌, Bytes, same_iff, Option-cases, split_on, ◌≡◌, refl,
  inl, inr, arith,
}
use duegood.Ical.Types.{Urls}
use duegood.Ical.Lines.{utf16_len}
use duegood.Ical.Links.{
  LinkKind, CanvasLink, numeric_id, canonical_url, five_parts, path_id, uid_kind, calendar_course,
  direct_link, calendar_link, link_of, canvas_link, drop_empty_last, is_slash,
}

-- both numbers are positive decimals, and the URL is the canonical one
abbrev pub IsCanonical : Bytes → CanvasLink → Type 0
IsCanonical expected l =
    (numeric_id l.course_id ≡ true)
    × (numeric_id l.id ≡ true)
    × (l.url ≡ canonical_url expected l.course_id l.kind l.id)

five_parts-numeric :
    (resource : Option Bytes) (parts : List Bytes) (course id : Bytes) (kind : LinkKind)
    → five_parts resource parts ≡ some (course, kind, id)
    → (numeric_id course ≡ true) × (numeric_id id ≡ true)
unfolding five_parts
five_parts-numeric resource (root ∷ courses ∷ c ∷ k ∷ i ∷ []) course id kind h = ground arith
five_parts-numeric resource _ course id kind h = ground arith

path_id-numeric :
    (path : Bytes) (resource : Option Bytes) (course id : Bytes) (kind : LinkKind)
    → path_id path resource ≡ some (course, kind, id)
    → (numeric_id course ≡ true) × (numeric_id id ≡ true)
unfolding path_id
path_id-numeric path resource course id kind h =
    five_parts-numeric resource (drop_empty_last (split_on is_slash path)) course id kind h

calendar_course-numeric :
    (pairs : List (Bytes × Bytes)) (course : Bytes)
    → calendar_course pairs ≡ some course
    → numeric_id course ≡ true
unfolding calendar_course
calendar_course-numeric pairs course h = ground arith

module _ (urls : Urls) where
  open urls use {Url, parse, username, password, origin as url_origin}

  direct_link-IsCanonical :
      (u : Url) (expected : Bytes) (l : CanvasLink)
      → direct_link urls u expected ≡ some l
      → IsCanonical expected l
  unfolding direct_link
  direct_link-IsCanonical u expected l h = elim (Option-cases (path_id (urls.path u) none)) [
    | inl e ↦ ground (arith, e)
    | inr ((c, k, i), e) ↦ ground (arith, e, path_id-numeric (urls.path u) none c i k e)
  ]

  calendar_link-IsCanonical :
      (u : Url) (uid expected : Bytes) (l : CanvasLink)
      → calendar_link urls u uid expected ≡ some l
      → IsCanonical expected l
  unfolding calendar_link
  calendar_link-IsCanonical u uid expected l h = elim (Option-cases (uid_kind uid)) [
    | inl e ↦ ground (arith, e)
    | inr ((k, i), e) ↦ elim (Option-cases (calendar_course (urls.query_pairs u))) [
      | inl c ↦ ground (arith, e, c)
      | inr (course, c) ↦
          ground (arith, e, c, calendar_course-numeric (urls.query_pairs u) course c)
    ]
  ]

  link_of-IsCanonical :
      (u : Url) (uid expected : Bytes) (l : CanvasLink)
      → link_of urls u uid expected ≡ some l
      → IsCanonical expected l × (url_origin u ≡ expected) × (username u ≡ []) × (password u ≡ none)
  unfolding link_of
  link_of-IsCanonical u uid expected l h = ground (
    arith,
    direct_link-IsCanonical u expected l,
    calendar_link-IsCanonical u uid expected l,
    same_iff (url_origin u) expected,
  )

  -- An accepted link has positive decimal IDs without a leading zero and the canonical URL for the
  -- expected origin, and it comes from a URL of at most 2048 UTF-16 units that parses, has that
  -- origin, and names no user and no password.
  pub canvas_link-IsCanonical :
      (url : Option Bytes) (uid expected : Bytes) (l : CanvasLink)
      → canvas_link urls url uid expected ≡ some l
      → IsCanonical expected l
        × ((raw : Bytes) × (u : Url) × (url ≡ some raw)
            × (utf16_len raw ≤ 2048)
            × (parse raw ≡ some u)
            × (url_origin u ≡ expected)
            × (username u ≡ [])
            × (password u ≡ none))
  unfolding canvas_link
  canvas_link-IsCanonical none uid expected l h = cc
  canvas_link-IsCanonical (some raw) uid expected l h = elim (Option-cases (parse raw)) [
    | inl e ↦ ground arith
    | inr (u, e) ↦
        let k : link_of urls u uid expected ≡ some l = ground (arith, e) in
        let (c, o, n, p) = link_of-IsCanonical u uid expected l k in
        (c, (raw, u, refl, ground arith, e, o, n, p))
  ]
