-- ===== src/Ical/Scopes.antt =====
-- The scope that `bootstrap_options` of src-tauri/src/ical_bootstrap.rs derives.
use duegood.Base.{
  ℕ, ◌≤◌, ◌<◌, true, false, ltb, Option, none, some, List, [], ◌∷◌, ◌++◌, Bytes, codes, same,
  same_iff, any, map, length, All, All-sort_by, count, count-sort_by, sort_by, ok, Result-cases,
  Bool-cases, Option-cases, ◌≡◌, refl, subst, if◌then◌else◌, inl, inr, arith,
}
use duegood.Ical.Types.{RawEvent, Clock, Urls, CourseIdentity, Options}
use duegood.Ical.Events.{parse_events}
use duegood.Ical.Links.{CanvasLink, canvas_link, origin, numeric_id}
use duegood.Ical.LinksSound.{canvas_link-IsCanonical}
use duegood.Ical.Courses.{uid_of, key_count}
use duegood.Ical.Bootstrap.{
  canvas_origin_text, max_courses, insert_id, course_of, add_link, collect_ids, scope_of,
  bootstrap_options,
}

-- how often an ID has been collected
abbrev id_count : Bytes → List Bytes → ℕ
id_count id = count (same id)

-- No ID twice, every ID a number, at most 500.
abbrev IsScope : List Bytes → Type 0
IsScope ids =
    ((id : Bytes) → id_count id ids ≤ (if any (same id) ids then 1 else 0))
    × All (λ id. numeric_id id ≡ true) ids
    × (length ids ≤ max_courses)

any-absent : (id : Bytes) (ids : List Bytes) → any (same id) ids ≡ false → id_count id ids ≡ 0
any-absent id [] h = refl
any-absent id (x ∷ ids) h = ground (arith, any-absent id ids)

insert_id-single :
    (new id : Bytes) (ids : List Bytes)
    → id_count id ids ≤ (if any (same id) ids then 1 else 0)
    → id_count id (insert_id new ids) ≤ (if any (same id) (insert_id new ids) then 1 else 0)
unfolding insert_id
insert_id-single new id ids h = elim (Bool-cases (any (same new) ids)) [
  | inl e ↦ rw (e) h
  | inr e ↦ elim (Bool-cases (same id new)) [
    | inl k ↦
        let q : any (same id) ids ≡ false = rw ((same_iff id new).0 k) e in
        rw (e) (ground (arith, k, any-absent id ids q))
    | inr k ↦ rw (e) (ground (arith, k))
  ]
]

insert_id-numeric :
    (new : Bytes) (ids : List Bytes)
    → numeric_id new ≡ true
    → All (λ id. numeric_id id ≡ true) ids
    → All (λ id. numeric_id id ≡ true) (insert_id new ids)
unfolding insert_id
insert_id-numeric new ids n h = elim (Bool-cases (any (same new) ids)) [
  | inl e ↦ rw (e, All) h
  | inr e ↦ rw (e, All) (n, h)
]

add_link-IsScope :
    (link : Option CanvasLink) (ids more : List Bytes)
    → ((l : CanvasLink) → link ≡ some l → numeric_id l.course_id ≡ true)
    → IsScope ids
    → add_link link ids ≡ ok more
    → IsScope more
unfolding add_link
add_link-IsScope none ids more n h e = let q : ids ≡ more = ground arith in subst IsScope q h
add_link-IsScope (some l) ids more n (s, d, b) e =
    elim (Bool-cases (ltb max_courses (length (insert_id l.course_id ids)))) [
      | inl k ↦ ground (arith, k)
      | inr k ↦
          let q : insert_id l.course_id ids ≡ more = ground (arith, k) in
          subst IsScope q (
            λ id. insert_id-single l.course_id id ids (s id),
            insert_id-numeric l.course_id ids (n l refl) d,
            ground (arith, k),
          )
    ]

same-sym : (a b : Bytes) → same a b ≡ same b a
same-sym [] [] = refl
same-sym [] (y ∷ b) = refl
same-sym (x ∷ a) [] = refl
same-sym (x ∷ a) (y ∷ b) = ground (arith, same-sym a b)

key_count-course_of :
    (id : Bytes) (ids : List Bytes)
    → key_count (map course_of ids) (codes "canvas-" ++ id) ≡ id_count id ids
unfolding key_count
key_count-course_of id [] = refl
key_count-course_of id (x ∷ ids) = ground (arith, same-sym x id, key_count-course_of id ids)

length-count : (cs : List CourseIdentity) → length cs ≡ count (λ _. true) cs
length-count [] = refl
length-count (c ∷ cs) = omega (arith, length-count cs)

length-map : (ids : List Bytes) → length (map course_of ids) ≡ length ids
length-map [] = refl
length-map (x ∷ ids) = omega (arith, length-map ids)

-- a course of a first scope: its ID is a number, and the key is made from it
abbrev pub IsBootstrapped : CourseIdentity → Type 0
IsBootstrapped c =
    (numeric_id c.canvas_course_id ≡ true) × (c.key ≡ codes "canvas-" ++ c.canvas_course_id)

courses-IsBootstrapped :
    (ids : List Bytes)
    → All (λ id. numeric_id id ≡ true) ids
    → All IsBootstrapped (map course_of ids)
courses-IsBootstrapped [] h = tt
courses-IsBootstrapped (id ∷ ids) (n, h) = ((n, refl), courses-IsBootstrapped ids h)

key_count-sort_by :
    (cs : List CourseIdentity) (key : Bytes)
    → key_count (sort_by (λ c. c.key) cs) key ≡ key_count cs key
unfolding key_count
key_count-sort_by cs key = count-sort_by (λ c. same c.key key) (λ c. c.key) cs

one_key :
    (id : Bytes) (ids : List Bytes)
    → id_count id ids ≤ (if any (same id) ids then 1 else 0)
    → key_count (sort_by (λ c. c.key) (map course_of ids)) (codes "canvas-" ++ id) ≤ 1
one_key id ids h =
    let courses = map course_of ids in
    let key = codes "canvas-" ++ id in
    let sorted : key_count (sort_by (λ c. c.key) courses) key ≡ key_count courses key =
      key_count-sort_by courses key in
    elim (Bool-cases (any (same id) ids)) [
      | inl s ↦ ground (arith, s, h, sorted, key_count-course_of id ids)
      | inr s ↦ ground (arith, s, h, sorted, key_count-course_of id ids)
    ]

module _ (urls : Urls) where
  collect_ids-IsScope :
      (expected : Bytes) (es : List RawEvent) (ids more : List Bytes)
      → IsScope ids
      → collect_ids urls expected es ids ≡ ok more
      → IsScope more
  unfolding collect_ids
  collect_ids-IsScope expected [] ids more h e =
      let q : ids ≡ more = ground arith in subst IsScope q h
  collect_ids-IsScope expected (v ∷ es) ids more h e =
      let link = canvas_link urls v.url (uid_of v) expected in
      elim (Result-cases (add_link link ids)) [
        | inr (x, k) ↦ ground (arith, k)
        | inl (ids1, k) ↦
            let numeric : (l : CanvasLink) → link ≡ some l → numeric_id l.course_id ≡ true =
              λ l q. (canvas_link-IsCanonical urls v.url (uid_of v) expected l q).0.0 in
            collect_ids-IsScope expected es ids1 more (add_link-IsScope link ids ids1 numeric h k)
              (ground (arith, k))
      ]

  bootstrap_options-ids :
      (clock : Clock) (input : Bytes) (o : Options)
      → bootstrap_options urls clock input ≡ ok o
      → (institution : Bytes) × (ids : List Bytes) × IsScope ids
        × (0 < length ids)
        × (o ≡ scope_of institution ids)
  unfolding bootstrap_options
  bootstrap_options-ids clock input o h = elim (Result-cases (origin urls canvas_origin_text)) [
    | inr (x, k) ↦ ground (arith, k)
    | inl ((u, expected), k) ↦ elim (Option-cases (urls.host u)) [
      | inl l ↦ ground (arith, k, l)
      | inr (institution, l) ↦ elim (Result-cases (parse_events clock input)) [
        | inr (x, m) ↦ ground (arith, k, l, m)
        | inl ((events, c), m) ↦ elim (Result-cases (collect_ids urls expected events [])) [
          | inr (x, i) ↦ ground (arith, k, l, m, i)
          | inl (ids, i) ↦ (
            institution,
            ids,
            collect_ids-IsScope expected events [] ids (λ id. omega arith, tt, omega arith) i,
            ground (arith, k, l, m, i),
            ground (arith, k, l, m, i),
          )
        ]
      ]
    ]
  ]

  -- A bootstrapped scope has between 1 and 500 courses, each keyed by its own numeric Canvas ID, and
  -- no two of them have the same key.
  pub bootstrap_options-scope :
      (clock : Clock) (input : Bytes) (o : Options)
      → bootstrap_options urls clock input ≡ ok o
      → All IsBootstrapped o.courses
        × ((id : Bytes) → key_count o.courses (codes "canvas-" ++ id) ≤ 1)
        × (0 < length o.courses)
        × (length o.courses ≤ max_courses)
  unfolding scope_of
  bootstrap_options-scope clock input o h =
      let (institution, ids, (single, numeric, bound), some_id, e) =
        bootstrap_options-ids clock input o h in
      let key : CourseIdentity → Bytes = λ c. c.key in
      let courses = map course_of ids in
      let size : length (sort_by key courses) ≡ length ids = omega (
        arith,
        length-count (sort_by key courses),
        count-sort_by (λ _. true) key courses,
        length-count courses,
        length-map ids,
      ) in
      rw (e) (
        All-sort_by IsBootstrapped key courses (courses-IsBootstrapped ids numeric),
        λ id. one_key id ids (single id),
        omega (arith, size),
        omega (arith, size),
      )
