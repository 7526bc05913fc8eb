-- ===== src/Reconcile/SafeCourses.antt =====
-- The parts of the loop over the captured courses in src-tauri/src/reconcile.rs that never panic.
use duegood.Base.{
  ℕ, zero, suc, ◌+◌, false, Option, some, List, [], ◌∷◌, ◌++◌, Bytes, codes, get_elem?, All, ok,
  Bool-cases, Option-cases, Result-cases, ◌≡◌, refl, subst, ◌⊎◌, inl, inr, arith,
}
use duegood.Reconcile.Values.{Values, IsLawful, CourseAssignments, field, filled, identity_of}
use duegood.Reconcile.Checks.{
  HashMap, find_key, contains, ReferenceKey, item_references, own_references, validate_owners,
}
use duegood.Reconcile.Courses.{
  index_groups, keep_groups, refresh_group, new_group, add_groups, local_groups, merged_groups,
  set_at, merge_course,
}
use duegood.Reconcile.Archive.{is_archived_as, find_archived, take_at}
use duegood.Reconcile.Coursework.{list_field}
use duegood.Reconcile.Ids.{filled-text}
use duegood.Reconcile.Safe.{panics, HasId, HasIdentity}
use duegood.Reconcile.Validated.{IsCourse}

pub All-left : {A : Type 0} (P : A → Type 0) (xs ys : List A) → All P (xs ++ ys) → All P xs
All-left P [] ys h = tt
All-left P (x ∷ xs) ys (k, h) = (k, All-left P xs ys h)

pub All-right : {A : Type 0} (P : A → Type 0) (xs ys : List A) → All P (xs ++ ys) → All P ys
All-right P [] ys h = h
All-right P (x ∷ xs) ys (_, h) = All-right P xs ys h

pub take_at-All :
    {A : Type 0} (P : A → Type 0) (index : ℕ) (xs rest : List A) (x : A)
    → take_at index xs ≡ some (x, rest)
    → All P xs
    → P x × All P rest
unfolding take_at
take_at-All P index [] rest x h a = cc
take_at-All P zero (y ∷ ys) rest x h (p, a) =
    let q : y ≡ x = ground arith in
    let r : ys ≡ rest = ground arith in (subst P q p, subst (All P) r a)
take_at-All P (suc index) (y ∷ ys) rest x h (p, a) = elim (Option-cases (take_at index ys)) [
  | inl e ↦ ground (arith, e)
  | inr ((z, zs), e) ↦
      let (pz, b) = take_at-All P index ys zs z e a in
      let q : z ≡ x = ground (arith, e) in
      let r : y ∷ zs ≡ rest = ground (arith, e) in (subst P q pz, subst (All P) r (p, b))
]

module _ (json : Values) where
  open json use {Value, Map, as_object, get}

  -- the validated items have IDs
  pub validate_owners-HasId :
      (items : List Value) (owners : List ReferenceKey)
      → validate_owners json items owners ≡ ok tt
      → All (HasId json) items
  unfolding validate_owners
  validate_owners-HasId [] owners h = tt
  validate_owners-HasId (item ∷ items) owners h =
      elim (Option-cases (filled json (field json (codes "id") item))) [
        | inl e ↦ ground (arith, e)
        | inr (id, e) ↦ elim (Result-cases (item_references json item)) [
          | inr (x, k) ↦ ground (arith, e, k)
          | inl (rs, k) ↦ elim (Result-cases (own_references json rs owners)) [
            | inr (x, o) ↦ ground (arith, e, k, o)
            | inl (more, o) ↦ (
              (id, filled-text json (field json (codes "id") item) id e),
              validate_owners-HasId items more (ground (arith, e, k, o)),
            )
          ]
        ]
      ]

  index_groups-safe :
      (groups : List Value) (incoming : HashMap Value)
      → All (HasIdentity json) groups
      → panics (index_groups json groups incoming) ≡ false
  unfolding panics index_groups
  index_groups-safe [] incoming h = refl
  index_groups-safe (group ∷ groups) incoming ((id, e), h) =
      ground (arith, e, index_groups-safe groups ((id, group) ∷ incoming) h)

  keep_groups-safe :
      (incoming : HashMap Value) (existing : List Value) (seen : List Bytes) (groups : List Value)
      → panics (keep_groups json incoming existing seen groups) ≡ false
  unfolding panics keep_groups
  keep_groups-safe incoming [] seen groups = refl
  keep_groups-safe incoming (old ∷ existing) seen groups =
      elim (Option-cases (identity_of json (field json (codes "id") old))) [
        | inl e ↦ ground (arith, e, keep_groups-safe incoming existing seen (groups ++ (old ∷ [])))
        | inr (id, e) ↦ elim (Bool-cases (contains id seen)) [
          | inl c ↦ ground (arith, e, c)
          | inr c ↦ elim (Option-cases (find_key id incoming)) [
            | inl f ↦ ground (
              arith,
              e,
              c,
              f,
              keep_groups-safe incoming existing (id ∷ seen) (groups ++ (old ∷ [])),
            )
            | inr (group, f) ↦ ground (
              arith,
              e,
              c,
              f,
              keep_groups-safe incoming existing (id ∷ seen)
                  (groups ++ (refresh_group json old group ∷ [])),
            )
          ]
        ]
      ]

  add_groups-safe :
      (groups : List Value) (seen : List Bytes) (kept : List Value)
      → All (HasIdentity json) groups
      → panics (add_groups json groups seen kept) ≡ false
  unfolding panics add_groups
  add_groups-safe [] seen kept h = refl
  add_groups-safe (group ∷ groups) seen kept ((id, e), h) = elim (Bool-cases (contains id seen)) [
    | inl c ↦ ground (arith, e, c, add_groups-safe groups seen kept h)
    | inr c ↦
        ground
          (arith, e, c, add_groups-safe groups (id ∷ seen) (kept ++ (new_group json group ∷ [])) h)
  ]

  local_groups-safe : (course : Map) → panics (local_groups json course) ≡ false
  unfolding panics local_groups
  local_groups-safe course = elim (Option-cases (get (codes "gradeGroups") course)) [
    | inl e ↦ ground (arith, e)
    | inr (v, e) ↦ elim (Option-cases (json.as_array v)) [
      | inl a ↦ ground (arith, e, a)
      | inr (vs, a) ↦ ground (arith, e, a)
    ]
  ]

  merged_groups-safe :
      (course : Map) (capture : CourseAssignments json)
      → All (HasIdentity json) capture.groups
      → panics (merged_groups json course capture) ≡ false
  unfolding panics merged_groups
  merged_groups-safe course capture h = elim (Result-cases (local_groups json course)) [
    | inr (x, e) ↦ ground (arith, e, local_groups-safe course)
    | inl (existing, e) ↦ elim (Result-cases (index_groups json capture.groups [])) [
      | inr (x, i) ↦ ground (arith, e, i, index_groups-safe capture.groups [] h)
      | inl (incoming, i) ↦ elim (Result-cases (keep_groups json incoming existing [] [])) [
        | inr (x, k) ↦ ground (arith, e, i, k, keep_groups-safe incoming existing [] [])
        | inl ((seen, groups), k) ↦
            ground (arith, e, i, k, add_groups-safe capture.groups seen groups h)
      ]
    ]
  ]

  -- the root still has the courses that were indexed
  abbrev pub HasCourses : List Value → Map → Type 0
  HasCourses local_courses root =
      (cs : List Value) × (list_field json (codes "courses") root ≡ some cs)
      × ((n : ℕ) → IsCourse json local_courses n → IsCourse json cs n)

  pub merge_course-safe :
      (local_courses : List Value) (root : Map) (index : ℕ) (capture : CourseAssignments json)
      → HasCourses local_courses root
      → IsCourse json local_courses index
      → All (HasIdentity json) capture.groups
      → panics (merge_course json root index capture) ≡ false
  unfolding panics merge_course
  merge_course-safe local_courses root index capture (cs, l, i) c h =
      let (v, m, k, o) = i index c in
      elim (Result-cases (merged_groups json m capture)) [
        | inr (x, g) ↦ ground (arith, l, k, o, g, merged_groups-safe m capture h)
        | inl (groups, g) ↦ ground (arith, l, k, o, g)
      ]

  module _ (lawful : IsLawful json) where
    set_at-IsCourse :
        (i n : ℕ) (m : Map) (cs : List Value)
        → IsCourse json cs n
        → IsCourse json (set_at json i (json.object m) cs) n
    unfolding set_at
    set_at-IsCourse i n m [] h = h
    set_at-IsCourse zero zero m (c ∷ cs) h = (json.object m, m, refl, lawful.as_object-object m)
    set_at-IsCourse zero (suc n) m (c ∷ cs) h = h
    set_at-IsCourse (suc i) zero m (c ∷ cs) h = h
    set_at-IsCourse (suc i) (suc n) m (c ∷ cs) h = set_at-IsCourse i n m cs h

    pub merge_course-HasCourses :
        (local_courses : List Value) (root root' : Map) (index : ℕ)
        (capture : CourseAssignments json)
        → merge_course json root index capture ≡ ok root'
        → HasCourses local_courses root
        → HasCourses local_courses root'
    unfolding merge_course
    merge_course-HasCourses local_courses root root' index capture h (cs, l, i) =
        elim (Option-cases (get_elem? cs index)) [
          | inl k ↦ ground (arith, l, k)
          | inr (v, k) ↦ elim (Option-cases (as_object v)) [
            | inl o ↦ ground (arith, l, k, o)
            | inr (course, o) ↦ elim (Result-cases (merged_groups json course capture)) [
              | inr (x, g) ↦ ground (arith, l, k, o, g)
              | inl (groups, g) ↦
                  let merged = json.insert (codes "gradeGroups") (json.array groups) course in
                  let new = set_at json index (json.object merged) cs in
                  let q : json.insert (codes "courses") (json.array new) root ≡ root' =
                    ground (arith, l, k, o, g) in
                  subst (HasCourses local_courses) q (
                    new,
                    ground (
                      arith,
                      lawful.get-insert (codes "courses") (json.array new) root,
                      lawful.as_array-array new,
                    ),
                    λ n c. set_at-IsCourse index n merged cs (i n c),
                  )
            ]
          ]
        ]

  -- the archived item that is found is in the archive
  pub find_archived-index :
      (course canvas_id : Bytes) (index : ℕ) (items : List Value) (found : Option ℕ) (i : ℕ)
      → find_archived json course canvas_id index items found ≡ ok (some i)
      → (found ≡ some i)
        ⊎ ((j : ℕ) × (x : Value) × (rest : List Value) × (i ≡ index + j)
            × (take_at j items ≡ some (x, rest)))
  unfolding find_archived take_at
  find_archived-index course canvas_id index [] found i h = inl (ground arith)
  find_archived-index course canvas_id index (v ∷ items) found i h =
      elim (Bool-cases (is_archived_as json course canvas_id v)) [
        | inr e ↦
            elim (find_archived-index course canvas_id (suc index) items found i
              (ground (arith, e))) [
                | inl f ↦ inl f
                | inr (j, x, rest, q, t) ↦ inr (suc j, x, v ∷ rest, omega arith, ground (arith, t))
              ]
        | inl e ↦ elim (Option-cases found) [
          | inr (k, f) ↦ ground (arith, e, f)
          | inl f ↦
              elim (find_archived-index course canvas_id (suc index) items (some index) i
                (ground (arith, e, f))) [
                  | inl g ↦ inr (zero, v, items, ground arith, refl)
                  | inr (j, x, rest, q, t) ↦
                      inr (suc j, x, v ∷ rest, omega arith, ground (arith, t))
                ]
        ]
      ]

  pub find_archived-safe :
      (course canvas_id : Bytes) (index : ℕ) (items : List Value) (found : Option ℕ)
      → panics (find_archived json course canvas_id index items found) ≡ false
  unfolding panics find_archived
  find_archived-safe course canvas_id index [] found = refl
  find_archived-safe course canvas_id index (v ∷ items) found =
      elim (Bool-cases (is_archived_as json course canvas_id v)) [
        | inr e ↦ ground (arith, e, find_archived-safe course canvas_id (suc index) items found)
        | inl e ↦ elim (Option-cases found) [
          | inr (k, f) ↦ ground (arith, e, f)
          | inl f ↦
              ground
                (arith, e, f, find_archived-safe course canvas_id (suc index) items (some index))
        ]
      ]
