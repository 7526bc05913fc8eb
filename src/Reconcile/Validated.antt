-- ===== src/Reconcile/Validated.antt =====
-- What the checks of src-tauri/src/reconcile.rs have established once they pass.
use duegood.Base.{
  ℕ, suc, some, List, [], ◌∷◌, ◌++◌, Bytes, codes, same, is_some, length, length-append, get_elem?,
  append_assoc, All, ok, Bool-cases, Option-cases, Result-cases, ◌≡◌, ◌∙◌, refl, sym, subst, inl,
  inr, arith,
}
use duegood.Reconcile.Values.{Values, CourseAssignments, field, text_of, identity_of}
use duegood.Reconcile.Checks.{
  HashMap, find_key, has_key, contains, course_key, index_courses, validate_groups,
  validate_assignment, validate_assignments, validate_capture, index_captures,
}
use duegood.Reconcile.Safe.{HasName, HasIdentity}

get_elem?-middle :
    {A : Type 0} (xs : List A) (y : A) (ys : List A)
    → get_elem? (xs ++ (y ∷ ys)) (length xs) ≡ some y
get_elem?-middle [] y ys = refl
get_elem?-middle (x ∷ xs) y ys = get_elem?-middle xs y ys

module _ (json : Values) where
  open json use {Value, Map, as_object, get}

  -- a capture whose groups and assignments have IDs, and the assignments names
  abbrev pub IsValid : CourseAssignments json → Type 0
  IsValid c =
      All (HasIdentity json) c.groups × All (λ a. HasIdentity json a × HasName json a) c.assignments

  groups-valid :
      (groups : List Value) (ids : List Bytes)
      → validate_groups json groups ids ≡ ok tt
      → All (HasIdentity json) groups
  unfolding validate_groups
  groups-valid [] ids h = tt
  groups-valid (group ∷ groups) ids h =
      elim (Option-cases (identity_of json (field json (codes "id") group))) [
        | inl e ↦ ground (arith, e)
        | inr (id, e) ↦ elim (Bool-cases (contains id ids)) [
          | inl c ↦ ground (arith, e, c)
          | inr c ↦ ((id, e), groups-valid groups (id ∷ ids) (ground (arith, e, c)))
        ]
      ]

  assignment-valid :
      (assignment : Value) (ids : List Bytes) (id : Bytes)
      → validate_assignment json assignment ids ≡ ok id
      → HasIdentity json assignment × HasName json assignment
  unfolding validate_assignment
  assignment-valid assignment ids id h = elim (Bool-cases (is_some (as_object assignment))) [
    | inr o ↦ ground (arith, o)
    | inl o ↦ elim (Option-cases (identity_of json (field json (codes "id") assignment))) [
      | inl e ↦ ground (arith, o, e)
      | inr (i, e) ↦ elim (Bool-cases (contains i ids)) [
        | inl k ↦ ground (arith, o, e, k)
        | inr k ↦ elim (Option-cases (text_of json (field json (codes "name") assignment))) [
          | inl n ↦ ground (arith, o, e, k, n)
          | inr (name, n) ↦ ((i, e), (name, n))
        ]
      ]
    ]
  ]

  assignments-valid :
      (assignments : List Value) (ids : List Bytes)
      → validate_assignments json assignments ids ≡ ok tt
      → All (λ a. HasIdentity json a × HasName json a) assignments
  unfolding validate_assignments
  assignments-valid [] ids h = tt
  assignments-valid (assignment ∷ assignments) ids h =
      elim (Result-cases (validate_assignment json assignment ids)) [
        | inr (x, e) ↦ ground (arith, e)
        | inl (id, e) ↦ (
          assignment-valid assignment ids id e,
          assignments-valid assignments (id ∷ ids) (ground (arith, e)),
        )
      ]

  capture-IsValid :
      (capture : CourseAssignments json) → validate_capture json capture ≡ ok tt → IsValid capture
  unfolding validate_capture
  capture-IsValid capture h = elim (Result-cases (validate_groups json capture.groups [])) [
    | inr (x, e) ↦ ground (arith, e)
    | inl (_, e) ↦ (
      groups-valid capture.groups [] e,
      assignments-valid capture.assignments [] (ground (arith, e)),
    )
  ]

  -- a course of the index
  abbrev pub IsIndexed : {A : Type 0} → HashMap A → Bytes → Type 0
  IsIndexed {A} m key = (a : A) × (find_key key m ≡ some a)

  with_capture :
      (captures : HashMap (CourseAssignments json)) (capture : CourseAssignments json)
      → IsValid capture
      → ((key : Bytes) (c : CourseAssignments json) → find_key key captures ≡ some c → IsValid c)
      → (key : Bytes) (c : CourseAssignments json)
      → find_key key ((capture.key, capture) ∷ captures) ≡ some c
      → IsValid c
  unfolding find_key
  with_capture captures capture valid v key c f = elim (Bool-cases (same key capture.key)) [
    | inl e ↦ let q : capture ≡ c = ground (arith, e) in subst IsValid q valid
    | inr e ↦ v key c (ground (arith, e))
  ]

  -- every captured course is valid and in the index of the local courses, and what the index of
  -- the captures holds is valid
  pub index_captures-IsValid :
      (indexes : HashMap ℕ) (courses : List (CourseAssignments json))
      (captures captures' : HashMap (CourseAssignments json))
      → ((key : Bytes) (c : CourseAssignments json) → find_key key captures ≡ some c → IsValid c)
      → index_captures json indexes courses captures ≡ ok captures'
      → All (λ c. IsValid c × IsIndexed indexes c.key) courses
        × ((key : Bytes) (c : CourseAssignments json) → find_key key captures' ≡ some c → IsValid c)
  unfolding index_captures
  index_captures-IsValid indexes [] captures captures' v h =
      let q : captures ≡ captures' = ground arith in (tt, λ key c f. v key c (rw (q) f))
  index_captures-IsValid indexes (capture ∷ courses) captures captures' v h =
      elim (Option-cases (find_key capture.key indexes)) [
        | inl e ↦ ground (arith, e)
        | inr (n, e) ↦ elim (Bool-cases (has_key capture.key captures)) [
          | inl k ↦ ground (arith, e, k)
          | inr k ↦ elim (Result-cases (validate_capture json capture)) [
            | inr (x, c) ↦ ground (arith, e, k, c)
            | inl (_, c) ↦
                let valid = capture-IsValid capture c in
                let (more, all) =
                  index_captures-IsValid indexes courses ((capture.key, capture) ∷ captures)
                    captures' (with_capture captures capture valid v) (ground (arith, e, k, c)) in
                (((valid, (n, e)), more), all)
          ]
        ]
      ]

  -- an object among the courses, at an index
  abbrev pub IsCourse : List Value → ℕ → Type 0
  IsCourse courses n =
      (v : Value) × (m : Map) × (get_elem? courses n ≡ some v) × (as_object v ≡ some m)

  course_key-object :
      (course : Value) (key : Bytes)
      → course_key json course ≡ ok key
      → (m : Map) × (as_object course ≡ some m)
  unfolding course_key
  course_key-object course key h = elim (Option-cases (as_object course)) [
    | inl e ↦ ground (arith, e)
    | inr (m, e) ↦ (m, e)
  ]

  pub index_courses-IsCourse :
      (every before courses : List Value) (indexes indexes' : HashMap ℕ)
      → every ≡ before ++ courses
      → ((key : Bytes) (n : ℕ) → find_key key indexes ≡ some n → IsCourse every n)
      → index_courses json (length before) courses indexes ≡ ok indexes'
      → (key : Bytes) (n : ℕ) → find_key key indexes' ≡ some n
      → IsCourse every n
  unfolding index_courses find_key
  index_courses-IsCourse every before [] indexes indexes' q v h key n f =
      let r : indexes ≡ indexes' = ground arith in v key n (rw (r) f)
  index_courses-IsCourse every before (course ∷ courses) indexes indexes' q v h key0 n0 f0 =
      elim (Result-cases (course_key json course)) [
        | inr (x, e) ↦ ground (arith, e)
        | inl (key, e) ↦ elim (Bool-cases (has_key key indexes)) [
          | inl k ↦ ground (arith, e, k)
          | inr k ↦
              let (m, o) = course_key-object course key e in
              let here : IsCourse every (length before) =
                (course, m, rw (q) (get_elem?-middle before course courses), o) in
              let one : length (before ++ (course ∷ [])) ≡ suc (length before) =
                omega (arith, length-append before (course ∷ [])) in
              index_courses-IsCourse every (before ++ (course ∷ [])) courses
                ((key, length before) ∷ indexes) indexes'
                (q ∙ sym (append_assoc before (course ∷ []) courses))
                (λ key' n f. elim (Bool-cases (same key' key)) [
                  | inl s ↦
                      let r : length before ≡ n = ground (arith, s) in subst (IsCourse every) r here
                  | inr s ↦ v key' n (ground (arith, s))
                ])
                (rw (one) (ground (arith, e, k))) key0 n0 f0
        ]
      ]
