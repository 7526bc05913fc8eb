-- ===== src/Freshness/Sound.antt =====
-- What a current freshness of src-tauri/src/browser_freshness.rs says.
use duegood.Base.{
  ℕ, ◌+◌, ◌≤◌, true, false, ==-iff, Option, none, some, List, [], ◌∷◌, Bytes, codes, same, same_iff,
  any, is_some, count, ok, Bool-cases, Option-cases, Result-cases, ◌≡◌, ◌∙◌, refl, sym, ap, subst,
  inl, inr, if◌then◌else◌, arith,
}
use duegood.Freshness.Sections.{
  Receipts, Section, same_section, same_number, same_text, SectionFreshness, BrowserFreshness,
  read_section, read_sections, record_course, positive, is_value, valid_endpoint, known_status,
  filter_some, text_of,
}
use duegood.Freshness.Project.{
  import_generation, attempt_generation, attempt_user, attempt_run, is_receipt, has_runs,
  same_identity, rows_of, observation_of, verify_import, unknown, project_freshness,
}

abbrev pub section_of : SectionFreshness → Section
section_of s = (s.course_id, s.endpoint)

-- how many sections have a course and an endpoint
abbrev pub section_count : Section → List SectionFreshness → ℕ
section_count key sections = count (λ s. same_section key (section_of s)) sections

same_number-eq : (a b : Option ℕ) → same_number a b ≡ true → a ≡ b
same_number-eq none none h = refl
same_number-eq none (some b) h = cc
same_number-eq (some a) none h = cc
same_number-eq (some a) (some b) h = ap some ((==-iff a b).0 h)

same_text-eq : (a b : Option Bytes) → same_text a b ≡ true → a ≡ b
same_text-eq none none h = refl
same_text-eq none (some b) h = cc
same_text-eq (some a) none h = cc
same_text-eq (some a) (some b) h = ap some ((same_iff a b).0 h)

same_section-eq : (a b : Section) → same_section a b ≡ true → a ≡ b
same_section-eq (c, e) (c', e') h =
    let p : c ≡ c' = same_number-eq c c' (ground arith) in
    let q : e ≡ e' = (same_iff e e').0 (ground arith) in rw (p, q) refl

is_some-found : {A : Type 0} (o : Option A) → is_some o ≡ true → (a : A) × (o ≡ some a)
is_some-found none h = cc
is_some-found (some a) h = (a, refl)

module _ (receipts : Receipts) where
  open receipts use {Value, get}

  -- a section that is read is none of those before it
  read_section-fresh :
      (row : Value) (identities : List Section) (s : SectionFreshness)
      → read_section receipts row identities ≡ ok s
      → any (same_section (section_of s)) identities ≡ false
  unfolding read_section
  read_section-fresh row identities s h =
      elim (Option-cases
        (filter_some valid_endpoint (text_of receipts (get (codes "endpoint") row)))) [
          | inl e ↦ ground (arith, e)
          | inr (endpoint, e) ↦ elim (Result-cases (record_course receipts row)) [
            | inr (x, c) ↦ ground (arith, e, c)
            | inl (course, c) ↦
                elim (Bool-cases (any (same_section (course, endpoint)) identities)) [
                  | inl k ↦ ground (arith, e, c, k)
                  | inr k ↦
                      elim (Option-cases
                        (filter_some known_status (text_of receipts (get (codes "status") row)))) [
                          | inl t ↦ ground (arith, e, c, k, t)
                          | inr (status, t) ↦
                              let q : (record {
                                course_id = course;
                                endpoint = endpoint;
                                current = same status (codes "complete");
                              })
                                  ≡ s =
                                ground (arith, e, c, k, t) in
                              subst (λ x. any (same_section (section_of x)) identities ≡ false) q k
                        ]
                ]
          ]
        ]

  -- the sections are no two the same, nor one of those before them
  read_sections-count :
      (key : Section) (rows : List Value) (identities : List Section)
      (sections : List SectionFreshness)
      → read_sections receipts rows identities ≡ ok sections
      → section_count key sections + (if any (same_section key) identities then 1 else 0) ≤ 1
  unfolding read_sections
  read_sections-count key [] identities sections h = ground arith
  read_sections-count key (row ∷ rows) identities sections h =
      elim (Result-cases (read_section receipts row identities)) [
        | inr (x, e) ↦ ground (arith, e)
        | inl (s, e) ↦
            elim (Result-cases (read_sections receipts rows (section_of s ∷ identities))) [
              | inr (x, k) ↦ ground (arith, e, k)
              | inl (more, k) ↦
                  let q : s ∷ more ≡ sections = ground (arith, e, k) in
                  let rest = read_sections-count key rows (section_of s ∷ identities) more k in
                  let fresh = read_section-fresh row identities s e in
                  subst
                    (λ xs.
                      section_count key xs + (if any (same_section key) identities then 1 else 0)
                      ≤ 1)
                    q
                    (elim (Bool-cases (same_section key (section_of s))) [
                      | inr n ↦ ground (arith, n, rest)
                      | inl n ↦
                          let p : any (same_section key) identities ≡ false =
                            rw (same_section-eq key (section_of s) n) fresh in
                          ground (arith, n, rest, p)
                    ])
            ]
      ]

  -- the import is of the run, the generation and the user of a captured attempt
  pub record IsLatest (imported attempt : Value) : Type 0 where
    pub run : ℕ
    pub generation : Bytes
    pub user : ℕ
    pub imported_run : positive receipts (get (codes "runId") imported) ≡ some run
    pub latest_run : attempt_run receipts attempt ≡ some run
    pub is_captured : is_value receipts (get (codes "status") attempt) (codes "captured") ≡ true
    pub imported_generation : import_generation receipts imported ≡ some generation
    pub latest_generation : attempt_generation receipts attempt ≡ some generation
    pub imported_user : positive receipts (get (codes "userId") imported) ≡ some user
    pub latest_user : attempt_user receipts attempt ≡ some user

  import_found :
      (imported attempt : Value)
      → has_runs receipts imported attempt ≡ true
      → same_number
          (positive receipts (get (codes "runId") imported))
          (attempt_run receipts attempt)
        ≡ true
      → is_value receipts (get (codes "status") attempt) (codes "captured") ≡ true
      → same_identity receipts imported attempt ≡ true
      → IsLatest imported attempt
  import_found imported attempt runs run status identity =
      let (n, p) =
        is_some-found (positive receipts (get (codes "runId") imported)) (ground arith) in
      let (g, q) = is_some-found (import_generation receipts imported) (ground arith) in
      let (u, r) =
        is_some-found (positive receipts (get (codes "userId") imported)) (ground arith) in
      record {
        run = n;
        generation = g;
        user = u;
        imported_run = p;
        latest_run = sym (same_number-eq _ _ run) ∙ p;
        is_captured = status;
        imported_generation = q;
        latest_generation =
            sym (
              same_text-eq (import_generation receipts imported)
                (attempt_generation receipts attempt) (ground arith))
            ∙ q;
        imported_user = r;
        latest_user =
            sym (
              same_number-eq (positive receipts (get (codes "userId") imported))
                (attempt_user receipts attempt) (ground arith))
            ∙ r;
      }

  verify_import-IsLatest :
      (imported attempt : Value) (f : BrowserFreshness)
      → verify_import receipts imported attempt ≡ ok f
      → IsLatest imported attempt × ((key : Section) → section_count key f.sections ≤ 1)
  unfolding verify_import
  verify_import-IsLatest imported attempt f h = elim (Bool-cases (is_receipt receipts imported)) [
    | inr a ↦ ground (arith, a)
    | inl a ↦ elim (Bool-cases (has_runs receipts imported attempt)) [
      | inr b ↦ ground (arith, a, b)
      | inl b ↦
          elim (Bool-cases (
            same_number (positive receipts (get (codes "runId") imported))
              (attempt_run receipts attempt))) [
                | inr c ↦ ground (arith, a, b, c)
                | inl c ↦
                    elim (Bool-cases
                      (is_value receipts (get (codes "status") attempt) (codes "captured"))) [
                        | inr d ↦ ground (arith, a, b, c, d)
                        | inl d ↦ elim (Bool-cases (same_identity receipts imported attempt)) [
                          | inr e ↦ ground (arith, a, b, c, d, e)
                          | inl e ↦ elim (Option-cases (observation_of receipts imported)) [
                            | inl o ↦ ground (arith, a, b, c, d, e, o)
                            | inr (stamp, o) ↦ elim (Option-cases (rows_of receipts imported)) [
                              | inl r ↦ ground (arith, a, b, c, d, e, o, r)
                              | inr (rows, r) ↦
                                  elim (Result-cases (read_sections receipts rows [])) [
                                    | inr (x, s) ↦ ground (arith, a, b, c, d, e, o, r, s)
                                    | inl (sections, s) ↦
                                        let q : sections ≡ f.sections =
                                          ground (arith, a, b, c, d, e, o, r, s) in
                                        (
                                          import_found imported attempt b c d e,
                                          λ key. rw (sym q) (
                                              ground (
                                                arith,
                                                read_sections-count key rows [] sections s,
                                              )),
                                        )
                                  ]
                            ]
                          ]
                        ]
                      ]
              ]
    ]
  ]

  -- A freshness is current only if there are an import and an attempt, the attempt is captured and
  -- the import is of its run, its generation and its user; no two sections of it have the same
  -- course and endpoint.
  pub project_freshness-IsLatest :
      (imported attempt : Option Value)
      → (project_freshness receipts imported attempt).current ≡ true
      → (i : Value) × (a : Value) × (imported ≡ some i)
        × (attempt ≡ some a)
        × IsLatest i a
        × ((key : Section)
            → section_count key (project_freshness receipts imported attempt).sections ≤ 1)
  unfolding project_freshness unknown
  project_freshness-IsLatest none attempt h = cc
  project_freshness-IsLatest (some i) none h = cc
  project_freshness-IsLatest (some i) (some a) h =
      elim (Result-cases (verify_import receipts i a)) [
        | inr (x, e) ↦ ground (arith, e)
        | inl (f, e) ↦
            let (latest, counts) = verify_import-IsLatest i a f e in
            (i, a, refl, refl, latest, rw (e, project_freshness) counts)
      ]
