-- ===== src/Lib.antt =====
-- The core of the native side of duegood, modelled from the Rust sources under src-tauri/src.
--
-- The program keeps a student's due work. A capture of Canvas data runs under a lease that holds
-- one lock; downloaded files are checked against their media type; what was captured is
-- reconciled with the stored document, whose items are updated, archived or added; whether what
-- is shown is current is worked out from the import and the last capture. A Canvas calendar feed is
-- parsed and normalised into observations with stable identities, and an event whose meaning is
-- not certain is held instead; what a refresh has changed is written down as a diff.
--
-- Files and what they model:
--
-- Base: a `&str` is the list of its UTF-8 bytes (Text, Space, Utf8), Rust's `Result` (Results),
--   lists and stable sorting (Lists, Sort), Boolean tests (Tests).
-- CaptureRun: src-tauri/src/capture_run.rs and capture_run_lease.rs. State has the records of the
--   two status files and what makes one acceptable. Disk has the store, a `World`: what each path
--   leads to, who holds the lock, what becomes of the writes to come (`outcomes`: replaced, left
--   alone, or replaced and not synced), and the output. Guard has `acquire`, `begin`, `fail`,
--   `complete`, `read_attempt` and `release`; Lease has `run_lease`. The other files are proofs:
--   Storage (what a file reads back as), Effects and Order (what a failing operation leaves),
--   Begin, Ends, Runs (sequences of operations as a step relation), Retired (runs behind which
--   another was begun), Cycle (the life of a captured run), Registry (an abstract registry of
--   runs and its moves), View (the registry that a store stands for), Simulated and Refines (the
--   operations as moves), Lives, LeaseEnds and Leases.
-- Media: src-tauri/src/capture_media.rs. Types has the MIME names and their aliases, Sniff the
--   signatures, Scripts the tests for SVG and SQL, Verify the whole check; Accepts, SignIn,
--   Prolog and TextPrefix are proofs.
-- Ical: src-tauri/src/ical.rs (Types, Observation), ical_parse.rs (Lines, Reader, Events, Links),
--   ical_date.rs (Date), ical_normalize.rs (Observation, Courses, Classify, Normalize) and
--   ical_bootstrap.rs (Bootstrap). The loop over the lines is `read_lines` over a `Reader`, the
--   loop over the events is `read_events` over a `Found`, and `classify` is the part of its body
--   that settles an event's place. Escapes, Folding, LinksSound, Bounds, Instants, Conserved,
--   Identities, Accepted, Distinct and Scopes are proofs.
-- History: `diff_coursework` and `append_event` of src-tauri/src/history.rs. Items has the index
--   of the observed items (a `BTreeMap` is the list of its entries in the order of the keys),
--   Diff the diff of two indexes; Ledger is the bounded file of refresh events (a `Shelf` is its
--   path, the quarantine, and what becomes of the rename and the write); Keys, Balance, Quiet and
--   Bounded are proofs.
-- Reconcile: src-tauri/src/reconcile.rs. Values has the JSON values, Checks the checks on the
--   document and the captures, References the source references, Due the due date's observations,
--   Update `update_item` and `new_item`, Courses the grade groups, Items the loop over the local
--   items, Archive what is revived from the archive, Document the loop over the captures,
--   Coursework `reconcile_coursework`; Int has 64-bit integers, Time dates and New York time,
--   Rfc3339 the parser; a turn of the first loop ends in a `Placement`, the state of the second
--   is a `Document`. Frame, Updated, Placed, Survivors, Growth, Steps, Checked, Ids, Unique,
--   Archived, Kept, Reserved, Safe, SafeChecks, SafeUpdate, SafeItem, Validated, SafePlaces,
--   SafeCourses, SafeRun, NoPanic, SafeTime, RoundTrip and Untouched are proofs; Sample is an
--   implementation of the JSON values.
-- Freshness: src-tauri/src/browser_freshness.rs. Sections has the data and the sections of an
--   import, Project `project_freshness`, Available `with_capture_availability` over the attempt
--   and the summary of CaptureRun; Sound and Offers are proofs.
-- The modules Examples, and LeaseExamples, RegistryExamples, FeedExamples and TimeExamples, run the
--   definitions at concrete inputs.
--
-- Parameters. Third-party code enters as records of functions: `Serde` (serde_json), `Urls` (the
-- url crate), `Clock` (chrono and chrono_tz), `Hashing` (SHA-256 and the JSON text of an array)
-- and `Json`, `LedgerJson` and `Receipts` (the accessors of a JSON value). `Serde` has laws, in
-- `IsFaithful`: what is written parses back, and small records have small texts; of `Json`, one
-- theorem assumes that a value equals itself. `Values` (serde_json, in Reconcile) has the laws of
-- its constructors and of insertion, in `IsLawful`. The lemmas on Reconcile hold for any `Clock`;
-- the program's is `new_york_clock`, whose UTC stamp (store.rs) is a parameter. `tokens` stands
-- for the split of a name at characters that are not alphanumeric in Unicode. `Archive` stands
-- for what capture_run_archive.rs reads below the archive root, once its first test has passed.
--
-- Bounds. The sums and products of the time conversions that input can drive out of 64 bits wrap
-- around, as in a release build; `decimal` has fuel for 20 digits, and 64 bits have no more. Run
-- identifiers and user IDs are 64-bit; `checked_next` refuses the last one. The loops over lines,
-- events and bytes are structural. The two loops of capture_media.rs that skip declarations and
-- comments, and trimming, run on fuel of at least one round for each byte, and each round removes
-- a byte.
--
-- Not modelled: the values of file modes, the thread and the clock behind the lease's timeout
-- (the peer's message either comes, breaks or expires), the observations' JSON text (an
-- observation, like a row of a diff, is a record of its fields), and the Debug and Display of
-- errors. Of src-tauri/src/history.rs, the timestamps and the recovery of missed grades; of
-- capture_run_archive.rs, what is read below the archive root. Of the other files of
-- src-tauri/src, the record store, the browser import and its refresh, the application of
-- calendar observations, the sessions, and the commands, HTTP, process and window glue; and the
-- TypeScript front end.
pub mod Base
pub mod CaptureRun
pub mod Freshness
pub mod History
pub mod Media
pub mod Ical
pub mod Reconcile
