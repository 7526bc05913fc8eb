-- ===== src/Ical/Identities.antt =====
-- The identities that `normalize_canvas_ical` of src-tauri/src/ical_normalize.rs gives out.
use duegood.Base.{
  ℕ, true, false, not, ◌&&◌, ◌==◌, Option, none, some, List, [], ◌∷◌, ◌++◌, Bytes, codes, same,
  same_refl, strip_prefix, is_digit, all_digits, some_and, ok, Result-cases, Option-cases, ◌≡◌,
  refl, ◌⊎◌, inl, inr, arith,
}
use duegood.Ical.Types.{
  Clock, Options, ExplicitIdentity, VerifiedEvent, DateValue, EventKind, assignment_parent,
  discussion_post_checkpoint, discussion_reply_checkpoint, other_event,
}
use duegood.Ical.Links.{CanvasLink, LinkKind, assignment, event, numeric_id}
use duegood.Ical.Observation.{cut_before, checkpoint, valid_identity, assignment_id, event_id}
use duegood.Ical.Courses.{one_course, filter_some}
use duegood.Ical.Classify.{
  Place, Verdict, hold, keep, verified_identity, explicit_place, verified_place, link_place,
  place_in, placed, is_assignment, is_checkpoint,
}

abbrev separator : Bytes
separator = codes ":checkpoint:"

digit-not_colon : (c : ℕ) → is_digit c ≡ true → (b':' == c) ≡ false
unfolding is_digit
digit-not_colon c h = ground arith

cut_before-digits :
    (s t : Bytes) → all_digits s ≡ true → cut_before separator (s ++ (separator ++ t)) ≡ some (s, t)
unfolding cut_before all_digits strip_prefix
cut_before-digits [] t h = refl
cut_before-digits (c ∷ s) t h = ground (arith, digit-not_colon c, cut_before-digits s t)

numeric_id-digits : (s : Bytes) → numeric_id s ≡ true → all_digits s ≡ true
unfolding numeric_id
numeric_id-digits [] h = cc
numeric_id-digits (c ∷ s) h = ground arith

checkpoint-made :
    (parent kind : Bytes)
    → numeric_id parent ≡ true
    → checkpoint (assignment_id (parent ++ (separator ++ kind))) kind ≡ true
unfolding checkpoint
checkpoint-made parent kind h =
    rw (cut_before-digits parent kind (numeric_id-digits parent h), h) (same_refl kind)

valid_identity-assignment :
    (id : Bytes) → numeric_id id ≡ true → valid_identity assignment_parent (assignment_id id) ≡ true
unfolding valid_identity
valid_identity-assignment id h = h

valid_identity-event :
    (id : Bytes) → numeric_id id ≡ true → valid_identity other_event (event_id id) ≡ true
unfolding valid_identity
valid_identity-event id h = h

valid_identity-verified :
    (kind : EventKind) (parent : Option Bytes) (id : Bytes)
    → is_assignment kind ≡ false
    → (is_checkpoint kind && not (some_and numeric_id parent)) ≡ false
    → numeric_id id ≡ true
    → valid_identity kind (verified_identity kind parent id) ≡ true
unfolding verified_identity valid_identity
valid_identity-verified assignment_parent parent id a b h = cc
valid_identity-verified discussion_post_checkpoint none id a b h = cc
valid_identity-verified discussion_post_checkpoint (some p) id a b h =
    checkpoint-made p (codes "discussion-post-checkpoint") (ground (arith, b))
valid_identity-verified discussion_reply_checkpoint none id a b h = cc
valid_identity-verified discussion_reply_checkpoint (some p) id a b h =
    checkpoint-made p (codes "discussion-reply-checkpoint") (ground (arith, b))
valid_identity-verified other_event parent id a b h = valid_identity-event id h

LinkKind-cases : (k : LinkKind) → (k ≡ assignment) ⊎ (k ≡ event)
LinkKind-cases assignment = inl refl
LinkKind-cases event = inr refl

-- a place has an identity of its kind, and the event's title and date
abbrev pub IsPlaced : Bytes → DateValue → Place → Type 0
IsPlaced title at p = (valid_identity p.kind p.identity ≡ true) × (p.title ≡ title) × (p.at ≡ at)

abbrev IsValid : Bytes → DateValue → Verdict → Type 0
IsValid title at (hold reason cs) = Unit
IsValid title at (keep p) = IsPlaced title at p

module _ (clock : Clock) (options : Options) where
  explicit_place-IsValid :
      (m : ExplicitIdentity) (cs : List Bytes) (title : Bytes) (at : DateValue) (v : Verdict)
      → explicit_place clock options m cs title at ≡ ok v
      → IsValid title at v
  unfolding explicit_place
  explicit_place-IsValid m cs title at (hold reason ds) h = tt
  explicit_place-IsValid m cs title at (keep p) h = ground arith

  verified_place-IsValid :
      (o : Option VerifiedEvent) (l : CanvasLink) (course : Bytes) (cs : List Bytes) (title : Bytes)
      (at : DateValue) (v : Verdict)
      → numeric_id l.id ≡ true
      → verified_place clock options o l course cs title at ≡ ok v
      → IsValid title at v
  unfolding verified_place
  verified_place-IsValid o l course cs title at (hold reason ds) n h = tt
  verified_place-IsValid none l course cs title at (keep p) n h = cc
  verified_place-IsValid (some e) l course cs title at (keep p) n h =
      ground (arith, valid_identity-verified e.kind e.parent_assignment_id l.id)

  link_place-IsValid :
      (l : CanvasLink) (course : Bytes) (cs : List Bytes) (title : Bytes) (at : DateValue)
      (v : Verdict)
      → numeric_id l.id ≡ true
      → link_place clock options l course cs title at ≡ ok v
      → IsValid title at v
  unfolding link_place
  link_place-IsValid l course cs title at v n h = elim (LinkKind-cases l.kind) [
    | inl k ↦ ground (arith, k, valid_identity-assignment l.id n)
    | inr k ↦
        verified_place-IsValid
          (filter_some (λ x. same x.course_id l.course_id) (options.verified_events l.id)) l course
          cs title at v n (ground (arith, k))
  ]

  pub placed-valid :
      (link : Option CanvasLink) (explicit : Option ExplicitIdentity) (cs : List Bytes)
      (title : Bytes) (at : DateValue) (p : Place)
      → ((l : CanvasLink) → link ≡ some l → numeric_id l.id ≡ true)
      → placed clock options link explicit cs title at ≡ ok (keep p)
      → IsPlaced title at p
  unfolding placed place_in
  placed-valid none none cs title at p n h = cc
  placed-valid none (some m) cs title at p n h = explicit_place-IsValid m cs title at (keep p) h
  placed-valid (some l) explicit cs title at p n h =
      elim (Result-cases (one_course options.courses cs)) [
        | inr (x, k) ↦ ground (arith, k)
        | inl (course, k) ↦ elim (Option-cases explicit) [
          | inl e ↦
              link_place-IsValid l course cs title at (keep p) (n l refl) (ground (arith, k, e))
          | inr (m, e) ↦ explicit_place-IsValid m cs title at (keep p) (ground (arith, k, e))
        ]
      ]
