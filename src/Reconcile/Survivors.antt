-- ===== src/Reconcile/Survivors.antt =====
-- No local item is lost in the loop over the items in src-tauri/src/reconcile.rs.
use duegood.Base.{
  ℕ, suc, ◌+◌, Bool, List, [], ◌∷◌, ◌++◌, Bytes, codes, count, count-append, All, ok, Result-cases,
  ◌≡◌, refl, sym, ap, subst, Result, ◌⊎◌, inl, inr, arith,
}
use mathlib.Core.List.{Mem, mem-cons_self, mem-append_left, mem-append_right}
use duegood.Reconcile.Values.{
  Values, IsLawful, ReconcileError, Clock, CourseAssignments, field, text_of, is_text,
}
use duegood.Reconcile.Checks.{HashMap}
use duegood.Reconcile.Items.{
  Matches, Placement, kept, archived, updated, place_item, Places, record_place, place_items,
}
use duegood.Reconcile.Frame.{is_canvas_field}
use duegood.Reconcile.Placed.{IsPlaced, IsSameWork, place_item-IsPlaced}

module _ (json : Values) where
  open json use {Value}

  abbrev pub has_id : Bytes → Value → Bool
  has_id id v = is_text id (text_of json (field json (codes "id") v))

  -- how many items have an ID
  abbrev pub id_count : Bytes → List Value → ℕ
  id_count id items = count (has_id id) items

  -- an update keeps the ID
  pub work-has_id : (id : Bytes) (v w : Value) → IsSameWork json v w → has_id id w ≡ has_id id v
  unfolding is_canvas_field
  work-has_id id v w s = ap (λ f. is_text id (text_of json f)) (s (codes "id") refl)

  -- The work is among the items, in an item with the same fields but those of an assignment, or it
  -- is archived as it is.
  abbrev pub Survives : List Value → List Value → Value → Type 0
  Survives items archive v = ((w : Value) × Mem w items × IsSameWork json v w) ⊎ Mem v archive

  pub Survives-append :
      (items more archive newer : List Value) (v : Value)
      → Survives items archive v
      → Survives (items ++ more) (archive ++ newer) v
  Survives-append items more archive newer v (inl (w, m, s)) = inl (w, mem-append_left more m, s)
  Survives-append items more archive newer v (inr m) = inr (mem-append_left newer m)

  abbrev Stays : Places json → Value → Type 0
  Stays p v = Survives p.next_items p.newly_archived v

  record_place-Stays :
      (p : Places json) (x : Placement json) (v : Value)
      → Stays p v
      → Stays (record_place json p x) v
  unfolding record_place
  record_place-Stays p (kept w) v (inl (u, m, s)) = inl (u, mem-append_left _ m, s)
  record_place-Stays p (kept w) v (inr m) = inr m
  record_place-Stays p (archived w) v (inl s) = inl s
  record_place-Stays p (archived w) v (inr m) = inr (mem-append_left _ m)
  record_place-Stays p (updated w i) v (inl (u, m, s)) = inl (u, mem-append_left _ m, s)
  record_place-Stays p (updated w i) v (inr m) = inr m

  record_place-placed :
      (p : Places json) (x : Placement json) (v : Value)
      → IsPlaced json v x
      → Stays (record_place json p x) v
  unfolding record_place IsPlaced
  record_place-placed p (kept w) v i =
      inl (w, mem-append_right p.next_items mem-cons_self, λ name other. rw (i) refl)
  record_place-placed p (archived w) v i = inr (
      subst (λ u. Mem u (p.newly_archived ++ (w ∷ []))) i
        (mem-append_right p.newly_archived mem-cons_self))
  record_place-placed p (updated w j) v i = inl (w, mem-append_right p.next_items mem-cons_self, i)

  -- the items and the archive together have as many of an ID as before, and the placed one
  record_place-count :
      (id : Bytes) (p : Places json) (x : Placement json) (v : Value)
      → IsPlaced json v x
      → id_count id (record_place json p x).next_items
          + id_count id (record_place json p x).newly_archived
        ≡ id_count id p.next_items + id_count id p.newly_archived + id_count id (v ∷ [])
  unfolding record_place IsPlaced
  record_place-count id p (kept w) v i =
      ground (arith, count-append (has_id id) p.next_items (w ∷ []), ap (has_id id) i)
  record_place-count id p (archived w) v i =
      ground (arith, count-append (has_id id) p.newly_archived (w ∷ []), ap (has_id id) i)
  record_place-count id p (updated w j) v i =
      ground (arith, count-append (has_id id) p.next_items (w ∷ []), work-has_id id v w i)

  module _ (lawful : IsLawful json) (clock : Clock) (tokens : Bytes → List Bytes)
      (captured_at : clock.SystemTime) (local_courses : List Value)
      (captures : HashMap (CourseAssignments json)) (matches : Matches) where
    abbrev place : ℕ → Value → Result ReconcileError (Placement json)
    place = place_item json clock tokens captured_at local_courses captures matches

    abbrev places : ℕ → List Value → Places json → Result ReconcileError (Places json)
    places = place_items json clock tokens captured_at local_courses captures matches

    place_items-Stays :
        (index : ℕ) (items : List Value) (p p' : Places json) (v : Value)
        → places index items p ≡ ok p'
        → Stays p v
        → Stays p' v
    unfolding place_items
    place_items-Stays index [] p p' v h s =
        let q : p ≡ p' = ground arith in subst (λ x. Stays x v) q s
    place_items-Stays index (item ∷ items) p p' v h s = elim (Result-cases (place index item)) [
      | inr (x, e) ↦ ground (arith, e)
      | inl (x, e) ↦
          place_items-Stays (suc index) items (record_place json p x) p' v (ground (arith, e))
            (record_place-Stays p x v s)
    ]

    -- every item of the loop survives it
    pub place_items-Survives :
        (index : ℕ) (items : List Value) (p p' : Places json)
        → places index items p ≡ ok p'
        → All (Survives p'.next_items p'.newly_archived) items
    unfolding place_items
    place_items-Survives index [] p p' h = tt
    place_items-Survives index (item ∷ items) p p' h = elim (Result-cases (place index item)) [
      | inr (x, e) ↦ ground (arith, e)
      | inl (x, e) ↦
          let i =
            place_item-IsPlaced json lawful clock tokens captured_at local_courses captures matches
              index item x e in
          let k : places (suc index) items (record_place json p x) ≡ ok p' = ground (arith, e) in
          (
            place_items-Stays (suc index) items (record_place json p x) p' item k
                (record_place-placed p x item i),
            place_items-Survives (suc index) items (record_place json p x) p' k,
          )
    ]

    -- no ID gets more or fewer items in the loop
    pub place_items-count :
        (id : Bytes) (index : ℕ) (items : List Value) (p p' : Places json)
        → places index items p ≡ ok p'
        → id_count id p'.next_items + id_count id p'.newly_archived
          ≡ id_count id p.next_items + id_count id p.newly_archived + id_count id items
    unfolding place_items
    place_items-count id index [] p p' h = let q : p ≡ p' = ground arith in rw (sym q) (omega arith)
    place_items-count id index (item ∷ items) p p' h = elim (Result-cases (place index item)) [
      | inr (x, e) ↦ ground (arith, e)
      | inl (x, e) ↦
          let i =
            place_item-IsPlaced json lawful clock tokens captured_at local_courses captures matches
              index item x e in
          let k : places (suc index) items (record_place json p x) ≡ ok p' = ground (arith, e) in
          omega (
            arith,
            record_place-count id p x item i,
            place_items-count id (suc index) items (record_place json p x) p' k,
          )
    ]
