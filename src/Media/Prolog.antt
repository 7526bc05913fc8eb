-- ===== src/Media/Prolog.antt =====
-- The loops of src-tauri/src/capture_media.rs that skip declarations and comments, and their fuel.
use duegood.Base.{
  ℕ, zero, suc, ◌<◌, ◌≡◌, ◌≢◌, inl, inr, none, some, List, [], ◌∷◌, Bytes, length, arith,
  Option-cases, strip_prefix, find_text, trim_start, length-strip_prefix, length-find_text,
  length-trim_start, strip_prefix-eq_some, ◌++◌, ◌∙◌, ap, sym, subst,
}
use mathlib.Core.List.{Mem, mem-cons_self, mem-cons_of_mem}
use duegood.Media.Scripts.{rest, out_of_fuel, skip_once, skip_blocks}

-- every opening mark has a first byte
abbrev pub OpensFilled : List (Bytes × Bytes) → Type 0
OpensFilled [] = Unit
OpensFilled ((o, _) ∷ blocks) = (0 < length o) × OpensFilled blocks

skip_once-shorter :
    (blocks : List (Bytes × Bytes)) (s after : Bytes)
    → OpensFilled blocks
    → skip_once blocks s ≡ some (some after)
    → length after < length s
unfolding skip_once
skip_once-shorter [] s after f e = cc
skip_once-shorter ((o, c) ∷ blocks) s after (h, f) e = elim (Option-cases (strip_prefix o s)) [
  | inl k ↦ skip_once-shorter blocks s after f (rw (k, skip_once) at e)
  | inr (r, k) ↦
      let found : find_text c r ≡ some after = ground arith in
      omega (arith, length-strip_prefix o s r k, length-find_text c r after found)
]

-- With more rounds than the text has bytes, skipping blocks whose opening marks are not empty does
-- not run out of fuel.
pub skip_blocks_ends :
    (blocks : List (Bytes × Bytes)) (fuel : ℕ) (s : Bytes)
    → OpensFilled blocks
    → length s < fuel
    → skip_blocks blocks fuel s ≢ out_of_fuel
unfolding skip_blocks
skip_blocks_ends blocks zero s f h e = absurd (omega arith)
skip_blocks_ends blocks (suc fuel) s f h e = elim (Option-cases (skip_once blocks s)) [
  | inl k ↦ ground (arith, k)
  | inr (none, k) ↦ ground (arith, k)
  | inr (some after, k) ↦
      skip_blocks_ends blocks fuel (trim_start after) f
        (omega (arith, skip_once-shorter blocks s after f k, length-trim_start after))
        (ground (arith, k))
]

-- A text is a sequence of blocks, with what is trimmed behind each, and a rest. A block is an opening
-- mark, a body and the first closing mark of the same kind behind it.
pub data Consists (blocks : List (Bytes × Bytes)) (r : Bytes) : Bytes → Type 0 where
  no_more : Consists blocks r r
  block :
      (o c body s : Bytes)
      → Mem (o, c) blocks
      → find_text c (body ++ (c ++ s)) ≡ some s
      → Consists blocks r (trim_start s)
      → Consists blocks r (o ++ (body ++ (c ++ s)))

-- the text begins with none of the opening marks
abbrev pub OpensNone : List (Bytes × Bytes) → Bytes → Type 0
OpensNone [] r = Unit
OpensNone ((o, _) ∷ blocks) r = (strip_prefix o r ≡ none) × OpensNone blocks r

skip_once-OpensNone :
    (blocks : List (Bytes × Bytes)) (r : Bytes) → skip_once blocks r ≡ none → OpensNone blocks r
unfolding skip_once
skip_once-OpensNone [] r h = tt
skip_once-OpensNone ((o, c) ∷ blocks) r h = elim (Option-cases (strip_prefix o r)) [
  | inl k ↦ (k, skip_once-OpensNone blocks r (rw (k, skip_once) at h))
  | inr (a, k) ↦ ground (arith, k)
]

find_text-eq_some :
    (p s r : Bytes) → find_text p s ≡ some r → (body : Bytes) × (s ≡ body ++ (p ++ r))
unfolding find_text
find_text-eq_some p [] r h = ([], (strip_prefix-eq_some p [] r).0 h)
find_text-eq_some p (x ∷ s) r h = elim (Option-cases (strip_prefix p (x ∷ s))) [
  | inr (a, k) ↦ ([], (strip_prefix-eq_some p (x ∷ s) r).0 (ground (arith, k)))
  | inl k ↦
      let (body, e) = find_text-eq_some p s r (ground (arith, k)) in (x ∷ body, ap (λ t. x ∷ t) e)
]

-- What is skipped in one round is a block of one of the kinds.
skip_once-block :
    (blocks : List (Bytes × Bytes)) (s after : Bytes)
    → skip_once blocks s ≡ some (some after)
    → (o : Bytes) × (c : Bytes) × (body : Bytes) × Mem (o, c) blocks
      × (find_text c (body ++ (c ++ after)) ≡ some after)
      × (s ≡ o ++ (body ++ (c ++ after)))
unfolding skip_once
skip_once-block [] s after h = cc
skip_once-block ((o, c) ∷ blocks) s after h = elim (Option-cases (strip_prefix o s)) [
  | inl k ↦
      let (o', c', body, m, f, e) = skip_once-block blocks s after (rw (k, skip_once) at h) in
      (o', c', body, mem-cons_of_mem _ m, f, e)
  | inr (a, k) ↦
      let found : find_text c a ≡ some after = ground (arith, k) in
      let (body, e) = find_text-eq_some c a after found in
      (
        o,
        c,
        body,
        mem-cons_self,
        rw e at found,
        (strip_prefix-eq_some o s a).0 k ∙ ap (λ t. o ++ t) e,
      )
]

-- Where skipping comes to rest, the text is a sequence of blocks, each an opening mark and what follows
-- up to the first closing mark of the same kind, with what is trimmed behind each, and then exactly
-- what is left, which begins with none of the opening marks.
pub skip_blocks-Consists :
    (blocks : List (Bytes × Bytes)) (fuel : ℕ) (s r : Bytes)
    → skip_blocks blocks fuel s ≡ rest r
    → Consists blocks r s × OpensNone blocks r
unfolding skip_blocks
skip_blocks-Consists blocks zero s r e = cc
skip_blocks-Consists blocks (suc fuel) s r e = elim (Option-cases (skip_once blocks s)) [
  | inl k ↦
      let q : s ≡ r = ground (arith, k) in
      (
        subst (λ t. Consists blocks t s) q no_more,
        subst (OpensNone blocks) q (skip_once-OpensNone blocks s k),
      )
  | inr (none, k) ↦ ground (arith, k)
  | inr (some after, k) ↦
      let (c, n) = skip_blocks-Consists blocks fuel (trim_start after) r (ground (arith, k)) in
      let (o, cl, body, m, f, q) = skip_once-block blocks s after k in
      (subst (Consists blocks r) (sym q) (block o cl body after m f c), n)
]
