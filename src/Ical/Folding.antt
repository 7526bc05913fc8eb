-- ===== src/Ical/Folding.antt =====
-- Folded lines of RFC 5545 against `unfold` of src-tauri/src/ical_parse.rs.
use duegood.Base.{
  ℕ, false, List, [], ◌∷◌, ◌++◌, Bytes, ◌≡◌, refl, ap, ok, ◌∙◌, append_assoc, append-nil,
}
use mathlib.Core.List.{reverse_aux}
use duegood.Ical.Lines.{is_blank, join_lines}

-- a content line as it is folded: its first piece, and the pieces behind a space each
pub record Folded : Type 0 where
  pub first : ℕ
  pub head : Bytes
  pub pieces : List Bytes

abbrev continued : List Bytes → List Bytes
continued [] = []
continued (p ∷ ps) = (32 ∷ p) ∷ continued ps

abbrev joined : List Bytes → Bytes
joined [] = []
joined (p ∷ ps) = p ++ joined ps

abbrev pub physical : List Folded → List Bytes
physical [] = []
physical (f ∷ fs) = (f.first ∷ f.head) ∷ (continued f.pieces ++ physical fs)

abbrev pub logical : List Folded → List Bytes
logical [] = []
logical (f ∷ fs) = (f.first ∷ (f.head ++ joined f.pieces)) ∷ logical fs

-- no line begins with a blank
abbrev pub IsPlain : List Folded → Type 0
IsPlain [] = Unit
IsPlain (f ∷ fs) = (is_blank f.first ≡ false) × IsPlain fs

joins :
    (p : Bytes) (lines ps rest : List Bytes)
    → join_lines (p ∷ lines) (continued ps ++ rest) ≡ join_lines ((p ++ joined ps) ∷ lines) rest
unfolding join_lines is_blank
joins p lines [] rest = rw (append-nil p) refl
joins p lines (q ∷ qs) rest =
    joins (p ++ q) lines qs rest
    ∙ ap (λ l. join_lines (l ∷ lines) rest) (append_assoc p q (joined qs))

starts :
    (c : ℕ) (h : Bytes) (lines rest : List Bytes)
    → is_blank c ≡ false
    → join_lines lines ((c ∷ h) ∷ rest) ≡ join_lines ((c ∷ h) ∷ lines) rest
unfolding join_lines
starts c h [] rest e = rw (e) refl
starts c h (l ∷ lines) rest e = rw (e) refl

unfolds :
    (fs : List Folded) (lines : List Bytes)
    → IsPlain fs
    → join_lines lines (physical fs) ≡ ok (reverse_aux lines (logical fs))
unfolding join_lines
unfolds [] lines h = refl
unfolds (f ∷ fs) lines (e, h) =
    starts f.first f.head lines (continued f.pieces ++ physical fs) e
    ∙ joins (f.first ∷ f.head) lines f.pieces (physical fs)
    ∙ unfolds fs ((f.first ∷ (f.head ++ joined f.pieces)) ∷ lines) h

-- Lines folded at any places, each continuation behind a space, are joined back into the content
-- lines, provided that every content line has a first byte that is no blank.
pub join_lines-physical :
    (fs : List Folded) → IsPlain fs → join_lines [] (physical fs) ≡ ok (logical fs)
join_lines-physical fs h = unfolds fs [] h
