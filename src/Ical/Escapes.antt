-- ===== src/Ical/Escapes.antt =====
-- Text escapes of RFC 5545 against `unescape_text` of src-tauri/src/ical_parse.rs.
use duegood.Base.{
  ℕ, Bool, true, false, ◌||◌, ◌==◌, [], ◌∷◌, Bytes, ◌≡◌, refl, if◌then◌else◌, Bool-cases, inl, inr,
  ◌⊎◌, arith,
}
use duegood.Ical.Lines.{unescape_text}

-- how RFC 5545 writes one byte of a TEXT value
abbrev pub needs_escape : ℕ → Bool
needs_escape c = c == b'\\' || c == b';' || c == b','

unfoldable pub escape_text : Bytes → Bytes
escape_text [] = []
escape_text (c ∷ s) =
    let rest = escape_text s in
    if c == 10 then b'\\' ∷ b'n' ∷ rest else if needs_escape c then b'\\' ∷ c ∷ rest else c ∷ rest

-- Text that begins with another byte than a backslash is read from there.
plain_byte :
    (c : ℕ) (s : Bytes) → (c == b'\\') ≡ false → unescape_text (c ∷ s) ≡ c ∷ unescape_text s
unfolding unescape_text
plain_byte c [] h = refl
plain_byte c (d ∷ s) h = ground (arith)

nil_text : unescape_text [] ≡ []
unfolding unescape_text
nil_text = refl

escaped_byte :
    (c : ℕ) (s : Bytes)
    → (c ≡ 10) ⊎ ((needs_escape c ≡ true))
    → unescape_text (b'\\' ∷ (if c == 10 then b'n' else c) ∷ s) ≡ c ∷ unescape_text s
unfolding unescape_text
escaped_byte c s h = ground arith

-- Unescaping a TEXT value that is written as RFC 5545 asks, with every backslash, semicolon, comma
-- and newline escaped, gives the value back.
pub unescape_text-escape_text : (s : Bytes) → unescape_text (escape_text s) ≡ s
unfolding escape_text
unescape_text-escape_text [] = nil_text
unescape_text-escape_text (c ∷ s) = elim (Bool-cases (c == 10)) [
  | inl e ↦ ground (arith, escaped_byte c (escape_text s), unescape_text-escape_text s)
  | inr e ↦ elim (Bool-cases (needs_escape c)) [
    | inl k ↦ ground (arith, escaped_byte c (escape_text s), unescape_text-escape_text s)
    | inr k ↦ ground (arith, plain_byte c (escape_text s), unescape_text-escape_text s)
  ]
]
