-- ===== src/Media/Scripts.antt =====
-- `is_svg` and `is_sql` of src-tauri/src/capture_media.rs.
use duegood.Base.{
  ℕ, zero, suc, Bool, false, ◌&&◌, ◌||◌, leb, ◌==◌, Option, none, some, List, [], ◌∷◌, Bytes, codes,
  same, strip_prefix, find_text, to_upper, trim_start, length, take, any, if◌then◌else◌,
}
use duegood.Base.Utf8.{valid, incomplete, invalid, from_utf8}

-- The text that a streaming prefix is sure to hold: up to a character that it cuts.
unfoldable pub whole_text : Bytes → Option Bytes
unfolding from_utf8
whole_text prefix = elim (from_utf8 prefix) [
  | valid ↦ some prefix
  | incomplete n ↦ some (take n prefix)
  | invalid _ ↦ none
]

-- What comes of skipping blocks: the rest behind them, or a block with no end. The fuel is
-- one round for each byte and one more.
pub data Skipped : Type 0 where
  rest : Bytes → Skipped
  unended out_of_fuel : Skipped

-- The first block whose opening the text has: none, or the text behind its end if it has one.
unfoldable pub skip_once : List (Bytes × Bytes) → Bytes → Option (Option Bytes)
unfolding strip_prefix find_text
skip_once [] s = none
skip_once ((open_mark, close_mark) ∷ blocks) s =
    let later = skip_once blocks s in
    elim (strip_prefix open_mark s) [
      | none ↦ later
      | some after ↦ some (find_text close_mark after)
    ]

unfoldable pub skip_blocks : List (Bytes × Bytes) → ℕ → Bytes → Skipped
unfolding skip_once trim_start
skip_blocks blocks zero s = out_of_fuel
skip_blocks blocks (suc fuel) s = elim (skip_once blocks s) [
  | none ↦ rest s
  | some none ↦ unended
  | some (some after) ↦ skip_blocks blocks fuel (trim_start after)
]

abbrev pub svg_blocks : List (Bytes × Bytes)
svg_blocks =
    (codes "<?xml", codes "?>") ∷ (codes "<!--", codes "-->") ∷ (codes "<!DOCTYPE", codes ">") ∷ []

abbrev pub sql_blocks : List (Bytes × Bytes)
sql_blocks = (codes "--", 10 ∷ []) ∷ (codes "/*", codes "*/") ∷ []

-- `char::is_ascii_whitespace`, or one of `>` and `/`
ends_name : Bytes → Bool
ends_name [] = false
ends_name (c ∷ _) = c == 32 || c == 9 || c == 10 || c == 12 || c == 13 || c == b'>' || c == b'/'

svg_root : Skipped → Bool
svg_root (rest s) = elim (strip_prefix (codes "<svg") s) [
  | none ↦ false
  | some root ↦ ends_name root
]
svg_root _ = false

abbrev pub bom : Bytes
bom = 0xef ∷ 0xbb ∷ 0xbf ∷ []

abbrev pub without_bom : Bytes → Bytes
without_bom s = elim (strip_prefix bom s) [ none ↦ s | some r ↦ r ]

unfoldable pub is_svg : Bytes → Bool
unfolding whole_text skip_blocks svg_root ends_name strip_prefix
is_svg prefix = elim (whole_text (without_bom prefix)) [
  | none ↦ false
  | some text ↦ let s = trim_start text in svg_root (skip_blocks svg_blocks (suc (length s)) s)
]

-- `trim_start_matches('\u{feff}')`
drop_boms : ℕ → Bytes → Bytes
drop_boms zero s = s
drop_boms (suc n) s = elim (strip_prefix bom s) [ none ↦ s | some r ↦ drop_boms n r ]

is_alphabetic : ℕ → Bool
is_alphabetic c = (leb b'a' c && leb c b'z') || (leb b'A' c && leb c b'Z')

keyword : Bytes → Bytes
keyword [] = []
keyword (c ∷ s) = let more = keyword s in if is_alphabetic c then c ∷ more else []

abbrev keywords : List Bytes
keywords =
    codes "SELECT"
    ∷ codes "WITH"
    ∷ codes "INSERT"
    ∷ codes "UPDATE"
    ∷ codes "DELETE"
    ∷ codes "MERGE"
    ∷ codes "CREATE"
    ∷ codes "ALTER"
    ∷ codes "DROP"
    ∷ codes "TRUNCATE"
    ∷ codes "REPLACE"
    ∷ codes "PRAGMA"
    ∷ codes "BEGIN"
    ∷ codes "COMMIT"
    ∷ codes "END"
    ∷ codes "ROLLBACK"
    ∷ codes "SAVEPOINT"
    ∷ codes "RELEASE"
    ∷ codes "EXPLAIN"
    ∷ codes "VACUUM"
    ∷ codes "ANALYZE"
    ∷ codes "ATTACH"
    ∷ codes "DETACH"
    ∷ codes "GRANT"
    ∷ codes "REVOKE"
    ∷ codes "CALL"
    ∷ codes "DO"
    ∷ codes "DECLARE"
    ∷ codes "SET"
    ∷ codes "USE"
    ∷ []

-- An empty keyword is none of the keywords.
begins_statement : Skipped → Bool
unfolding keyword is_alphabetic to_upper
begins_statement (rest s) = any (same (to_upper (keyword s))) keywords
begins_statement _ = false

unfoldable pub is_sql : Bytes → Bool
unfolding whole_text skip_blocks begins_statement drop_boms strip_prefix trim_start
is_sql prefix = elim (whole_text prefix) [
  | none ↦ false
  | some text ↦
      let s = trim_start (drop_boms (length text) text) in
      begins_statement (skip_blocks sql_blocks (suc (length s)) s)
]
