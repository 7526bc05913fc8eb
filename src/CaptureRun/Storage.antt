-- ===== src/CaptureRun/Storage.antt =====
-- What a status file reads back as once it is written.
use duegood.Base.{
  ℕ, ◌<◌, ◌≤◌, ◌≡◌, true, Option, none, some, Bytes, length, ok, err, arith, same_refl,
}
use duegood.CaptureRun.State.{
  Attempt, AttemptFile, counter_at, file_of, acceptable, acceptable_counter, max_state_bytes,
  state_format,
}
use duegood.CaptureRun.Disk.{Serde, Node, regular, read_counter, read_attempt_file}
use duegood.CaptureRun.Guard.{last_id}

abbrev pub u64_mod : ℕ
u64_mod = 18446744073709551616

abbrev pub ShortBytes : ℕ → Option Bytes → Type 0
ShortBytes n none = Unit
ShortBytes n (some b) = length b ≤ n

abbrev pub ShortId : Option ℕ → Type 0
ShortId none = Unit
ShortId (some n) = n < u64_mod

-- The attempts whose JSON is sure to fit the limit of a status file.
pub record IsCompact (a : Attempt) : Type 0 where
  pub run : a.run_id < u64_mod
  pub generation : ShortBytes 32 a.generation_id
  pub digest : ShortBytes 64 a.snapshot_sha256
  pub user : ShortId a.user_id

-- What the program relies on of serde_json: what it writes for a record parses back to that
-- record, and the text of a small record is small.
pub record IsFaithful (serde : Serde) : Type 0 where
  pub counter_back :
      (id : ℕ)
      → (j : serde.Json) × (serde.parse (serde.counter_text (counter_at id)) ≡ some j)
        × (serde.counter_of j ≡ some (counter_at id))
  pub attempt_back :
      (a : Attempt)
      → (j : serde.Json) × (serde.parse (serde.attempt_text (file_of a)) ≡ some j)
        × (serde.attempt_of j ≡ some (file_of a))
  pub counter_fits :
      (id : ℕ) → id < u64_mod → serde.size (serde.counter_text (counter_at id)) ≤ max_state_bytes
  pub attempt_fits :
      (a : Attempt) → IsCompact a → serde.size (serde.attempt_text (file_of a)) ≤ max_state_bytes

module _ (serde : Serde) where
  -- The counter that the file stands for: 0 where there is none.
  unfoldable pub stored_id : Node serde.Text → ℕ
  stored_id n = elim (read_counter serde n) [ ok c ↦ last_id c | err _ ↦ 0 ]

  module _ (faithful : IsFaithful serde) where
    pub read_counter-back :
        (id : ℕ)
        → id < u64_mod
        → read_counter serde (regular (serde.counter_text (counter_at id)))
          ≡ ok (some (counter_at id))
    unfolding read_counter acceptable_counter
    read_counter-back id h =
        let (j, p, q) = faithful.counter_back id in
        ground (arith, p, q, faithful.counter_fits id h, same_refl state_format)

    pub read_attempt_file-back :
        (a : Attempt)
        → acceptable (file_of a) ≡ true
        → IsCompact a
        → read_attempt_file serde (regular (serde.attempt_text (file_of a))) ≡ ok (some (file_of a))
    unfolding read_attempt_file
    read_attempt_file-back a ac c =
        let (j, p, q) = faithful.attempt_back a in
        ground (arith, p, q, ac, faithful.attempt_fits a c)

    -- Whatever the size, a written attempt reads back as itself if it reads back at all.
    pub read_attempt_file-only :
        (a : Attempt) (f : AttemptFile)
        → read_attempt_file serde (regular (serde.attempt_text (file_of a))) ≡ ok (some f)
        → f ≡ file_of a
    unfolding read_attempt_file
    read_attempt_file-only a f h = let (j, p, q) = faithful.attempt_back a in ground (arith, p, q)
