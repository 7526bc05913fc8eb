-- ===== src/CaptureRun/State.antt =====
-- The status records of src-tauri/src/capture_run.rs, and what makes one acceptable.
use duegood.Base.{
  ℕ, ◌+◌, String, Bool, true, false, not, ◌&&◌, ◌||◌, Option, none, some, Bytes, codes, same,
  is_digit, length, all, leb, ◌==◌, some_and, if◌then◌else◌,
}

-- `io::Error`: the kinds that the code builds, and any other of the operating system.
pub data IoError : Type 0 where
  would_block timed_out : IoError
  invalid_data : String → IoError
  os : ℕ → IoError

pub data Status : Type 0 where
  running failed captured : Status

abbrev pub is_running : Status → Bool
is_running running = true
is_running _ = false

abbrev pub is_captured : Status → Bool
is_captured captured = true
is_captured _ = false

-- `CaptureAttempt`
pub record Attempt : Type 0 where
  pub run_id : ℕ
  pub status : Status
  pub generation_id : Option Bytes
  pub snapshot_sha256 : Option Bytes
  pub user_id : Option ℕ

-- `RunCounter`
pub record RunCounter : Type 0 where
  pub format : Bytes
  pub version : ℕ
  pub last_run_id : ℕ

-- `AttemptFile`
pub record AttemptFile : Type 0 where
  pub format : Bytes
  pub version : ℕ
  pub attempt : Attempt
  pub open attempt use *

abbrev pub state_format : Bytes
state_format = codes "duegood-canvas-capture-state"

abbrev pub state_version : ℕ
state_version = 2

abbrev pub max_state_bytes : ℕ
max_state_bytes = 4096

is_hex : ℕ → Bool
is_hex c = is_digit c || (leb b'a' c && leb c b'f')

unfoldable pub valid_generation_id : Bytes → Bool
unfolding is_hex is_digit
valid_generation_id value = length value == 32 && all is_hex value

unfoldable pub valid_hash : Bytes → Bool
unfolding is_hex is_digit
valid_hash value = length value == 64 && all is_hex value

-- `matches!(version, 1 | STATE_VERSION)`
abbrev pub known_version : ℕ → Bool
known_version v = v == 1 || v == state_version

-- the fields that a captured attempt must have
unfoldable pub is_complete : AttemptFile → Bool
is_complete f =
    leb state_version f.version
    && some_and valid_generation_id f.generation_id
    && some_and valid_hash f.snapshot_sha256
    && some_and (λ id. not (id == 0)) f.user_id

-- the test of `read_attempt_file`
unfoldable pub acceptable : AttemptFile → Bool
unfolding is_complete
acceptable f =
    same f.format state_format
    && known_version f.version
    && not (f.run_id == 0)
    && (not (is_captured f.status) || is_complete f)

-- the test of `read_counter`
unfoldable pub acceptable_counter : RunCounter → Bool
acceptable_counter c = same c.format state_format && known_version c.version

-- What `begin` and `write_attempt` build.
abbrev pub counter_at : ℕ → RunCounter
counter_at id = record { format = state_format; version = state_version; last_run_id = id }

abbrev pub file_of : Attempt → AttemptFile
file_of a = record { format = state_format; version = state_version; attempt = a }

abbrev pub started : ℕ → Attempt
started id = record {
  run_id = id;
  status = running;
  generation_id = none;
  snapshot_sha256 = none;
  user_id = none;
}

abbrev pub finished : ℕ → Bytes → Bytes → ℕ → Attempt
finished id generation digest user = record {
  run_id = id;
  status = captured;
  generation_id = some generation;
  snapshot_sha256 = some digest;
  user_id = some user;
}

abbrev pub with_status : Attempt → Status → Attempt
with_status a s = record a { status = s }

-- `run_id.checked_add(1)` on a `u64`
unfoldable pub checked_next : ℕ → Option ℕ
checked_next n = if leb 18446744073709551615 n then none else some (n + 1)
