-- ===== src/Tally/Record.antt =====
-- The contents of a record file of libiam/lualib-src/pam_tally_ext.c.
use account.Base.{
  ℕ, zero, suc, ◌+◌, ◌-◌, ◌*◌, ◌/◌, ◌%◌, ◌^◌, Bool, not, Option, none, some, List, [], ◌∷◌, ◌++◌,
  ltb, leb, ◌==◌, if◌then◌else◌, Bytes, length, set, take,
}
use account.Clib.Text.{codes}

-- TallyRecord, of 64 bytes.
pub record TallyRecord : Type 0 where
  pub record_name : Bytes
  pub reserved : ℕ
  pub status : ℕ
  pub timestamp : ℕ

-- A file: its whole records, and the number of bytes behind them, less than a record.
pub record TallyFile : Type 0 where
  pub records : List TallyRecord
  pub extra : ℕ

-- TallyLog: a guint16 and a guint64.
pub record TallyLog : Type 0 where
  pub fail_cnt : ℕ
  pub fail_time : ℕ

abbrev pub whole : List TallyRecord → TallyFile
whole records = record { records = records; extra = 0 }

abbrev pub empty_file : TallyFile
empty_file = whole []

-- MAX_RECORDS
abbrev pub max_records : ℕ
max_records = 1024

-- The records, at most max_records of them, and the file, which is emptied if its size is wrong.
unfoldable pub read_tally : TallyFile → Option (List TallyRecord) × TallyFile
read_tally f =
    let bytes = length f.records * 64 + f.extra in
    let size = if ltb (max_records * 64) bytes then max_records * 64 else bytes in
    if not (size % 64 == 0) then (none, empty_file) else (some (take (size / 64) f.records), f)

-- The search for the oldest record, as in update_tally: time and index so far, the next index.
unfoldable pub oldest_from : ℕ → ℕ → ℕ → List TallyRecord → ℕ
oldest_from oldest_time loc_idx i [] = loc_idx
oldest_from oldest_time loc_idx i (r ∷ rs) =
    let older = oldest_from r.timestamp i (i + 1) rs in
    let kept = oldest_from oldest_time loc_idx (i + 1) rs in
    if ltb r.timestamp oldest_time then older else kept

abbrev pub oldest_idx : List TallyRecord → ℕ
oldest_idx [] = 0
oldest_idx (r ∷ rs) = oldest_from r.timestamp 0 1 rs

-- A zeroed record.
abbrev pub zero_record : TallyRecord
zero_record = record { record_name = []; reserved = 0; status = 0; timestamp = 0 }

-- FAILLOCK_RECORD_VALID | FAILLOCK_SOURCE_RHOST
abbrev pub failed_at : ℕ → TallyRecord → TallyRecord
failed_at now r = record r { record_name = codes "User"; status = 3; timestamp = now }

abbrev pub record_at : ℕ → List TallyRecord → TallyRecord
record_at i [] = zero_record
record_at zero (r ∷ rs) = r
record_at (suc i) (r ∷ rs) = record_at i rs

unfoldable pub update_tally : ℕ → List TallyRecord → List TallyRecord
update_tally now records =
    let i = oldest_idx records in
    if length records == max_records
    then set records i (failed_at now (record_at i records))
    else records ++ (failed_at now zero_record ∷ [])

-- status & FAILLOCK_RECORD_VALID
abbrev pub is_valid : TallyRecord → Bool
is_valid r = not (r.status % 2 == 0)

-- The last failure of a valid record.
unfoldable pub latest_valid : ℕ → List TallyRecord → ℕ
latest_valid latest [] = latest
latest_valid latest (r ∷ rs) =
    let later = latest_valid r.timestamp rs in
    let kept = latest_valid latest rs in
    if not (is_valid r) then kept else if ltb latest r.timestamp then later else kept

-- The number of valid records less than the interval before a time, by a 64-bit difference, a guint32.
unfoldable pub failures_in : ℕ → ℕ → ℕ → List TallyRecord → ℕ
failures_in latest_time fail_interval cnt [] = cnt
failures_in latest_time fail_interval cnt (r ∷ rs) =
    let counted = failures_in latest_time fail_interval ((cnt + 1) % 2 ^ 32) rs in
    let kept = failures_in latest_time fail_interval cnt rs in
    if not (is_valid r)
    then kept
    else if ltb ((latest_time + 2 ^ 64 - r.timestamp % 2 ^ 64) % 2 ^ 64) fail_interval
    then counted
    else kept

unfoldable pub tally_log : ℕ → ℕ → ℕ → List TallyRecord → TallyLog
tally_log now unlock_time fail_interval records =
    let latest_time = latest_valid 0 records in
    let failures = failures_in latest_time fail_interval 0 records in
    if leb now ((latest_time + unlock_time) % 2 ^ 64)
    then record { fail_cnt = failures % 2 ^ 16; fail_time = latest_time }
    else record { fail_cnt = 0; fail_time = 0 }
