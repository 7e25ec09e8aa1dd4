-- ===== src/IpLock/Record.antt =====
-- The failure records of one address: libiam/lualib-src/iam_core/ip_lock/ip_lock.c, on the contents of
-- a record file.
pub mod Update
pub mod Window
use account.Base.{
  ℕ, zero, suc, ◌+◌, ◌-◌, ◌*◌, ◌/◌, ◌%◌, ◌^◌, Bool, true, false, ◌&&◌, ◌||◌, not, Option, none,
  some, List, [], ◌∷◌, ◌++◌, ltb, leb, ◌==◌, if◌then◌else◌, Bytes, length, set, take,
}
use account.Clib.Text.{codes}

-- IpFailRecord: 64 bytes of name and a guint64.
pub record IpFailRecord : Type 0 where
  pub record_name : Bytes
  pub timestamp : ℕ

-- sizeof(IpFailRecord)
abbrev pub record_size : ℕ
record_size = 72

-- MAX_RECORD_CNT
abbrev pub max_record_cnt : ℕ
max_record_cnt = 100

-- A record file: its whole records, and the number of bytes behind them, less than a record.
pub record RecordFile : Type 0 where
  pub records : List IpFailRecord
  pub extra : ℕ

abbrev pub empty_file : RecordFile
empty_file = record { records = []; extra = 0 }

abbrev pub file_size : RecordFile → ℕ
file_size f = length f.records * record_size + f.extra

-- The records, at most max_record_cnt of them, and the file, which is emptied if its size is wrong.
unfoldable pub read_ip_fail_record : RecordFile → Option (List IpFailRecord) × RecordFile
read_ip_fail_record f =
    let size =
      if ltb (max_record_cnt * record_size) (file_size f)
      then max_record_cnt * record_size
      else file_size f in
    if not (size % record_size == 0)
    then (none, empty_file)
    else (some (take (size / record_size) f.records), f)

-- The loop that looks for the oldest record: the time and the index found so far, the index of the
-- next record, the records from there on.
unfoldable pub oldest_from : ℕ → ℕ → ℕ → List IpFailRecord → ℕ
oldest_from oldest_time loc_idx i [] = loc_idx
oldest_from oldest_time loc_idx i (r ∷ rs) =
    let older = oldest_from r.timestamp i (i + 1) rs in
    let kept = oldest_from oldest_time loc_idx (i + 1) rs in
    if ltb r.timestamp oldest_time then older else kept

unfoldable pub oldest_idx : List IpFailRecord → ℕ
oldest_idx [] = 0
oldest_idx (r ∷ rs) = oldest_from r.timestamp 0 1 rs

abbrev pub new_record : ℕ → IpFailRecord
new_record now = record { record_name = codes "Ip"; timestamp = now }

-- The records in use, after one more failure.
unfoldable pub update_record : ℕ → List IpFailRecord → List IpFailRecord
update_record now records =
    if length records == max_record_cnt
    then set records (oldest_idx records) (new_record now)
    else records ++ (new_record now ∷ [])

-- The last failure.
unfoldable pub latest_from : ℕ → List IpFailRecord → ℕ
latest_from latest [] = latest
latest_from latest (r ∷ rs) =
    let later = latest_from r.timestamp rs in
    let kept = latest_from latest rs in if ltb latest r.timestamp then later else kept

-- The number of failures after a time, a guint8.
unfoldable pub fail_cnt_from : ℕ → ℕ → List IpFailRecord → ℕ
fail_cnt_from exp_oldest_time cnt [] = cnt
fail_cnt_from exp_oldest_time cnt (r ∷ rs) =
    let counted = fail_cnt_from exp_oldest_time ((cnt + 1) % 256) rs in
    let kept = fail_cnt_from exp_oldest_time cnt rs in
    if ltb exp_oldest_time r.timestamp then counted else kept

-- The fields of IpLockStatus that a query sets.
pub record LockStatus : Type 0 where
  pub lock_status : Bool
  pub lock_start_time : ℕ

-- A guint8 and two guint64.
pub record LockConf : Type 0 where
  pub lock_threshold : ℕ
  pub fail_interval : ℕ
  pub unlock_time : ℕ

-- The subtraction and the sum wrap in 64 bits.
unfoldable pub lock_status_of : LockConf → ℕ → List IpFailRecord → LockStatus
lock_status_of conf now records =
    let latest_time = latest_from 0 records in
    let exp_oldest_time = (latest_time + 2 ^ 64 - conf.fail_interval % 2 ^ 64) % 2 ^ 64 in
    let fail_cnt = fail_cnt_from exp_oldest_time 0 records in
    let valid_cnt = if ltb ((latest_time + conf.unlock_time) % 2 ^ 64) now then 0 else fail_cnt in
    record {
      lock_status =
          if not (conf.lock_threshold == 0) then leb conf.lock_threshold valid_cnt else false;
      lock_start_time = latest_time;
    }
