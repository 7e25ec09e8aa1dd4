-- ===== src/IpLock/Store.antt =====
-- The operations of libiam/lualib-src/iam_core/ip_lock/ip_lock.c on the table of addresses and the
-- directory of record files. The hash table of GLib and what the system answers are parameters; a
-- call sees one value of the clock.
pub mod Invariant
pub mod WellFormed
pub mod Locking
pub mod Checked
pub mod Lockout
use mathlib.Core.List.{List, map}
use account.Base.{
  ℕ, ◌+◌, ◌^◌, ◌≤◌, ◌≡◌, Bool, true, false, ◌&&◌, ◌||◌, not, Option, none, some, [], ◌∷◌, ltb, leb,
  ◌==◌, if◌then◌else◌, Bytes, length, take,
}
use account.Base.Int.{ℤ, wrap}
use account.Clib.Bounded.{strcpy_s}
use account.Clib.Text.{str_eq}
use account.Status.{Ret, ok, err, code, is_ok}
use account.IpLock.Address.{remove_port_from_ip}
use account.IpLock.Record.{
  IpFailRecord, RecordFile, empty_file, LockStatus, LockConf, read_ip_fail_record, update_record,
  lock_status_of,
}

-- GHashTable used as a set of strings.
pub record GHashTable : Type 1 where
  pub Table : Type 0
  pub new : Table
  pub contains : Table → Bytes → Bool
  pub insert : Table → Bytes → Table
  pub remove : Table → Bytes → Table
  pub size : Table → ℕ
  pub contains-new : (k : Bytes) → contains new k ≡ false
  pub contains-insert :
      (t : Table) (k l : Bytes) → contains (insert t k) l ≡ str_eq k l || contains t l
  pub contains-remove :
      (t : Table) (k l : Bytes) → contains (remove t k) l ≡ not (str_eq k l) && contains t l
  pub size-new : size new ≡ 0
  pub size-insert : (t : Table) (k : Bytes) → contains t k ≡ false → size (insert t k) ≡ size t + 1
  pub size-remove : (t : Table) (k : Bytes) → size (remove t k) ≤ size t

-- The record files of the directory, by name, in the order in which `readdir` lists them.
abbrev pub Dir : Type 0
Dir = List (Bytes × RecordFile)

abbrev pub find : Bytes → Dir → Option RecordFile
find name [] = none
find name ((n, f) ∷ d) = if str_eq n name then some f else find name d

-- The file gets these contents; a new file is listed last.
abbrev pub put : Bytes → RecordFile → Dir → Dir
put name f [] = (name, f) ∷ []
put name f ((n, g) ∷ d) =
    let rest = put name f d in if str_eq n name then (n, f) ∷ d else (n, g) ∷ rest

-- remove(path)
abbrev pub delete : Bytes → Dir → Dir
delete name [] = []
delete name ((n, g) ∷ d) = let rest = delete name d in if str_eq n name then rest else (n, g) ∷ rest

-- What the system answers: whether the directory and the file can be opened, the errno of a failing
-- ftruncate, the number of records of an incomplete fwrite, the configuration of the lockout
-- (duration, threshold, interval).
pub record System : Type 0 where
  pub can_open : Bytes → Bool
  pub ftruncate_errno : Bytes → Option ℕ
  pub short_write : Bytes → Option ℕ
  pub auth_lockout_conf : Option (ℤ × ℤ × ℤ)

-- The two guint64 and the guint8 that `check_if_locked` makes of the configuration.
abbrev pub lock_conf : ℤ × ℤ × ℤ → LockConf
lock_conf (duration, threshold, time_interval) = record {
  lock_threshold = wrap 256 threshold;
  fail_interval = wrap (2 ^ 64) time_interval;
  unlock_time = wrap (2 ^ 64) duration;
}

-- MAX_IP_RECORD_CNT
abbrev pub max_ip_record_cnt : ℕ
max_ip_record_cnt = 1000

module _ (system : System) where
  -- Mode "a+": the file is made if it is not there.
  unfoldable pub open_ip_fail_record : Bytes → Dir → Option (RecordFile × Dir)
  open_ip_fail_record ip d =
      if system.can_open ip
      then elim (find ip d) [ none ↦ some (empty_file, put ip empty_file d) | some f ↦ some (f, d) ]
      else none

  abbrev pub status_of_read : LockConf → ℕ → Option (List IpFailRecord) → Option LockStatus
  status_of_read conf now none = none
  status_of_read conf now (some records) = some (lock_status_of conf now records)

  abbrev pub status_of_opened :
      LockConf → ℕ → Bytes → Dir → Option (RecordFile × Dir) → Option LockStatus × Dir
  status_of_opened conf now ip d none = (none, d)
  status_of_opened conf now ip d (some (f, d')) =
      let r = read_ip_fail_record f in (status_of_read conf now r.0, put ip r.1 d')

  abbrev pub status_of_clean : LockConf → ℕ → Dir → Option Bytes → Option LockStatus × Dir
  status_of_clean conf now d none = (none, d)
  status_of_clean conf now d (some clean_ip) =
      status_of_opened conf now clean_ip d (open_ip_fail_record clean_ip d)

  -- The status, if there is one, and the directory, where the query leaves a file.
  unfoldable pub get_one_lock_status : LockConf → ℕ → Bytes → Dir → Option LockStatus × Dir
  get_one_lock_status conf now ip d = status_of_clean conf now d (remove_port_from_ip ip)

  abbrev pub locked : Option LockStatus → Bool
  locked none = false
  locked (some s) = s.lock_status

  abbrev pub locked_by : ℕ → Bytes → Dir → Option (ℤ × ℤ × ℤ) → Bool × Dir
  locked_by now ip d none = (false, d)
  locked_by now ip d (some conf) =
      let r = get_one_lock_status (lock_conf conf) now ip d in (locked r.0, r.1)

  -- A failure to ask does not lock.
  unfoldable pub check_if_locked : ℕ → Bytes → Dir → Bool × Dir
  check_if_locked now ip d = locked_by now ip d system.auth_lockout_conf

  abbrev pub rewrite : Bytes → List IpFailRecord → Dir → Option ℕ → Option ℕ → Ret × Dir
  rewrite ip records d (some errno) _ = (code errno, d)
  rewrite ip records d none none = (ok, put ip (record { records = records; extra = 0 }) d)
  rewrite ip records d none (some n) =
      (err, put ip (record { records = take n records; extra = 0 }) d)

  abbrev pub add_to_read : ℕ → Bytes → Dir → Option (List IpFailRecord) → Ret × Dir
  add_to_read now ip d none = (err, d)
  add_to_read now ip d (some records) =
      rewrite ip (update_record now records) d (system.ftruncate_errno ip) (system.short_write ip)

  abbrev pub add_to_opened : ℕ → Bytes → Dir → Option (RecordFile × Dir) → Ret × Dir
  add_to_opened now ip d none = (err, d)
  add_to_opened now ip d (some (f, d')) =
      let r = read_ip_fail_record f in add_to_read now ip (put ip r.1 d') r.0

  -- The loop body of increase_fail_record on the record file.
  unfoldable pub add_failure : ℕ → Bytes → Dir → Ret × Dir
  add_failure now ip d = add_to_opened now ip d (open_ip_fail_record ip d)

  abbrev pub Statuses : Type 0
  Statuses = Option (List (Bytes × LockStatus)) × Dir

  abbrev pub cons_status : Bytes → LockStatus → Statuses → Statuses
  cons_status ip s (none, d) = (none, d)
  cons_status ip s (some rest, d) = (some ((ip, s) ∷ rest), d)

  abbrev pub collect : Bytes → Option LockStatus × Dir → Statuses → Statuses
  collect ip (none, d) others = (none, d)
  collect ip (some s, d) others = cons_status ip s others

  -- Until a query fails: the statuses by name.
  unfoldable pub lock_statuses : LockConf → ℕ → List Bytes → Dir → Statuses
  lock_statuses conf now [] d = (some [], d)
  lock_statuses conf now (name ∷ names) d =
      let r = get_one_lock_status conf now name d in
      let others = lock_statuses conf now names r.1 in
      if ltb (length name) 64 then collect name r others else (none, d)

  unfoldable pub get_all_lock_status : LockConf → ℕ → Dir → Statuses
  get_all_lock_status conf now d = lock_statuses conf now (map (λ e. e.0) d) d

module _ (glib : GHashTable) where
  -- g_ip_map, which is made at its first use, and the directory.
  pub record IpState : Type 0 where
    pub ip_map : glib.Table
    pub dir : Dir

  unfoldable pub check_if_increase_record_cnt : Bytes → glib.Table → Ret × glib.Table
  check_if_increase_record_cnt ip t =
      if glib.contains t ip
      then (ok, t)
      else if leb max_ip_record_cnt (glib.size t)
      then (err, t)
      else (ok, glib.insert t ip)

  abbrev pub increase_clean : System → ℕ → Bool → IpState → Option Bytes → Ret × IpState
  increase_clean system now do_check s none = (err, s)
  increase_clean system now do_check s (some clean_ip) =
      let (room, t) = check_if_increase_record_cnt clean_ip s.ip_map in
      let checked =
        if do_check then check_if_locked system now clean_ip s.dir else (false, s.dir) in
      let (result, d) = add_failure system now clean_ip checked.1 in
      if not (is_ok room)
      then (err, record { ip_map = t; dir = s.dir })
      else if checked.0
      then (ok, record { ip_map = t; dir = checked.1 })
      else (result, record { ip_map = t; dir = d })

  unfoldable pub increase_fail_record : System → ℕ → Bool → Bytes → IpState → Ret × IpState
  increase_fail_record system now do_check ip s =
      increase_clean system now do_check s (remove_port_from_ip ip)

  abbrev pub clean_clean : IpState → Option Bytes → Ret × IpState
  clean_clean s none = (err, s)
  clean_clean s (some clean_ip) =
      (ok, record { ip_map = glib.remove s.ip_map clean_ip; dir = delete clean_ip s.dir })

  unfoldable pub clean_fail_record : Bytes → IpState → Ret × IpState
  clean_fail_record ip s = clean_clean s (remove_port_from_ip ip)

  unfoldable pub clean_names : List Bytes → IpState → IpState
  clean_names [] s = s
  clean_names (name ∷ names) s = clean_names names (clean_fail_record name s).1

  -- The listing is the one at the call.
  unfoldable pub clean_all_fail_record : IpState → IpState
  clean_all_fail_record s = clean_names (map (λ e. e.0) s.dir) s
