-- ===== src/IpLock/Store/Invariant.antt =====
-- No operation makes a record file of more than 100 records.
use account.Base.{
  ℕ, ◌/◌, ◌≤◌, Bool, true, false, Option, none, some, List, [], ◌∷◌, arith, ltb, if◌then◌else◌,
  Bytes, length, take, length-take, All,
}
use account.Base.Int.{ℤ}
use account.IpLock.Address.{remove_port_from_ip}
use account.IpLock.Record.{
  file_size, IpFailRecord, RecordFile, empty_file, LockConf, LockStatus, read_ip_fail_record,
  update_record,
}
use account.IpLock.Record.Update.{update_record-bound}
use account.IpLock.Store.{
  Dir, find, put, delete, System, open_ip_fail_record, status_of_opened, status_of_clean, locked_by,
  add_to_read, get_one_lock_status, check_if_locked, rewrite, add_to_opened, add_failure, Statuses,
  collect, lock_statuses, lock_conf,
}

-- No file has more than 100 records.
abbrev pub Short : RecordFile → Type 0
Short f = length f.records ≤ 100

abbrev pub IsBounded : Dir → Type 0
IsBounded d = All (λ e. Short e.1) d

pub put-IsBounded :
    (name : Bytes) (f : RecordFile) (d : Dir) → Short f → IsBounded d → IsBounded (put name f d)
put-IsBounded name f [] h g = (h, tt)
put-IsBounded name f ((n, e) ∷ d) h g = let rest = put-IsBounded name f d h g.1 in ground arith

pub delete-IsBounded : (name : Bytes) (d : Dir) → IsBounded d → IsBounded (delete name d)
delete-IsBounded name [] g = tt
delete-IsBounded name ((n, e) ∷ d) g = let rest = delete-IsBounded name d g.1 in ground arith

read-kept : (f : RecordFile) → Short f → Short (read_ip_fail_record f).1
unfolding read_ip_fail_record
read-kept f h = ground arith

-- What an operation may have found is short.
abbrev Holds : Option RecordFile → Type 0
Holds none = Unit
Holds (some f) = Short f

find-Short : (name : Bytes) (d : Dir) → IsBounded d → Holds (find name d)
find-Short name [] g = tt
find-Short name ((n, e) ∷ d) g = let later = find-Short name d g.1 in ground arith

abbrev AreShort : Option (List IpFailRecord) → Type 0
AreShort none = Unit
AreShort (some rs) = length rs ≤ 100

take-short : (n : ℕ) (rs : List IpFailRecord) → n ≤ 100 → length (take n rs) ≤ 100
take-short n rs h = omega (arith, length-take n rs)

capped : (n : ℕ) → (if ltb 7200 n then 7200 else n) / 72 ≤ 100
capped n = ground arith

split :
    (b : Bool) (rs : List IpFailRecord) (f g : RecordFile)
    → length rs ≤ 100
    → AreShort
        (if◌then◌else◌ {A = Option (List IpFailRecord) × RecordFile} b (none, f) (some rs, g)).0
split true rs f g h = tt
split false rs f g h = h

read-AreShort : (f : RecordFile) → AreShort (read_ip_fail_record f).0
unfolding read_ip_fail_record
read-AreShort f = split _ _ _ _ (take-short _ f.records (capped (file_size f)))

abbrev Opened : Option (RecordFile × Dir) → Type 0
Opened none = Unit
Opened (some (f, d)) = Short f × IsBounded d

module _ (system : System) where
  open-Opened : (ip : Bytes) (d : Dir) → IsBounded d → Opened (open_ip_fail_record system ip d)
  unfolding open_ip_fail_record
  open-Opened ip d g =
      let made = put-IsBounded ip empty_file d (omega arith) g in
      let found = find-Short ip d g in ground arith

  status-IsBounded :
      (conf : LockConf) (now : ℕ) (ip : Bytes) (d : Dir) (o : Option (RecordFile × Dir))
      → IsBounded d
      → Opened o
      → IsBounded (status_of_opened system conf now ip d o).1
  status-IsBounded conf now ip d none g h = g
  status-IsBounded conf now ip d (some (f, d')) g h =
      put-IsBounded ip (read_ip_fail_record f).1 d' (read-kept f h.0) h.1

  clean-IsBounded :
      (conf : LockConf) (now : ℕ) (d : Dir) (o : Option Bytes)
      → IsBounded d
      → IsBounded (status_of_clean system conf now d o).1
  clean-IsBounded conf now d none g = g
  clean-IsBounded conf now d (some ip) g =
      status-IsBounded conf now ip d (open_ip_fail_record system ip d) g (open-Opened ip d g)

  pub get_one-IsBounded :
      (conf : LockConf) (now : ℕ) (ip : Bytes) (d : Dir)
      → IsBounded d
      → IsBounded (get_one_lock_status system conf now ip d).1
  unfolding get_one_lock_status
  get_one-IsBounded conf now ip d g = clean-IsBounded conf now d (remove_port_from_ip ip) g

  pub check_if_locked-IsBounded :
      (now : ℕ) (ip : Bytes) (d : Dir) → IsBounded d → IsBounded (check_if_locked system now ip d).1
  unfolding check_if_locked
  check_if_locked-IsBounded now ip d g = by_conf system.auth_lockout_conf
    where
      by_conf : (c : Option (ℤ × ℤ × ℤ)) → IsBounded (locked_by system now ip d c).1
      by_conf none = g
      by_conf (some c) = get_one-IsBounded (lock_conf c) now ip d g

  rewrite-IsBounded :
      (ip : Bytes) (records : List IpFailRecord) (d : Dir) (t w : Option ℕ)
      → length records ≤ 100
      → IsBounded d
      → IsBounded (rewrite system ip records d t w).1
  rewrite-IsBounded ip records d (some e) w l g = g
  rewrite-IsBounded ip records d none none l g = put-IsBounded ip _ d l g
  rewrite-IsBounded ip records d none (some n) l g =
      put-IsBounded ip (record { records = take n records; extra = 0 }) d
        (omega (arith, length-take n records)) g

  read-IsBounded :
      (now : ℕ) (ip : Bytes) (d : Dir) (o : Option (List IpFailRecord))
      → AreShort o
      → IsBounded d
      → IsBounded (add_to_read system now ip d o).1
  read-IsBounded now ip d none l g = g
  read-IsBounded now ip d (some records) l g =
      rewrite-IsBounded ip (update_record now records) d _ _ (update_record-bound now records l) g

  add_to_opened-IsBounded :
      (now : ℕ) (ip : Bytes) (d : Dir) (o : Option (RecordFile × Dir))
      → IsBounded d
      → Opened o
      → IsBounded (add_to_opened system now ip d o).1
  add_to_opened-IsBounded now ip d none g h = g
  add_to_opened-IsBounded now ip d (some (f, d')) g h =
      read-IsBounded now ip _ (read_ip_fail_record f).0 (read-AreShort f)
        (put-IsBounded ip (read_ip_fail_record f).1 d' (read-kept f h.0) h.1)

  pub add_failure-IsBounded :
      (now : ℕ) (ip : Bytes) (d : Dir) → IsBounded d → IsBounded (add_failure system now ip d).1
  unfolding add_failure
  add_failure-IsBounded now ip d g =
      add_to_opened-IsBounded now ip d (open_ip_fail_record system ip d) g (open-Opened ip d g)

  pub lock_statuses-IsBounded :
      (conf : LockConf) (now : ℕ) (names : List Bytes) (d : Dir)
      → IsBounded d
      → IsBounded (lock_statuses system conf now names d).1
  unfolding lock_statuses
  lock_statuses-IsBounded conf now [] d g = g
  lock_statuses-IsBounded conf now (name ∷ names) d g =
      let h = get_one-IsBounded conf now name d g in
      let later =
        lock_statuses-IsBounded conf now names (get_one_lock_status system conf now name d).1 h in
      either (ltb (length name) 64) _ _
        (collected name (get_one_lock_status system conf now name d) _ h later) g
    where
      either :
          (b : Bool) (x y : Statuses system)
          → IsBounded x.1
          → IsBounded y.1
          → IsBounded (if◌then◌else◌ {A = Statuses system} b x y).1
      either true x y hx hy = hx
      either false x y hx hy = hy

      collected :
          (ip : Bytes) (r : Option LockStatus × Dir) (others : Statuses system)
          → IsBounded r.1
          → IsBounded others.1
          → IsBounded (collect system ip r others).1
      collected ip (none, d') others hr ho = hr
      collected ip (some s, d') (none, e) hr ho = ho
      collected ip (some s, d') (some rest, e) hr ho = ho
