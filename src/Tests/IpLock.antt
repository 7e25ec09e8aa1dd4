-- ===== src/Tests/IpLock.antt =====
-- The lock on addresses.
use account.Base.{
  ◌+◌, ◌-◌, ◌≤◌, ◌≡◌, refl, ap, ◌∙◌, sym, ◌↔◌, ◌≢◌, inl, inr, Bool-cases, Bool, true, false, ◌||◌,
  ◌&&◌, not, none, some, List, [], ◌∷◌, arith, Bytes, length, if◌then◌else◌,
}
use mathlib.Core.Path.{subst}
use mathlib.Core.Option.{some-injective}
use account.Base.Int.{ℤ, pos}
use account.Clib.Text.{codes, str_eq, str_eq_iff, strchr, strrchr}
use account.IpLock.Address.{remove_port_from_ip}
use account.IpLock.Record.{
  IpFailRecord, LockConf, LockStatus, new_record, lock_status_of, latest_from,
}
use account.IpLock.Record.Window.{recent, IsLatest, lock_status_of_iff}
use account.IpLock.Store.{
  GHashTable, System, lock_conf, IpState, get_one_lock_status, get_all_lock_status,
  increase_fail_record, clean_fail_record, clean_all_fail_record,
}
use account.IpLock.Store.Invariant.{IsBounded}
use account.IpLock.Store.Lockout.{failures, failures-lock}
use account.IpLock.Store.WellFormed.{IsWellFormed, operations-IsWellFormed}

-- A set of strings as a list without repetition.
abbrev contains : List Bytes → Bytes → Bool
contains [] k = false
contains (x ∷ t) k = str_eq x k || contains t k

abbrev remove : List Bytes → Bytes → List Bytes
remove [] k = []
remove (x ∷ t) k = let rest = remove t k in if str_eq x k then rest else x ∷ rest

contains-remove :
    (t : List Bytes) (k l : Bytes) → contains (remove t k) l ≡ not (str_eq k l) && contains t l
contains-remove [] k l = ground arith
contains-remove (x ∷ t) k l =
    let rest = contains-remove t k l in
    let xk = str_eq_iff x k in
    let kl = str_eq_iff k l in
    elim (Bool-cases (str_eq x k)) [
      | inl e ↦ let same = ap (λ y. str_eq y l) (xk.0 e) in rw (e, same, rest) (ground arith)
      | inr f ↦ elim (Bool-cases (str_eq k l)) [
        | inl g ↦ let same = ap (λ y. str_eq x y) (sym (kl.0 g)) ∙ f in rw (f, rest, g, same) refl
        | inr h ↦ rw (f, rest, h) (ground arith)
      ]
    ]

length-remove : (t : List Bytes) (k : Bytes) → length (remove t k) ≤ length t
length-remove [] k = omega arith
length-remove (x ∷ t) k = let rest = length-remove t k in ground arith

abbrev glib : GHashTable
glib = record {
  Table = List Bytes;
  new = [];
  contains = contains;
  insert = (λ t k. k ∷ t);
  remove = remove;
  size = length;
  contains-new = (λ k. refl);
  contains-insert = (λ t k l. refl);
  contains-remove = contains-remove;
  size-new = refl;
  size-insert = (λ t k h. omega arith);
  size-remove = length-remove;
}

abbrev system : System
system = record {
  can_open = (λ name. true);
  ftruncate_errno = (λ name. none);
  short_write = (λ name. none);
  auth_lockout_conf = none;
}

abbrev empty : IpState glib
empty = record { ip_map = []; dir = [] }

abbrev conf : LockConf
conf = record { lock_threshold = 3; fail_interval = 300; unlock_time = 600 }

abbrev text : Bytes
text = codes "10.0.0.7:22"

abbrev ip : Bytes
ip = codes "10.0.0.7"

text-ip : remove_port_from_ip text ≡ some ip
unfolding remove_port_from_ip strchr strrchr
text-ip = refl

abbrev records : List IpFailRecord
records = new_record 1000 ∷ new_record 1100 ∷ new_record 1200 ∷ []

latest : (lock_status_of conf 1500 records).lock_start_time ≡ 1200
unfolding lock_status_of latest_from
latest = refl

lock_status_of_iff_example :
    IsLatest (lock_status_of conf 1500 records).lock_start_time records
    × (((lock_status_of conf 1500 records).lock_status ≡ true) ↔ (
        (300 ≤ (lock_status_of conf 1500 records).lock_start_time)
        × (conf.lock_threshold ≢ 0)
        × (3 ≤ recent ((lock_status_of conf 1500 records).lock_start_time - 300) records)
        × (1500 ≤ (lock_status_of conf 1500 records).lock_start_time + 600)))
lock_status_of_iff_example =
    lock_status_of_iff conf 1500 records (omega arith) (omega arith) (omega (arith, latest))

abbrev long_conf : LockConf
long_conf = record conf { fail_interval = 1201 }

latest_long : (lock_status_of long_conf 1500 records).lock_start_time ≡ 1200
unfolding lock_status_of latest_from
latest_long = refl

empty-IsWellFormed : IsWellFormed glib empty
empty-IsWellFormed = record { table_bound = omega arith; dir_bound = tt }

operations-IsWellFormed_example :
    IsWellFormed glib (increase_fail_record glib system 1000 true text empty).1
    × IsWellFormed glib (clean_fail_record glib text empty).1
    × IsWellFormed glib (clean_all_fail_record glib empty)
    × IsBounded (get_one_lock_status system conf 1000 text empty.dir).1
    × IsBounded (get_all_lock_status system conf 1000 empty.dir).1
operations-IsWellFormed_example =
    operations-IsWellFormed glib system 1000 true conf text empty empty-IsWellFormed

-- The configuration that check_if_locked asks for.
abbrev asking : System
asking = record system { auth_lockout_conf = some (pos 600, pos 3, pos 300) }

ip-itself : remove_port_from_ip ip ≡ some ip
unfolding remove_port_from_ip strchr
ip-itself = refl

asking-Counts :
    (c : ℤ × ℤ × ℤ)
    → asking.auth_lockout_conf ≡ some c
    → conf.lock_threshold ≤ (lock_conf c).lock_threshold
asking-Counts c e =
    let same = some-injective _ _ e in
    subst (λ x. 3 ≤ (lock_conf x).lock_threshold) same (omega arith)

failures-lock_example :
    (status : LockStatus) × ((get_one_lock_status asking conf 1500 text
        (failures glib asking text true
          (1000 ∷ 1100 ∷ 1200 ∷ [])
          (clean_fail_record glib text empty).1).dir).0
      ≡ some status)
    × (status.lock_status ≡ true)
failures-lock_example =
    failures-lock glib asking text true ip conf 1500 1000 1200 (1000 ∷ 1100 ∷ 1200 ∷ []) empty
      text-ip (refl, refl, refl) (inr (ip-itself, asking-Counts)) (omega arith) (λ e. omega arith)
      (omega arith) (omega arith) (ground arith) (omega arith) (omega arith) (omega arith)
      (omega arith)
