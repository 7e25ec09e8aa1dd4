-- ===== src/IpLock/Store/WellFormed.antt =====
-- What every operation of the lock keeps.
use mathlib.Core.List.{map}
use account.Base.{
  ℕ, ◌≤◌, Bool, true, false, not, Option, none, some, List, [], ◌∷◌, inl, inr, arith, if◌then◌else◌,
  Bytes, Bool-cases,
}
use account.Status.{Ret, ok, err, is_ok}
use account.IpLock.Address.{remove_port_from_ip}
use account.IpLock.Record.{LockConf}
use account.IpLock.Store.{
  GHashTable, Dir, System, get_one_lock_status, check_if_locked, add_failure, get_all_lock_status,
  max_ip_record_cnt, IpState, check_if_increase_record_cnt, increase_clean, increase_fail_record,
  clean_clean, clean_fail_record, clean_names, clean_all_fail_record,
}
use account.IpLock.Store.Invariant.{
  IsBounded, delete-IsBounded, get_one-IsBounded, check_if_locked-IsBounded, add_failure-IsBounded,
  lock_statuses-IsBounded,
}

module _ (glib : GHashTable) where
  -- The table has at most 1000 addresses, and no file more than 100 records.
  pub record IsWellFormed (s : IpState glib) : Type 0 where
    pub table_bound : glib.size s.ip_map ≤ max_ip_record_cnt
    pub dir_bound : IsBounded s.dir

  table-bound :
      (ip : Bytes) (t : glib.Table)
      → glib.size t ≤ max_ip_record_cnt
      → glib.size (check_if_increase_record_cnt glib ip t).1 ≤ max_ip_record_cnt
  unfolding check_if_increase_record_cnt
  table-bound ip t h =
      let grown = glib.size-insert t ip in
      elim (Bool-cases (glib.contains t ip)) [
        | inl e ↦ rw e h
        | inr e ↦ let n = grown e in rw e (ground arith)
      ]

  chosen :
      (b c : Bool) (t : glib.Table) (r : Ret) (d e f : Dir)
      → glib.size t ≤ max_ip_record_cnt
      → IsBounded d
      → IsBounded e
      → IsBounded f
      → IsWellFormed
          (if◌then◌else◌ {A = Ret × IpState glib} b
            (err, record { ip_map = t; dir = d })
            (if◌then◌else◌ {A = Ret × IpState glib} c
              (ok, record { ip_map = t; dir = e })
              (r, record { ip_map = t; dir = f }))).1
  chosen true c t r d e f h hd he hf = record { table_bound = h; dir_bound = hd }
  chosen false true t r d e f h hd he hf = record { table_bound = h; dir_bound = he }
  chosen false false t r d e f h hd he hf = record { table_bound = h; dir_bound = hf }

  increase_clean-IsWellFormed :
      (system : System) (now : ℕ) (do_check : Bool) (s : IpState glib) (o : Option Bytes)
      → IsWellFormed s
      → IsWellFormed (increase_clean glib system now do_check s o).1
  increase_clean-IsWellFormed system now do_check s none w = w
  increase_clean-IsWellFormed system now true s (some ip) w =
      let d = check_if_locked system now ip s.dir in
      let bound = check_if_locked-IsBounded system now ip s.dir w.dir_bound in
      chosen (not (is_ok (check_if_increase_record_cnt glib ip s.ip_map).0)) d.0
        (check_if_increase_record_cnt glib ip s.ip_map).1 (add_failure system now ip d.1).0 s.dir
        d.1 (add_failure system now ip d.1).1 (table-bound ip s.ip_map w.table_bound) w.dir_bound
        bound (add_failure-IsBounded system now ip d.1 bound)
  increase_clean-IsWellFormed system now false s (some ip) w =
      chosen (not (is_ok (check_if_increase_record_cnt glib ip s.ip_map).0)) false
        (check_if_increase_record_cnt glib ip s.ip_map).1 (add_failure system now ip s.dir).0 s.dir
        s.dir (add_failure system now ip s.dir).1 (table-bound ip s.ip_map w.table_bound)
        w.dir_bound w.dir_bound (add_failure-IsBounded system now ip s.dir w.dir_bound)

  clean-IsWellFormed :
      (ip : Bytes) (s : IpState glib)
      → IsWellFormed s
      → IsWellFormed (clean_fail_record glib ip s).1
  unfolding clean_fail_record
  clean-IsWellFormed ip s w = cleaned (remove_port_from_ip ip)
    where
      cleaned : (o : Option Bytes) → IsWellFormed (clean_clean glib s o).1
      cleaned none = w
      cleaned (some c) = record {
        table_bound =
            (let smaller = glib.size-remove s.ip_map c in let h = w.table_bound in omega arith);
        dir_bound = delete-IsBounded c s.dir w.dir_bound;
      }

  clean_names-IsWellFormed :
      (names : List Bytes) (s : IpState glib)
      → IsWellFormed s
      → IsWellFormed (clean_names glib names s)
  unfolding clean_names
  clean_names-IsWellFormed [] s w = w
  clean_names-IsWellFormed (name ∷ names) s w =
      clean_names-IsWellFormed names (clean_fail_record glib name s).1 (clean-IsWellFormed name s w)

  -- Every operation keeps the bounds, whatever the system answers: a failure, a reset of one address
  -- or of all, and the queries of one status or of all, which may leave files behind.
  pub operations-IsWellFormed :
      (system : System) (now : ℕ) (do_check : Bool) (conf : LockConf) (ip : Bytes)
      (s : IpState glib)
      → IsWellFormed s
      → IsWellFormed (increase_fail_record glib system now do_check ip s).1
        × IsWellFormed (clean_fail_record glib ip s).1
        × IsWellFormed (clean_all_fail_record glib s)
        × IsBounded (get_one_lock_status system conf now ip s.dir).1
        × IsBounded (get_all_lock_status system conf now s.dir).1
  unfolding increase_fail_record clean_all_fail_record get_all_lock_status
  operations-IsWellFormed system now do_check conf ip s w = (
    increase_clean-IsWellFormed system now do_check s (remove_port_from_ip ip) w,
    clean-IsWellFormed ip s w,
    clean_names-IsWellFormed (map (λ e. e.0) s.dir) s w,
    get_one-IsBounded system conf now ip s.dir w.dir_bound,
    lock_statuses-IsBounded system conf now (map (λ e. e.0) s.dir) s.dir w.dir_bound,
  )
