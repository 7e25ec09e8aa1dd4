-- ===== src/IpLock/Store/Checked.antt =====
-- A failure that increase_fail_record of libiam/lualib-src/iam_core/ip_lock/ip_lock.c records with
-- DO_CHECK: what check_if_locked leaves, and when a failure is not recorded.
use account.Base.{
  ℕ, ◌≤◌, ◌≡◌, refl, ap, ◌∙◌, Bool, true, false, ◌⊎◌, inl, inr, none, some, List, Option, arith,
  Bytes, length, Bool-cases, ◌+◌, ◌-◌, ◌%◌, ◌^◌,
}
use account.Base.Int.{ℤ}
use account.Status.{ok}
use account.IpLock.Address.{remove_port_from_ip}
use account.IpLock.Record.{IpFailRecord, LockConf, update_record, lock_status_of, latest_from}
use account.IpLock.Record.Window.{recent-length, fail_cnt_from-recent}
use account.IpLock.Store.{
  GHashTable, Dir, put, System, lock_conf, locked_by, status_of_clean, status_of_opened,
  status_of_read, get_one_lock_status, check_if_locked, add_failure, IpState,
  check_if_increase_record_cnt, increase_clean, increase_fail_record,
}
use account.IpLock.Store.Locking.{
  find-put, read-whole, whole, Writes, Holds, open-Holds, add_failure-Holds, Room, room,
  increase_fail_record-Holds,
}

-- A lock needs as many records as the threshold.
locked-length :
    (conf : LockConf) (now : ℕ) (rs : List IpFailRecord)
    → length rs ≤ 100
    → (lock_status_of conf now rs).lock_status ≡ true
    → conf.lock_threshold ≤ length rs
unfolding lock_status_of
locked-length conf now rs l h =
    let l0 = latest_from 0 rs in
    let t = (l0 + 2 ^ 64 - conf.fail_interval % 2 ^ 64) % 2 ^ 64 in
    let cnt = fail_cnt_from-recent t 0 rs (omega arith) in
    let few = recent-length t rs in ground arith

module _ (system : System) (conf : LockConf) where
  -- What a check needs so as not to hold back a failure that is to count: the address names itself, and
  -- the configured threshold, where it can be asked for, is no lower than that of `conf`.
  abbrev pub Counts : Bool → Bytes → Type 0
  Counts is_check_lock ip =
      (is_check_lock ≡ false)
      ⊎ ((remove_port_from_ip ip ≡ some ip)
          × ((c : ℤ × ℤ × ℤ)
              → system.auth_lockout_conf ≡ some c
              → conf.lock_threshold ≤ (lock_conf c).lock_threshold))

  get_one-leaves :
      (c : LockConf) (now : ℕ) (ip : Bytes) (d : Dir) (rs : List IpFailRecord)
      → remove_port_from_ip ip ≡ some ip
      → system.can_open ip ≡ true
      → length rs ≤ 100
      → Holds system ip d rs
      → (d' : Dir) × (get_one_lock_status system c now ip d
          ≡ (some (lock_status_of c now rs), put ip (whole rs) d'))
  unfolding get_one_lock_status
  get_one-leaves c now ip d rs self o l h =
      let (d', e) = open-Holds system ip d rs o h in
      (
        d',
        ap (status_of_clean system c now d) self
            ∙ ap (status_of_opened system c now ip d) e
            ∙ ap (λ r. (status_of_read system c now r.0, put ip r.1 d')) (read-whole rs l),
      )

  -- The records of the address, and that there are enough of them where it is locked.
  abbrev Keeps : Bytes → List IpFailRecord → Bool × Dir → Type 0
  Keeps ip rs r = Holds system ip r.1 rs × (r.0 ≡ true → conf.lock_threshold ≤ length rs)

  locked_by-Keeps :
      (now : ℕ) (ip : Bytes) (d : Dir) (rs : List IpFailRecord) (asked : Option (ℤ × ℤ × ℤ))
      → remove_port_from_ip ip ≡ some ip
      → ((c : ℤ × ℤ × ℤ) → asked ≡ some c → conf.lock_threshold ≤ (lock_conf c).lock_threshold)
      → system.can_open ip ≡ true
      → length rs ≤ 100
      → Holds system ip d rs
      → Keeps ip rs (locked_by system now ip d asked)
  locked_by-Keeps now ip d rs none self high o l h = (h, λ n. cc)
  locked_by-Keeps now ip d rs (some c) self high o l h =
      let (d', e) = get_one-leaves (lock_conf c) now ip d rs self o l h in
      let bound = high c refl in
      rw e (
        inl (find-put ip (whole rs) d'),
        λ locked. let enough = locked-length (lock_conf c) now rs l locked in omega arith,
      )

  check_if_locked-Keeps :
      (now : ℕ) (ip : Bytes) (d : Dir) (rs : List IpFailRecord)
      → remove_port_from_ip ip ≡ some ip
      → ((c : ℤ × ℤ × ℤ)
          → system.auth_lockout_conf ≡ some c
          → conf.lock_threshold ≤ (lock_conf c).lock_threshold)
      → system.can_open ip ≡ true
      → length rs ≤ 100
      → Holds system ip d rs
      → Keeps ip rs (check_if_locked system now ip d)
  unfolding check_if_locked
  check_if_locked-Keeps now ip d rs = locked_by-Keeps now ip d rs system.auth_lockout_conf

  module _ (glib : GHashTable) where
    -- The failure is recorded, or there are enough of them.
    abbrev pub Recorded : ℕ → Bytes → List IpFailRecord → IpState glib → Type 0
    Recorded now ip rs s =
        Room glib ip s
        × (Holds system ip s.dir (update_record now rs)
            ⊎ (Holds system ip s.dir rs × (conf.lock_threshold ≤ length rs)))

    increase_checked-Recorded :
        (now : ℕ) (text ip : Bytes) (s : IpState glib) (rs : List IpFailRecord)
        → remove_port_from_ip text ≡ some ip
        → Writes system ip
        → Room glib ip s
        → length rs ≤ 100
        → Keeps ip rs (check_if_locked system now ip s.dir)
        → Recorded now ip rs (increase_fail_record glib system now true text s).1
    unfolding increase_fail_record
    increase_checked-Recorded now text ip s rs c w r l (kept, enough) =
        let (fine, known) = room glib ip s.ip_map r in
        let checked = check_if_locked system now ip s.dir in
        let start = ap (increase_clean glib system now true s) c in
        elim (Bool-cases checked.0) [
          | inl locked ↦
              let steps : increase_clean glib system now true s (some ip) ≡ (
                ok,
                record {
                  ip_map = (check_if_increase_record_cnt glib ip s.ip_map).1;
                  dir = checked.1;
                },
              ) =
                rw (fine, locked) refl in
              rw (start ∙ steps) (inl known, inr (kept, enough locked))
          | inr open_still ↦
              let (added, holds) = add_failure-Holds system now ip checked.1 rs w l kept in
              let steps : increase_clean glib system now true s (some ip) ≡ (
                ok,
                record {
                  ip_map = (check_if_increase_record_cnt glib ip s.ip_map).1;
                  dir = (add_failure system now ip checked.1).1;
                },
              ) =
                rw (fine, open_still, added) refl in
              rw (start ∙ steps) (inl known, inl (inl holds))
        ]

    pub increase_fail_record-Recorded :
        (is_check_lock : Bool) (now : ℕ) (text ip : Bytes) (s : IpState glib)
        (rs : List IpFailRecord)
        → remove_port_from_ip text ≡ some ip
        → Writes system ip
        → Counts is_check_lock ip
        → Room glib ip s
        → length rs ≤ 100
        → Holds system ip s.dir rs
        → Recorded now ip rs (increase_fail_record glib system now is_check_lock text s).1
    increase_fail_record-Recorded false now text ip s rs c w k r l h =
        let (fine, holds, has_room) =
          increase_fail_record-Holds glib system now text ip s rs c w r l h in
        (has_room, inl holds)
    increase_fail_record-Recorded true now text ip s rs c w (inl e) r l h = cc
    increase_fail_record-Recorded true now text ip s rs c w (inr (self, high)) r l h =
        increase_checked-Recorded now text ip s rs c w r l
          (check_if_locked-Keeps now ip s.dir rs self high w.0 l h)
