-- ===== src/IpLock/Store/Locking.antt =====
-- Failures lock an address, and a reset unlocks it.
use account.Base.{
  ℕ, zero, suc, ◌+◌, ◌*◌, ◌/◌, ◌%◌, ◌≤◌, ◌<◌, ◌≡◌, refl, sym, ap, ◌∙◌, true, false, ◌⊎◌, inl, inr,
  none, some, List, [], ◌∷◌, arith, ltb, ◌==◌, Bytes, length, take, Bool-cases,
}
use account.Clib.Text.{str_eq, str_eq_iff}
use account.Status.{ok}
use account.IpLock.Address.{remove_port_from_ip}
use account.IpLock.Record.{
  IpFailRecord, RecordFile, empty_file, LockConf, read_ip_fail_record, update_record,
  lock_status_of, latest_from, fail_cnt_from,
}
use account.IpLock.Store.{
  GHashTable, Dir, find, put, delete, System, open_ip_fail_record, status_of_opened,
  status_of_clean, status_of_read, get_one_lock_status, add_to_read, add_to_opened, add_failure,
  max_ip_record_cnt, IpState, check_if_increase_record_cnt, increase_clean, increase_fail_record,
  clean_clean, clean_fail_record,
}

str_eq_refl : (s : Bytes) → str_eq s s ≡ true
str_eq_refl s = (str_eq_iff s s).1 refl

pub find-put : (name : Bytes) (f : RecordFile) (d : Dir) → find name (put name f d) ≡ some f
find-put name f [] = rw (str_eq_refl name) refl
find-put name f ((n, e) ∷ d) = let later = find-put name f d in ground arith

find-delete : (name : Bytes) (d : Dir) → find name (delete name d) ≡ none
find-delete name [] = refl
find-delete name ((n, e) ∷ d) = let later = find-delete name d in ground arith

take_all : (rs : List IpFailRecord) (n : ℕ) → n ≡ length rs → take n rs ≡ rs
take_all [] zero h = refl
take_all [] (suc n) h = refl
take_all (r ∷ rs) zero h = absurd (omega arith)
take_all (r ∷ rs) (suc n) h = ap (◌∷◌ r) (take_all rs n (omega arith))

abbrev pub whole : List IpFailRecord → RecordFile
whole rs = record { records = rs; extra = 0 }

-- A file as this program writes it is read back.
pub read-whole :
    (rs : List IpFailRecord)
    → length rs ≤ 100
    → read_ip_fail_record (whole rs) ≡ (some rs, whole rs)
unfolding read_ip_fail_record
read-whole rs h =
    let fits : ltb 7200 (length rs * 72 + 0) ≡ false = ground arith in
    let exact : ((length rs * 72 + 0) % 72 == 0) ≡ true = ground arith in
    rw (fits, exact, take_all rs ((length rs * 72 + 0) / 72) (omega arith)) refl

module _ (system : System) where
  open-found :
      (ip : Bytes) (d : Dir) (f : RecordFile)
      → system.can_open ip ≡ true
      → find ip d ≡ some f
      → open_ip_fail_record system ip d ≡ some (f, d)
  unfolding open_ip_fail_record
  open-found ip d f o e = rw (o, e) refl

  open-new :
      (ip : Bytes) (d : Dir)
      → system.can_open ip ≡ true
      → find ip d ≡ none
      → open_ip_fail_record system ip d ≡ some (empty_file, put ip empty_file d)
  unfolding open_ip_fail_record
  open-new ip d o e = rw (o, e) refl

  -- The writes succeed.
  abbrev pub Writes : Bytes → Type 0
  Writes ip =
      (system.can_open ip ≡ true)
      × (system.ftruncate_errno ip ≡ none)
      × (system.short_write ip ≡ none)

  -- The records that the next failure sees.
  abbrev pub Holds : Bytes → Dir → List IpFailRecord → Type 0
  Holds ip d rs = (find ip d ≡ some (whole rs)) ⊎ ((find ip d ≡ none) × (rs ≡ []))

  pub open-Holds :
      (ip : Bytes) (d : Dir) (rs : List IpFailRecord)
      → system.can_open ip ≡ true
      → Holds ip d rs
      → (d' : Dir) × (open_ip_fail_record system ip d ≡ some (whole rs, d'))
  open-Holds ip d rs o (inl e) = (d, open-found ip d (whole rs) o e)
  open-Holds ip d rs o (inr (e, n)) = (
    put ip empty_file d,
    open-new ip d o e ∙ ap (λ r. some (whole r, put ip empty_file d)) (sym n),
  )

  -- A failure on a file of this program.
  pub add_failure-Holds :
      (now : ℕ) (ip : Bytes) (d : Dir) (rs : List IpFailRecord)
      → Writes ip
      → length rs ≤ 100
      → Holds ip d rs
      → ((add_failure system now ip d).0 ≡ ok)
        × (find ip (add_failure system now ip d).1 ≡ some (whole (update_record now rs)))
  unfolding add_failure
  add_failure-Holds now ip d rs (o, t, w) l h =
      let (d', e) = open-Holds ip d rs o h in
      let steps : add_failure system now ip d
          ≡ (ok, put ip (whole (update_record now rs)) (put ip (whole rs) d')) =
        ap (add_to_opened system now ip d) e
        ∙ ap (λ r. add_to_read system now ip (put ip r.1 d') r.0) (read-whole rs l)
        ∙ rw (t, w) refl in
      (ap (λ r. r.0) steps, ap (λ r. find ip r.1) steps ∙ find-put ip _ _)

  pub get_one-Holds :
      (conf : LockConf) (now : ℕ) (ip text : Bytes) (d : Dir) (rs : List IpFailRecord)
      → remove_port_from_ip text ≡ some ip
      → system.can_open ip ≡ true
      → length rs ≤ 100
      → Holds ip d rs
      → (get_one_lock_status system conf now text d).0 ≡ some (lock_status_of conf now rs)
  unfolding get_one_lock_status
  get_one-Holds conf now ip text d rs c o l h =
      let (d', e) = open-Holds ip d rs o h in
      ap (λ r. (status_of_clean system conf now d r).0) c
      ∙ ap (λ r. (status_of_opened system conf now ip d r).0) e
      ∙ ap (λ r. status_of_read system conf now r.0) (read-whole rs l)

module _ (glib : GHashTable) where
  -- There is room for the address.
  abbrev pub Room : Bytes → IpState glib → Type 0
  Room ip s = (glib.contains s.ip_map ip ≡ true) ⊎ (glib.size s.ip_map < max_ip_record_cnt)

  pub room :
      (ip : Bytes) (t : glib.Table)
      → (glib.contains t ip ≡ true) ⊎ (glib.size t < max_ip_record_cnt)
      → ((check_if_increase_record_cnt glib ip t).0 ≡ ok)
        × (glib.contains (check_if_increase_record_cnt glib ip t).1 ip ≡ true)
  unfolding check_if_increase_record_cnt
  room ip t h =
      let inserted = glib.contains-insert t ip ip in
      let same = str_eq_refl ip in
      elim (Bool-cases (glib.contains t ip)) [
        | inl e ↦ rw e (refl, e)
        | inr e ↦ rw e (ground arith)
      ]

  -- A failure that is not checked against the lock is recorded for the address without its port, as
  -- `update_record` does, where there is room for the address and the file can be written.
  pub increase_fail_record-Holds :
      (system : System) (now : ℕ) (text ip : Bytes) (s : IpState glib) (rs : List IpFailRecord)
      → remove_port_from_ip text ≡ some ip
      → Writes system ip
      → Room ip s
      → length rs ≤ 100
      → Holds system ip s.dir rs
      → ((increase_fail_record glib system now false text s).0 ≡ ok)
        × Holds system ip
            (increase_fail_record glib system now false text s).1.dir
            (update_record now rs)
        × Room ip (increase_fail_record glib system now false text s).1
  increase_fail_record-Holds system now text ip s rs c w r l h =
      let (added, holds) = add_failure-Holds system now ip s.dir rs w l h in
      let (fine, known) = room ip s.ip_map r in
      let steps : increase_fail_record glib system now false text s ≡ (
        ok,
        record {
          ip_map = (check_if_increase_record_cnt glib ip s.ip_map).1;
          dir = (add_failure system now ip s.dir).1;
        },
      ) =
        unfold increase_fail_record in
        ap (increase_clean glib system now false s) c ∙ rw (fine, added) refl in
      (
        ap (λ r. r.0) steps,
        inl (ap (λ r. find ip r.1.dir) steps ∙ holds),
        inl (ap (λ r. glib.contains r.1.ip_map ip) steps ∙ known),
      )

  unlocked-nil :
      (conf : LockConf) (now : ℕ)
      → lock_status_of conf now [] ≡ record { lock_status = false; lock_start_time = 0 }
  unfolding lock_status_of latest_from fail_cnt_from
  unlocked-nil conf now = ground arith

  -- After a reset of an address, given with or without its port, it has no failures, and a query finds
  -- it unlocked under every configuration, with 0 as the time of its last failure.
  pub clean_fail_record-unlocks :
      (system : System) (conf : LockConf) (now : ℕ) (text ip : Bytes) (s : IpState glib)
      → remove_port_from_ip text ≡ some ip
      → system.can_open ip ≡ true
      → ((clean_fail_record glib text s).0 ≡ ok)
        × Holds system ip (clean_fail_record glib text s).1.dir []
        × ((get_one_lock_status system conf now text (clean_fail_record glib text s).1.dir).0
            ≡ some (record { lock_status = false; lock_start_time = 0 }))
  unfolding clean_fail_record
  clean_fail_record-unlocks system conf now text ip s c o =
      let steps = ap (clean_clean glib s) c in
      let gone : Holds system ip (clean_fail_record glib text s).1.dir [] =
        inr (ap (λ r. find ip r.1.dir) steps ∙ find-delete ip s.dir, refl) in
      (
        ap (λ r. r.0) steps,
        gone,
        get_one-Holds system conf now ip text (clean_fail_record glib text s).1.dir [] c o
              (omega arith) gone
            ∙ ap some (unlocked-nil conf now),
      )

  -- A reset makes no address more.
  pub clean_fail_record-size :
      (text ip : Bytes) (s : IpState glib)
      → remove_port_from_ip text ≡ some ip
      → glib.size s.ip_map < 1000
      → glib.size (clean_fail_record glib text s).1.ip_map < 1000
  unfolding clean_fail_record
  clean_fail_record-size text ip s c h =
      let smaller = glib.size-remove s.ip_map ip in
      let e = ap (λ o. glib.size (clean_clean glib s o).1.ip_map) c in omega arith
