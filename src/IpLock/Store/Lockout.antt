-- ===== src/IpLock/Store/Lockout.antt =====
-- Repeated failures lock an address.
use mathlib.Core.Path.{subst}
use account.Base.{
  ℕ, ◌+◌, ◌-◌, ◌^◌, ◌≤◌, ◌<◌, ◌≡◌, refl, ◌≢◌, Bool, true, ◌⊎◌, inl, inr, some, List, [], ◌∷◌, ◌++◌,
  arith, Bytes, length, All, Any, All-mono, length-append,
}
use account.IpLock.Address.{remove_port_from_ip}
use account.IpLock.Record.{
  IpFailRecord, max_record_cnt, LockConf, LockStatus, new_record, lock_status_of,
}
use account.IpLock.Record.Update.{update_record-cases}
use account.IpLock.Record.Window.{recent, IsLatest, is_latest, lock_status_of_iff}
use account.IpLock.Store.{
  GHashTable, System, get_one_lock_status, IpState, increase_fail_record, clean_fail_record,
}
use account.IpLock.Store.Checked.{Counts, increase_fail_record-Recorded}
use account.IpLock.Store.Locking.{
  Writes, Holds, Room, get_one-Holds, clean_fail_record-size, clean_fail_record-unlocks,
}

abbrev Within : ℕ → ℕ → ℕ → Type 0
Within a b t = (a ≤ t) × (t ≤ b)

recent_full :
    (t : ℕ) (rs : List IpFailRecord) → All (λ r. t < r.timestamp) rs → recent t rs ≡ length rs
recent_full t [] h = refl
recent_full t (r ∷ rs) h = ground (arith, recent_full t rs h.1)

All-snoc :
    (a b : ℕ) (rs : List IpFailRecord) (t : ℕ)
    → All (λ r. Within a b r.timestamp) rs
    → Within a b t
    → All (λ r. Within a b r.timestamp) (rs ++ (new_record t ∷ []))
All-snoc a b [] t h g = (g, tt)
All-snoc a b (r ∷ rs) t h g = (h.0, All-snoc a b rs t h.1 g)

latest-Within :
    (a b l : ℕ) (rs : List IpFailRecord)
    → 1 ≤ length rs
    → All (λ r. Within a b r.timestamp) rs
    → IsLatest l rs
    → a ≤ l
latest-Within a b l [] n h i = absurd (omega arith)
latest-Within a b l (r ∷ rs) n h i = let x = h.0.0 in let y = i.0.0 in omega arith

below :
    (b l : ℕ) (rs : List IpFailRecord)
    → All (λ r. r.timestamp ≤ b) rs
    → Any (λ r. r.timestamp ≡ l) rs
    → l ≤ b
below b l [] h i = absurd i
below b l (r ∷ rs) h (inl e) = omega arith
below b l (r ∷ rs) h (inr later) = below b l rs h.1 later

-- At least as many failures as the threshold, all within the window, lock.
locks :
    (conf : LockConf) (now a b : ℕ) (rs : List IpFailRecord)
    → length rs ≤ max_record_cnt
    → conf.lock_threshold ≢ 0
    → conf.lock_threshold ≤ length rs
    → All (λ r. Within a b r.timestamp) rs
    → b < a + conf.fail_interval
    → conf.fail_interval ≤ a
    → now ≤ a + conf.unlock_time
    → b + conf.unlock_time < 2 ^ 64
    → (lock_status_of conf now rs).lock_status ≡ true
locks conf now a b rs bound nz enough h window early soon fits =
    let l = (lock_status_of conf now rs).lock_start_time in
    let i = is_latest conf now rs in
    let lo : a ≤ l = latest-Within a b l rs (omega arith) h i in
    let hi : l ≤ b = elim i.1 [
      | inl z ↦ omega arith
      | inr found ↦
          below b l rs
            (All-mono (λ r. Within a b r.timestamp) (λ r. r.timestamp ≤ b) (λ r g. g.1) rs h) found
    ] in
    let all = recent_full (l - conf.fail_interval) rs (
      All-mono (λ r. Within a b r.timestamp) (λ r. l - conf.fail_interval < r.timestamp)
        (λ r g. omega arith) rs h) in
    (lock_status_of_iff conf now rs bound (omega arith) (omega arith)).1.1
      (omega arith, nz, omega arith, omega arith)

module _ (glib : GHashTable) (system : System) (text : Bytes) where
  -- Calls of increase_fail_record one after the other, at these times, each with this value of
  -- is_check_lock: true is DO_CHECK, false is NO_CHECK.
  abbrev pub failures : Bool → List ℕ → IpState glib → IpState glib
  failures is_check_lock [] s = s
  failures is_check_lock (t ∷ ts) s =
      failures is_check_lock ts (increase_fail_record glib system t is_check_lock text s).1

  -- After `n` failures: no more records than failures, all in the window, and either a record for
  -- each failure or at least as many as the threshold.
  abbrev Progress : ℕ → ℕ → ℕ → ℕ → List IpFailRecord → Type 0
  Progress threshold a b n rs =
      (length rs ≤ n)
      × ((threshold ≤ length rs) ⊎ (n ≤ length rs))
      × All (λ r. Within a b r.timestamp) rs

  Progress-recorded :
      (threshold a b n t : ℕ) (rs : List IpFailRecord)
      → Progress threshold a b n rs
      → Within a b t
      → Progress threshold a b (n + 1) (rs ++ (new_record t ∷ []))
  Progress-recorded threshold a b n t rs (few, enough, window) g =
      let longer = length-append rs (new_record t ∷ []) in
      (
        omega arith,
        elim enough [ inl full ↦ inl (omega arith) | inr each ↦ inr (omega arith) ],
        All-snoc a b rs t window g,
      )

  failures-Progress :
      (is_check_lock : Bool) (conf : LockConf) (ip : Bytes) (a b n : ℕ) (ts : List ℕ)
      (s : IpState glib) (rs : List IpFailRecord)
      → remove_port_from_ip text ≡ some ip
      → Writes system ip
      → Counts system conf is_check_lock ip
      → Room glib ip s
      → n + length ts ≤ 100
      → All (Within a b) ts
      → Progress conf.lock_threshold a b n rs
      → Holds system ip s.dir rs
      → (end : List IpFailRecord) × Progress conf.lock_threshold a b (n + length ts) end
        × Holds system ip (failures is_check_lock ts s).dir end
  failures-Progress is_check_lock conf ip a b n [] s rs c w k r l within p h =
      let same : n ≡ n + 0 = omega arith in
      (rs, subst (λ m. Progress conf.lock_threshold a b m rs) same p, h)
  failures-Progress is_check_lock conf ip a b n (t ∷ ts) s rs c w k r l within p h =
      let (has_room, step) =
        increase_fail_record-Recorded system conf glib is_check_lock t text ip s rs c w k r
          (omega (arith, p.0)) h in
      let next = (increase_fail_record glib system t is_check_lock text s).1 in
      let same : n + 1 + length ts ≡ n + length (t ∷ ts) = omega arith in
      let go : (rs' : List IpFailRecord)
          → Progress conf.lock_threshold a b (n + 1) rs'
          → Holds system ip next.dir rs'
          → (end : List IpFailRecord) × Progress conf.lock_threshold a b (n + length (t ∷ ts)) end
            × Holds system ip (failures is_check_lock ts next).dir end =
        (λ rs' p' h'.
          let (end, q, holds) =
            failures-Progress is_check_lock conf ip a b (n + 1) ts next rs' c w k has_room
              (omega arith) within.1 p' h' in
          (end, subst (λ m. Progress conf.lock_threshold a b m end) same q, holds)) in
      elim step [
        | inl recorded ↦
            let appended = (update_record-cases t rs).0 (omega (arith, p.0)) in
            go (rs ++ (new_record t ∷ []))
              (Progress-recorded conf.lock_threshold a b n t rs p within.0)
              (subst (Holds system ip next.dir) appended recorded)
        | inr (held, full) ↦ go rs (omega (arith, p.0), inl full, p.2) held
      ]

  -- After a reset, failures of an address that are recorded by increase_fail_record lock it, where its
  -- file can be written and the table has fewer than 1000 addresses: when there are at least as many as
  -- the threshold, which is not 0, and at most 100, all at times from `a` to `b`, less than the
  -- interval apart, then a query finds the address locked until the time to unlock has passed since
  -- `a`. The interval does not reach back before time 0, and the sum with `b` fits 64 bits. The failures
  -- are recorded with NO_CHECK, or with DO_CHECK where the address without its port is the same without
  -- a port again and the threshold that check_if_locked asks for, when it gets one, is no lower.
  pub failures-lock :
      (is_check_lock : Bool) (ip : Bytes) (conf : LockConf) (now a b : ℕ) (ts : List ℕ)
      (s : IpState glib)
      → remove_port_from_ip text ≡ some ip
      → Writes system ip
      → Counts system conf is_check_lock ip
      → glib.size s.ip_map < 1000
      → conf.lock_threshold ≢ 0
      → conf.lock_threshold ≤ length ts
      → length ts ≤ max_record_cnt
      → All (Within a b) ts
      → b < a + conf.fail_interval
      → conf.fail_interval ≤ a
      → now ≤ a + conf.unlock_time
      → b + conf.unlock_time < 2 ^ 64
      → (status : LockStatus) × ((get_one_lock_status system conf now text
            (failures is_check_lock ts (clean_fail_record glib text s).1).dir).0
          ≡ some status)
        × (status.lock_status ≡ true)
  failures-lock is_check_lock ip conf now a b ts s c w k size nz enough bound within window early
        soon fits =
      let (fine, holds, unlocked) =
        clean_fail_record-unlocks glib system conf now text ip s c w.0 in
      let (end, (few, full, inside), final) =
        failures-Progress is_check_lock conf ip a b 0 ts (clean_fail_record glib text s).1 [] c w k
          (inr (clean_fail_record-size glib text ip s c size)) (omega arith) within
          (omega arith, inr (omega arith), tt) holds in
      let reached : conf.lock_threshold ≤ length end = elim full [
        | inl q ↦ q
        | inr q ↦ omega arith
      ] in
      (
        lock_status_of conf now end,
        get_one-Holds system conf now ip text _ end c w.0 (omega arith) final,
        locks conf now a b end (omega arith) nz reached inside window early soon fits,
      )
