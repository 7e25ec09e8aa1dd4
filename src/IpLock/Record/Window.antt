-- ===== src/IpLock/Record/Window.antt =====
-- When the records lock an address.
use mathlib.Core.Path.{subst}
use account.Base.{
  ℕ, ◌+◌, ◌-◌, ◌%◌, ◌^◌, ◌≤◌, ◌<◌, ◌≡◌, refl, sym, ◌↔◌, ◌≢◌, true, false, List, [], ◌∷◌, arith, ltb,
  if◌then◌else◌, length, All, All-mono, Any, ◌⊎◌, inl, inr, Bool-cases, ltb→lt,
}
use account.IpLock.Record.{
  IpFailRecord, max_record_cnt, LockConf, latest_from, fail_cnt_from, lock_status_of,
}

-- The number of records after `t`.
abbrev pub recent : ℕ → List IpFailRecord → ℕ
recent t [] = 0
recent t (r ∷ rs) = (if ltb t r.timestamp then 1 else 0) + recent t rs

pub recent-length : (t : ℕ) (rs : List IpFailRecord) → recent t rs ≤ length rs
recent-length t [] = omega arith
recent-length t (r ∷ rs) = ground (arith, recent-length t rs)

-- The guint8 does not overflow on at most 255 records.
pub fail_cnt_from-recent :
    (t cnt : ℕ) (rs : List IpFailRecord)
    → cnt + length rs < 256
    → fail_cnt_from t cnt rs ≡ cnt + recent t rs
unfolding fail_cnt_from
fail_cnt_from-recent t cnt [] h = omega arith
fail_cnt_from-recent t cnt (r ∷ rs) h =
    let a = fail_cnt_from-recent t cnt rs (omega arith) in
    let b = fail_cnt_from-recent t (cnt + 1) rs (omega arith) in
    let e : (cnt + 1) % 256 ≡ cnt + 1 = omega arith in rw e (ground arith)

-- `l` is the time of the last failure, 0 where there is none.
abbrev pub IsLatest : ℕ → List IpFailRecord → Type 0
IsLatest l rs = All (λ r. r.timestamp ≤ l) rs × ((l ≡ 0) ⊎ Any (λ r. r.timestamp ≡ l) rs)

abbrev Above : ℕ → ℕ → List IpFailRecord → Type 0
Above t l rs = (t ≤ l) × All (λ r. r.timestamp ≤ l) rs × ((l ≡ t) ⊎ Any (λ r. r.timestamp ≡ l) rs)

latest_from-newer :
    (t : ℕ) (r : IpFailRecord) (rs : List IpFailRecord)
    → ltb t r.timestamp ≡ true
    → latest_from t (r ∷ rs) ≡ latest_from r.timestamp rs
unfolding latest_from
latest_from-newer t r rs h = rw h refl

latest_from-kept :
    (t : ℕ) (r : IpFailRecord) (rs : List IpFailRecord)
    → ltb t r.timestamp ≡ false
    → latest_from t (r ∷ rs) ≡ latest_from t rs
unfolding latest_from
latest_from-kept t r rs h = rw h refl

latest_from-Above : (t : ℕ) (rs : List IpFailRecord) → Above t (latest_from t rs) rs
latest_from-Above t [] = unfold latest_from in (omega arith, tt, inl refl)
latest_from-Above t (r ∷ rs) = elim (Bool-cases (ltb t r.timestamp)) [
  | inl lt ↦
      let (a, b, c) = latest_from-Above r.timestamp rs in
      let k = ltb→lt _ _ lt in
      subst (λ x. Above t x (r ∷ rs)) (sym (latest_from-newer t r rs lt))
        (omega arith, (a, b), elim c [ inl e ↦ inr (inl (sym e)) | inr f ↦ inr (inr f) ])
  | inr ge ↦
      let (a, b, c) = latest_from-Above t rs in
      subst (λ x. Above t x (r ∷ rs)) (sym (latest_from-kept t r rs ge))
        (a, (ground arith, b), elim c [ inl e ↦ inl e | inr f ↦ inr (inr f) ])
]

latest_from-IsLatest : (rs : List IpFailRecord) → IsLatest (latest_from 0 rs) rs
latest_from-IsLatest rs = let (a, b, c) = latest_from-Above 0 rs in (b, c)

pub is_latest :
    (conf : LockConf) (now : ℕ) (rs : List IpFailRecord)
    → IsLatest (lock_status_of conf now rs).lock_start_time rs
unfolding lock_status_of
is_latest conf now rs = latest_from-IsLatest rs

-- Where the start of the window does not wrap.
lock_status_of-inside :
    (conf : LockConf) (now : ℕ) (records : List IpFailRecord)
    → length records ≤ max_record_cnt
    → (lock_status_of conf now records).lock_start_time + conf.unlock_time < 2 ^ 64
    → conf.fail_interval ≤ (lock_status_of conf now records).lock_start_time
    → ((lock_status_of conf now records).lock_status ≡ true) ↔ (
        (conf.lock_threshold ≢ 0)
        × (conf.lock_threshold
            ≤ recent
                ((lock_status_of conf now records).lock_start_time - conf.fail_interval)
                records)
        × (now ≤ (lock_status_of conf now records).lock_start_time + conf.unlock_time))
unfolding lock_status_of
lock_status_of-inside conf now records len unlock interval =
    let l = latest_from 0 records in
    let window : (l + 2 ^ 64 - conf.fail_interval % 2 ^ 64) % 2 ^ 64 ≡ l - conf.fail_interval =
      omega arith in
    let cnt = fail_cnt_from-recent (l - conf.fail_interval) 0 records (omega arith) in
    let over : (l + conf.unlock_time) % 2 ^ 64 ≡ l + conf.unlock_time = omega arith in
    rw (window, over, cnt) (ground arith)

none_recent : (t : ℕ) (rs : List IpFailRecord) → All (λ r. r.timestamp ≤ t) rs → recent t rs ≡ 0
none_recent t [] h = refl
none_recent t (r ∷ rs) h = ground (arith, none_recent t rs h.1)

-- Where the interval reaches back beyond time 0, no number of failures locks the address, since the
-- start of the window wraps to a time after all of them.
lock_status_of-wraps :
    (conf : LockConf) (now : ℕ) (records : List IpFailRecord)
    → length records ≤ max_record_cnt
    → (lock_status_of conf now records).lock_start_time < conf.fail_interval
    → conf.fail_interval < 2 ^ 64
    → (lock_status_of conf now records).lock_status ≡ false
unfolding lock_status_of
lock_status_of-wraps conf now records len short bound =
    let l = latest_from 0 records in
    let t = (l + 2 ^ 64 - conf.fail_interval % 2 ^ 64) % 2 ^ 64 in
    let after : l < t = omega arith in
    let cnt = fail_cnt_from-recent t 0 records (omega arith) in
    let none = none_recent t records (
      All-mono (λ r. r.timestamp ≤ l) (λ r. r.timestamp ≤ t) (λ r h. omega arith) records
        (latest_from-IsLatest records).0) in
    rw cnt (rw none (ground arith))

-- With at most 100 records, an interval that fits 64 bits and an unlock time, counted from the last
-- failure, that does, the status names the time of the last failure, 0 where there is none, and an
-- address is locked exactly when the interval does not reach back beyond time 0 from the last failure,
-- the threshold is not 0, at least that many failures lie less than the interval before the last one,
-- and the time to unlock, counted from the last one, is not over.
pub lock_status_of_iff :
    (conf : LockConf) (now : ℕ) (records : List IpFailRecord)
    → length records ≤ max_record_cnt
    → conf.fail_interval < 2 ^ 64
    → (lock_status_of conf now records).lock_start_time + conf.unlock_time < 2 ^ 64
    → IsLatest (lock_status_of conf now records).lock_start_time records
      × (((lock_status_of conf now records).lock_status ≡ true) ↔ (
          (conf.fail_interval ≤ (lock_status_of conf now records).lock_start_time)
          × (conf.lock_threshold ≢ 0)
          × (conf.lock_threshold
              ≤ recent
                  ((lock_status_of conf now records).lock_start_time - conf.fail_interval)
                  records)
          × (now ≤ (lock_status_of conf now records).lock_start_time + conf.unlock_time)))
lock_status_of_iff conf now records len fits unlock =
    let start = (lock_status_of conf now records).lock_start_time in
    (
      is_latest conf now records,
      elim (Bool-cases (ltb start conf.fail_interval)) [
        | inl short ↦
            let open_still = lock_status_of-wraps conf now records len (ltb→lt _ _ short) fits in
            ((λ locked. cc), (λ (whole, nz, enough, soon). absurd (ground arith)))
        | inr whole ↦
            let early : conf.fail_interval ≤ start = ground arith in
            let inside = lock_status_of-inside conf now records len unlock early in
            (
              (λ locked. let (nz, enough, soon) = inside.0 locked in (early, nz, enough, soon)),
              (λ (_, nz, enough, soon). inside.1 (nz, enough, soon)),
            )
      ],
    )
