-- ===== src/Tally/Count.antt =====
-- What a query counts.
use mathlib.Core.Path.{subst}
use account.Base.{
  ℕ, zero, suc, ◌+◌, ◌-◌, ◌*◌, ◌/◌, ◌%◌, ◌^◌, ◌≤◌, ◌<◌, ◌≡◌, refl, sym, ap, ◌∙◌, ◌⊎◌, inl, inr,
  true, false, ◌&&◌, some, List, [], ◌∷◌, arith, ltb, leb, ◌==◌, if◌then◌else◌, Bytes, length, take,
  All, Any, Bool-cases, ltb→lt,
}
use account.Base.Int.{ℤ}
use account.Tally.Record.{
  TallyRecord, TallyLog, whole, read_tally, is_valid, latest_valid, failures_in, tally_log,
}
use account.Tally.{
  Files, TallySystem, open_tally, fail_interval_of, info_of_opened, info_of_read, get_user_info,
}

-- `l` is the time of the last valid failure, 0 where there is none.
abbrev pub IsLastFailure : ℕ → List TallyRecord → Type 0
IsLastFailure l rs =
    All (λ r. is_valid r ≡ true → r.timestamp ≤ l) rs
    × ((l ≡ 0) ⊎ Any (λ r. (is_valid r ≡ true) × (r.timestamp ≡ l)) rs)

-- The number of valid failures less than `interval` before `l`.
abbrev pub recent_failures : ℕ → ℕ → List TallyRecord → ℕ
recent_failures l interval [] = 0
recent_failures l interval (r ∷ rs) =
    (if is_valid r && ltb l (r.timestamp + interval) then 1 else 0) + recent_failures l interval rs

recent-length : (l interval : ℕ) (rs : List TallyRecord) → recent_failures l interval rs ≤ length rs
recent-length l interval [] = omega arith
recent-length l interval (r ∷ rs) = ground (arith, recent-length l interval rs)

failures_in-recent :
    (l interval cnt : ℕ) (rs : List TallyRecord)
    → cnt + length rs < 2 ^ 32
    → l < 2 ^ 64
    → All (λ r. is_valid r ≡ true → r.timestamp ≤ l) rs
    → failures_in l interval cnt rs ≡ cnt + recent_failures l interval rs
unfolding failures_in
failures_in-recent l interval cnt [] h b g = omega arith
failures_in-recent l interval cnt (r ∷ rs) h b g =
    let kept = failures_in-recent l interval cnt rs (omega arith) b g.1 in
    let counted = failures_in-recent l interval (cnt + 1) rs (omega arith) b g.1 in
    let next : (cnt + 1) % 2 ^ 32 ≡ cnt + 1 = omega arith in
    elim (Bool-cases (is_valid r)) [
      | inr v ↦ rw v (omega (arith, kept))
      | inl v ↦
          let le = g.0 v in
          let span : (l + 2 ^ 64 - r.timestamp % 2 ^ 64) % 2 ^ 64 ≡ l - r.timestamp = omega arith in
          rw (v, span, next) (ground arith)
    ]

abbrev Above : ℕ → ℕ → List TallyRecord → Type 0
Above t l rs =
    (t ≤ l)
    × All (λ r. is_valid r ≡ true → r.timestamp ≤ l) rs
    × ((l ≡ t) ⊎ Any (λ r. (is_valid r ≡ true) × (r.timestamp ≡ l)) rs)

latest-newer :
    (t : ℕ) (r : TallyRecord) (rs : List TallyRecord)
    → is_valid r ≡ true
    → ltb t r.timestamp ≡ true
    → latest_valid t (r ∷ rs) ≡ latest_valid r.timestamp rs
unfolding latest_valid
latest-newer t r rs v h = rw (v, h) refl

latest-older :
    (t : ℕ) (r : TallyRecord) (rs : List TallyRecord)
    → ltb t r.timestamp ≡ false
    → latest_valid t (r ∷ rs) ≡ latest_valid t rs
unfolding latest_valid
latest-older t r rs h = rw h (ground arith)

latest-invalid :
    (t : ℕ) (r : TallyRecord) (rs : List TallyRecord)
    → is_valid r ≡ false
    → latest_valid t (r ∷ rs) ≡ latest_valid t rs
unfolding latest_valid
latest-invalid t r rs v = rw v refl

latest_valid-Above : (t : ℕ) (rs : List TallyRecord) → Above t (latest_valid t rs) rs
latest_valid-Above t [] = unfold latest_valid in (omega arith, tt, inl refl)
latest_valid-Above t (r ∷ rs) = elim (Bool-cases (is_valid r)) [
  | inr v ↦
      let (a, b, c) = latest_valid-Above t rs in
      subst (λ x. Above t x (r ∷ rs)) (sym (latest-invalid t r rs v))
        (a, ((λ e. absurd cc), b), elim c [ inl e ↦ inl e | inr f ↦ inr (inr f) ])
  | inl v ↦ elim (Bool-cases (ltb t r.timestamp)) [
    | inl lt ↦
        let (a, b, c) = latest_valid-Above r.timestamp rs in
        let k = ltb→lt _ _ lt in
        subst (λ x. Above t x (r ∷ rs)) (sym (latest-newer t r rs v lt))
          (
            omega arith,
            ((λ e. a), b),
            elim c [ inl e ↦ inr (inl (v, sym e)) | inr f ↦ inr (inr f) ],
          )
    | inr ge ↦
        let (a, b, c) = latest_valid-Above t rs in
        subst (λ x. Above t x (r ∷ rs)) (sym (latest-older t r rs ge))
          (a, ((λ e. ground arith), b), elim c [ inl e ↦ inl e | inr f ↦ inr (inr f) ])
  ]
]

pub latest_valid-IsLastFailure : (rs : List TallyRecord) → IsLastFailure (latest_valid 0 rs) rs
latest_valid-IsLastFailure rs = let (a, b, c) = latest_valid-Above 0 rs in (b, c)

-- The answer to a query, where `l` is the time of the last failure.
abbrev pub answer : ℕ → ℕ → ℕ → ℕ → List TallyRecord → TallyLog
answer now unlock_time interval l rs =
    if leb now (l + unlock_time)
    then record { fail_cnt = recent_failures l interval rs; fail_time = l }
    else record { fail_cnt = 0; fail_time = 0 }

last_fits :
    (t u l : ℕ) (rs : List TallyRecord)
    → All (λ r. r.timestamp + u < t) rs
    → Any (λ r. (is_valid r ≡ true) × (r.timestamp ≡ l)) rs
    → l + u < t
last_fits t u l [] h a = absurd a
last_fits t u l (r ∷ rs) h (inl (v, e)) = let k = h.0 in omega arith
last_fits t u l (r ∷ rs) h (inr a) = last_fits t u l rs h.1 a

pub tally_log-answer :
    (now unlock_time interval : ℕ) (rs : List TallyRecord)
    → length rs ≤ 1024
    → unlock_time < 2 ^ 64
    → All (λ r. r.timestamp + unlock_time < 2 ^ 64) rs
    → tally_log now unlock_time interval rs ≡ answer now unlock_time interval (latest_valid 0 rs) rs
unfolding tally_log
tally_log-answer now unlock_time interval rs len u fits =
    let l = latest_valid 0 rs in
    let (below, here) = latest_valid-IsLastFailure rs in
    let bound : l + unlock_time < 2 ^ 64 = elim here [
      | inl e ↦ omega arith
      | inr a ↦ last_fits (2 ^ 64) unlock_time l rs fits a
    ] in
    let counted = failures_in-recent l interval 0 rs (omega arith) (omega arith) below in
    let few = recent-length l interval rs in
    let narrow : (0 + recent_failures l interval rs) % 2 ^ 16 ≡ recent_failures l interval rs =
      omega arith in
    let over : (l + unlock_time) % 2 ^ 64 ≡ l + unlock_time = omega arith in
    rw (over, counted, narrow) refl

take_all : (rs : List TallyRecord) (n : ℕ) → n ≡ length rs → take n rs ≡ rs
take_all [] zero h = refl
take_all [] (suc n) h = refl
take_all (r ∷ rs) zero h = absurd (omega arith)
take_all (r ∷ rs) (suc n) h = ap (◌∷◌ r) (take_all rs n (omega arith))

-- A file as this program writes it is read back.
pub read_tally-whole :
    (rs : List TallyRecord) → length rs ≤ 1024 → read_tally (whole rs) ≡ (some rs, whole rs)
unfolding read_tally
read_tally-whole rs h =
    let few : ltb 65536 (length rs * 64 + 0) ≡ false = ground arith in
    let exact : ((length rs * 64 + 0) % 64 == 0) ≡ true = ground arith in
    rw (few, exact, take_all rs ((length rs * 64 + 0) / 64) (omega arith)) refl

-- A query on a file of at most 1024 records, whose times do not overflow with the time to unlock,
-- answers with the time of the last valid failure and the number of valid failures less than the
-- interval before it, or with zeros where the time to unlock has passed since that failure. The
-- interval -1 stands for the time to unlock and five minutes.
pub get_user_info-counts :
    (system : TallySystem) (user dir path : Bytes) (now unlock_time : ℕ) (interval : ℤ)
    (files : Files) (rs : List TallyRecord)
    → open_tally system user dir ≡ some path
    → files path ≡ whole rs
    → length rs ≤ 1024
    → unlock_time < 2 ^ 64
    → All (λ r. r.timestamp + unlock_time < 2 ^ 64) rs
    → (l : ℕ) × IsLastFailure l rs
      × ((get_user_info system user dir now unlock_time interval files).0
          ≡ some (answer now unlock_time (fail_interval_of unlock_time interval) l rs))
unfolding get_user_info
get_user_info-counts system user dir path now unlock_time interval files rs o f len u fits =
    let fail_interval = fail_interval_of unlock_time interval in
    (
      latest_valid 0 rs,
      latest_valid-IsLastFailure rs,
      ap (λ p. (info_of_opened system now unlock_time interval files p).0) o
          ∙ ap (λ g. info_of_read system now unlock_time fail_interval (read_tally g).0) f
          ∙ ap (λ r. info_of_read system now unlock_time fail_interval r.0)
              (read_tally-whole rs len)
          ∙ ap some (tally_log-answer now unlock_time fail_interval rs len u fits),
    )
