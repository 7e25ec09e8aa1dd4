-- ===== src/Tally/Lockout.antt =====
-- Failures count up from a reset.
use account.Base.{
  ℕ, ◌+◌, ◌^◌, ◌≤◌, ◌<◌, ◌≡◌, refl, ap, ◌∙◌, inl, inr, true, none, some, List, [], ◌∷◌, ◌++◌, arith,
  leb, Bytes, length, All, All-mono, Any, length-append,
}
use account.Base.Int.{ℤ}
use account.Clib.Text.{str_eq_iff}
use account.Tally.Count.{
  IsLastFailure, recent_failures, answer, get_user_info-counts, read_tally-whole,
}
use account.Tally.Record.{
  TallyRecord, TallyFile, whole, empty_file, zero_record, failed_at, is_valid, read_tally,
  update_tally,
}
use account.Tally.{
  Files, write_file, TallySystem, open_tally, fail_interval_of, get_user_info, reset_pam_tally,
  reset_opened, increment_read, increment_opened, increment_pam_tally,
}

write_file-same : (path : Bytes) (f : TallyFile) (files : Files) → write_file path f files path ≡ f
write_file-same path f files = rw ((str_eq_iff path path).1 refl) refl

update_tally-append :
    (now : ℕ) (rs : List TallyRecord)
    → length rs < 1024
    → update_tally now rs ≡ rs ++ (failed_at now zero_record ∷ [])
unfolding update_tally
update_tally-append now rs h = ground arith

-- Records of failures at these times, behind those that are there.
abbrev then_failed : List TallyRecord → List ℕ → List TallyRecord
then_failed rs [] = rs
then_failed rs (t ∷ ts) = then_failed (rs ++ (failed_at t zero_record ∷ [])) ts

abbrev Within : ℕ → ℕ → ℕ → Type 0
Within a b t = (a ≤ t) × (t ≤ b)

-- A valid failure in this time.
abbrev Failed : ℕ → ℕ → TallyRecord → Type 0
Failed a b r = (is_valid r ≡ true) × Within a b r.timestamp

All-snoc :
    (a b : ℕ) (rs : List TallyRecord) (t : ℕ)
    → All (Failed a b) rs
    → Within a b t
    → All (Failed a b) (rs ++ (failed_at t zero_record ∷ []))
All-snoc a b [] t h g = ((refl, g), tt)
All-snoc a b (r ∷ rs) t h g = (h.0, All-snoc a b rs t h.1 g)

then_failed-Failed :
    (a b : ℕ) (rs : List TallyRecord) (ts : List ℕ)
    → All (Failed a b) rs
    → All (Within a b) ts
    → All (Failed a b) (then_failed rs ts)
then_failed-Failed a b rs [] h g = h
then_failed-Failed a b rs (t ∷ ts) h g =
    then_failed-Failed a b (rs ++ (failed_at t zero_record ∷ [])) ts (All-snoc a b rs t h g.0) g.1

length-then_failed :
    (rs : List TallyRecord) (ts : List ℕ) → length (then_failed rs ts) ≡ length rs + length ts
length-then_failed rs [] = omega arith
length-then_failed rs (t ∷ ts) = omega (
  arith,
  length-then_failed (rs ++ (failed_at t zero_record ∷ [])) ts,
  length-append rs (failed_at t zero_record ∷ []),
)

recent-full :
    (l interval : ℕ) (rs : List TallyRecord)
    → All (λ r. (is_valid r ≡ true) × (l < r.timestamp + interval)) rs
    → recent_failures l interval rs ≡ length rs
recent-full l interval [] h = refl
recent-full l interval (r ∷ rs) h =
    let (v, k) = h.0 in let rest = recent-full l interval rs h.1 in rw v (ground arith)

last-high :
    (a b l : ℕ) (rs : List TallyRecord)
    → All (Failed a b) rs
    → Any (λ r. (is_valid r ≡ true) × (r.timestamp ≡ l)) rs
    → l ≤ b
last-high a b l [] h i = absurd i
last-high a b l (r ∷ rs) h (inl (v, e)) = let k = h.0.1.1 in omega arith
last-high a b l (r ∷ rs) h (inr later) = last-high a b l rs h.1 later

last-low :
    (a b l : ℕ) (rs : List TallyRecord)
    → 1 ≤ length rs
    → All (Failed a b) rs
    → IsLastFailure l rs
    → a ≤ l
last-low a b l [] n h i = absurd (omega arith)
last-low a b l (r ∷ rs) n h i = let x = h.0.1.0 in let y = i.0.0 h.0.0 in omega arith

answer-full :
    (now unlock_time interval a b l : ℕ) (rs : List TallyRecord)
    → 1 ≤ length rs
    → All (Failed a b) rs
    → IsLastFailure l rs
    → b < a + interval
    → now ≤ a + unlock_time
    → (a ≤ l)
      × (l ≤ b)
      × (answer now unlock_time interval l rs ≡ record { fail_cnt = length rs; fail_time = l })
answer-full now unlock_time interval a b l rs n h last window soon =
    let lo = last-low a b l rs n h last in
    let hi : l ≤ b = elim last.1 [ inl z ↦ omega arith | inr found ↦ last-high a b l rs h found ] in
    let near =
      All-mono (Failed a b) (λ r. (is_valid r ≡ true) × (l < r.timestamp + interval))
        (λ r g. let k = g.1.0 in (g.0, omega arith)) rs h in
    let count = recent-full l interval rs near in
    let early : leb now (l + unlock_time) ≡ true = ground arith in (lo, hi, rw (early, count) refl)

module _ (system : TallySystem) (user dir : Bytes) where
  -- Failures one after the other, at these times.
  abbrev pub increments : List ℕ → Files → Files
  increments [] files = files
  increments (t ∷ ts) files = increments ts (increment_pam_tally system t user dir files).1

  -- The file at the path can be opened and written.
  abbrev pub Writes : Bytes → Type 0
  Writes path =
      (open_tally system user dir ≡ some path)
      × (system.ftruncate_errno path ≡ none)
      × (system.short_write path ≡ none)

  increment-whole :
      (path : Bytes) (now : ℕ) (files : Files) (rs : List TallyRecord)
      → Writes path
      → length rs < 1024
      → files path ≡ whole rs
      → (increment_pam_tally system now user dir files).1 path
        ≡ whole (rs ++ (failed_at now zero_record ∷ []))
  unfolding increment_pam_tally
  increment-whole path now files rs (o, t, w) l f =
      ap (λ p. (increment_opened system now files p).1 path) o
      ∙ ap (λ g. (increment_read system now path files (read_tally g)).1 path) f
      ∙ ap (λ r. (increment_read system now path files r).1 path)
          (read_tally-whole rs (omega arith))
      ∙ rw (t, w, update_tally-append now rs l)
          (write_file-same path (whole (rs ++ (failed_at now zero_record ∷ []))) files)

  increments-whole :
      (path : Bytes) (ts : List ℕ) (files : Files) (rs : List TallyRecord)
      → Writes path
      → length rs + length ts ≤ 1024
      → files path ≡ whole rs
      → increments ts files path ≡ whole (then_failed rs ts)
  increments-whole path [] files rs w l f = f
  increments-whole path (t ∷ ts) files rs w l f =
      let n = length-append rs (failed_at t zero_record ∷ []) in
      increments-whole path ts (increment_pam_tally system t user dir files).1
        (rs ++ (failed_at t zero_record ∷ [])) w (omega arith)
        (increment-whole path t files rs w (omega arith) f)

  reset-empty :
      (path : Bytes) (files : Files)
      → Writes path
      → (reset_pam_tally system user dir files).1 path ≡ empty_file
  unfolding reset_pam_tally
  reset-empty path files (o, t, w) =
      ap (λ p. (reset_opened system files p).1 path) o
      ∙ rw t (write_file-same path empty_file files)

  -- After a reset, one or more failures, at most 1024, that are recorded at times from `a` to `b`, less
  -- than the interval apart, are all counted by a query until the time to unlock has passed since `a`,
  -- and the query names a time from `a` to `b` as that of the last one. The file can be written, and
  -- `b` and the time to unlock fit 64 bits together.
  pub increments-counted :
      (path : Bytes) (now a b unlock_time : ℕ) (interval : ℤ) (ts : List ℕ) (files : Files)
      → Writes path
      → 1 ≤ length ts
      → length ts ≤ 1024
      → All (Within a b) ts
      → b < a + fail_interval_of unlock_time interval
      → now ≤ a + unlock_time
      → b + unlock_time < 2 ^ 64
      → (l : ℕ) × (a ≤ l)
        × (l ≤ b)
        × ((get_user_info system user dir now unlock_time interval
              (increments ts (reset_pam_tally system user dir files).1)).0
            ≡ some (record { fail_cnt = length ts; fail_time = l }))
  increments-counted path now a b unlock_time interval ts files w some_ts few within window soon
        fits =
      let rs = then_failed [] ts in
      let n : length rs ≡ length ts = omega (arith, length-then_failed [] ts) in
      let h = then_failed-Failed a b [] ts tt within in
      let start = reset-empty path files w in
      let f =
        increments-whole path ts (reset_pam_tally system user dir files).1 [] w (omega arith)
          start in
      let sums : All (λ r. r.timestamp + unlock_time < 2 ^ 64) rs =
        All-mono (Failed a b) (λ r. r.timestamp + unlock_time < 2 ^ 64)
          (λ r g. let k = g.1.1 in omega arith) rs h in
      let (l, last, e) =
        get_user_info-counts system user dir path now unlock_time interval
          (increments ts (reset_pam_tally system user dir files).1) rs w.0 f (omega arith)
          (omega arith) sums in
      let (lo, hi, full) =
        answer-full now unlock_time (fail_interval_of unlock_time interval) a b l rs (omega arith) h
          last window soon in
      (
        l,
        lo,
        hi,
        e ∙ ap some full ∙ ap (λ (k : ℕ). some (record { fail_cnt = k; fail_time = l })) n,
      )
