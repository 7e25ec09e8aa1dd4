-- ===== src/IpLock/Record/Update.antt =====
-- What one more failure does to the records.
use account.Base.{
  ℕ, suc, ◌+◌, ◌≤◌, ◌<◌, ◌≡◌, refl, ap, ◌∙◌, ◌⊎◌, inl, inr, some, List, [], ◌∷◌, ◌++◌, arith, ltb,
  length, set, get_elem?, All, All-mono, Bool-cases, length-append, length-set, ltb→lt,
}
use account.IpLock.Record.{
  IpFailRecord, max_record_cnt, oldest_from, oldest_idx, new_record, update_record,
}

-- No record is older than `t`.
abbrev pub NoneOlder : ℕ → List IpFailRecord → Type 0
NoneOlder t rs = All (λ q. t ≤ q.timestamp) rs

NoneOlder-mono : (t u : ℕ) (rs : List IpFailRecord) → t ≤ u → NoneOlder u rs → NoneOlder t rs
NoneOlder-mono t u rs h =
    All-mono (λ q. u ≤ q.timestamp) (λ q. t ≤ q.timestamp) (λ q g. omega arith) rs

-- The search keeps its candidate, or ends at an older record that it passes.
abbrev Found : ℕ → ℕ → ℕ → ℕ → List IpFailRecord → Type 0
Found res t loc i rs =
    ((res ≡ loc) × NoneOlder t rs)
    ⊎ ((j : ℕ) × (r : IpFailRecord) × (get_elem? rs j ≡ some r)
        × (res ≡ i + j)
        × (r.timestamp < t)
        × NoneOlder r.timestamp rs)

oldest_from-Found :
    (t loc i : ℕ) (rs : List IpFailRecord) → Found (oldest_from t loc i rs) t loc i rs
unfolding oldest_from
oldest_from-Found t loc i [] = inl (refl, tt)
oldest_from-Found t loc i (r ∷ rs) = elim (Bool-cases (ltb r.timestamp t)) [
  | inl lt ↦ rw lt (elim (oldest_from-Found r.timestamp i (i + 1) rs) [
    | inl (e, older) ↦ inr (0, r, refl, e ∙ omega arith, ltb→lt _ _ lt, (omega arith, older))
    | inr (j, q, g, e, l, older) ↦
        inr (
          suc j,
          q,
          g,
          e ∙ omega arith,
          (let k = ltb→lt _ _ lt in omega arith),
          (omega arith, older),
        )
  ])
  | inr ge ↦ rw ge (elim (oldest_from-Found t loc (i + 1) rs) [
    | inl (e, older) ↦ inl (e, (ground arith, older))
    | inr (j, q, g, e, l, older) ↦ inr (suc j, q, g, e ∙ omega arith, l, (ground arith, older))
  ])
]

oldest_idx-oldest :
    (r : IpFailRecord) (rs : List IpFailRecord)
    → (i : ℕ) × (q : IpFailRecord) × (get_elem? (r ∷ rs) i ≡ some q)
      × (oldest_idx (r ∷ rs) ≡ i)
      × NoneOlder q.timestamp (r ∷ rs)
unfolding oldest_idx
oldest_idx-oldest r rs = elim (oldest_from-Found r.timestamp 0 1 rs) [
  | inl (e, older) ↦ (0, r, refl, e, (omega arith, older))
  | inr (j, q, g, e, l, older) ↦ (suc j, q, g, e ∙ omega arith, (omega arith, older))
]

update-full :
    (now : ℕ) (records : List IpFailRecord)
    → length records ≡ max_record_cnt
    → update_record now records ≡ set records (oldest_idx records) (new_record now)
unfolding update_record
update-full now records h = ground arith

-- While there are fewer than 100 records, a failure is appended. When there are 100, it takes the
-- place of a record that none is older than, and every other record stays.
pub update_record-cases :
    (now : ℕ) (records : List IpFailRecord)
    → (length records < max_record_cnt
        → update_record now records ≡ records ++ (new_record now ∷ []))
      × (length records ≡ max_record_cnt
          → (i : ℕ) × (q : IpFailRecord) × (get_elem? records i ≡ some q)
            × NoneOlder q.timestamp records
            × (update_record now records ≡ set records i (new_record now)))
update_record-cases now [] =
    ((λ h. unfold update_record in ground arith), (λ h. absurd (omega arith)))
update_record-cases now (r ∷ rs) = (
  (λ h. unfold update_record in ground arith),
  (λ h.
      let (i, q, g, e, older) = oldest_idx-oldest r rs in
      (i, q, g, older, update-full now (r ∷ rs) h ∙ ap (λ j. set (r ∷ rs) j (new_record now)) e)),
)

-- There are never more than 100 records.
pub update_record-bound :
    (now : ℕ) (records : List IpFailRecord)
    → length records ≤ max_record_cnt
    → length (update_record now records) ≤ max_record_cnt
update_record-bound now records h =
    let a = length-append records (new_record now ∷ []) in
    let s = length-set records (oldest_idx records) (new_record now) in
    unfold update_record in ground arith
