-- ===== src/LoginRule/File/RoundTrip.antt =====
-- What a rule file of the printed form reads as.
use mathlib.Core.List.{append_assoc, append-nil}
use account.Base.{
  ℕ, zero, suc, ◌-◌, ◌<◌, ◌≤◌, ◌≡◌, refl, ap, ◌∙◌, ◌≢◌, true, false, some, List, [], ◌∷◌, ◌++◌,
  arith, Bytes, if◌then◌else◌, length, drop, replicate, All, All-append, All-mono,
}
use account.Clib.Bounded.{c_string, c_string-whole}
use account.Clib.Text.{strsep, join, strsep-join, has_char}
use account.Status.{ok}
use account.LoginRule.File.{
  LoginRuleInfo, empty_buffer, no_rules, time_text, ip_text, mac_text, ipv6_text, parse_lines,
  parse_rules, get_login_rules, drop_result,
}
use account.LoginRule.File.Line.{
  Entry, Fits, PlainByte, IsEntry, line, stored, stored_text, LineByte, IsLine, line-IsLine,
  parse_lines-line,
}

-- Three lines, each ended by a line end.
abbrev pub file : Entry → Entry → Entry → Bytes
file a b c = join b'\n' (line 1 a) (line 2 b ∷ line 3 c ∷ [] ∷ [])

line-no_newline : (s : Bytes) → IsLine s → has_char b'\n' s ≡ false
unfolding has_char
line-no_newline [] h = refl
line-no_newline (c ∷ s) h = ground (arith, line-no_newline s h.1)

c_string-append : (s t : Bytes) → All (λ b. b ≢ 0) s → c_string (s ++ t) ≡ s ++ c_string t
unfolding c_string
c_string-append [] t h = refl
c_string-append (c ∷ s) t h = ground (arith, c_string-append s t h.1)

c_string-zero : (t : Bytes) → c_string (0 ∷ t) ≡ []
unfolding c_string
c_string-zero t = refl

abbrev zeros : ℕ → Bytes
zeros n = replicate n 0

drop-zeros : (n m : ℕ) → n ≤ m → drop n (zeros (suc m)) ≡ 0 ∷ zeros (m - n)
drop-zeros zero m h = ground arith
drop-zeros (suc n) zero h = absurd (omega arith)
drop-zeros (suc n) (suc m) h = ground (arith, drop-zeros n m (omega arith))

-- A string in a cleared buffer is read back, whatever stands behind the buffer.
c_string-stored : (s rest : Bytes) → Fits s → c_string (stored_text s ++ rest) ≡ s
c_string-stored s rest h =
    ap c_string (append_assoc s (drop (length s) empty_buffer) rest)
    ∙ c_string-append s _ (All-mono PlainByte (λ b. b ≢ 0) (λ b p. p.0) s h.1)
    ∙ ap (λ t. s ++ c_string (t ++ rest)) (drop-zeros (length s) 64 h.0)
    ∙ ap (◌++◌ s) (c_string-zero _)
    ∙ append-nil s

module _ (a b c : Entry) (va : IsEntry a) (vb : IsEntry b) (vc : IsEntry c)
    (room : length (file a b c) < 777) where
  lines : strsep b'\n' (file a b c) ≡ line 1 a ∷ line 2 b ∷ line 3 c ∷ [] ∷ []
  lines = strsep-join b'\n' (line 1 a) (line 2 b ∷ line 3 c ∷ [] ∷ []) (
    line-no_newline (line 1 a) (line-IsLine 1 a (omega arith) va),
    (
      line-no_newline (line 2 b) (line-IsLine 2 b (omega arith) vb),
      (line-no_newline (line 3 c) (line-IsLine 3 c (omega arith) vc), (line-no_newline [] tt, tt)),
    ),
  )

  abbrev all_stored : List LoginRuleInfo
  all_stored = stored 1 a ∷ stored 2 b ∷ stored 3 c ∷ []

  parse_rules-file : parse_rules (file a b c) no_rules ≡ some (ok, all_stored)
  unfolding parse_rules
  parse_rules-file =
      let parsed : parse_lines true (line 1 a ∷ line 2 b ∷ line 3 c ∷ [] ∷ []) no_rules
          ≡ some (ok, all_stored) =
        parse_lines-line 0 a _ _ (omega arith) va refl
        ∙ parse_lines-line 1 b _ _ (omega arith) vb refl
        ∙ parse_lines-line 2 c _ _ (omega arith) vc refl
        ∙ unfold parse_lines in refl in
      rw (lines, parsed) (ground arith)

  file-whole : c_string (file a b c) ≡ file a b c
  file-whole = c_string-whole (file a b c) (
      ended 1 a _ (omega arith) va
        (ended 2 b _ (omega arith) vb (ended 3 c [] (omega arith) vc tt)))
    where
      ended :
          (id : ℕ) (e : Entry) (rest : Bytes)
          → id < 10
          → IsEntry e
          → All (λ n. n ≢ 0) rest
          → All (λ n. n ≢ 0) (line id e ++ (b'\n' ∷ rest))
      ended id e rest h v g =
          All-append (λ n. n ≢ 0) (line id e) (b'\n' ∷ rest)
            (All-mono LineByte (λ n. n ≢ 0) (λ n p. p.0) (line id e) (line-IsLine id e h v))
            ((λ p. omega arith), g)

  get_login_rules-stored : get_login_rules (some (file a b c)) no_rules ≡ some (ok, all_stored)
  unfolding get_login_rules
  get_login_rules-stored =
      ap (λ t. drop_result (parse_rules t no_rules)) file-whole ∙ ap drop_result parse_rules-file

-- The rule reads as the entry, with its id, where `rs` stands behind it.
pub record ReadsAs (id : ℕ) (e : Entry) (r : LoginRuleInfo) (rs : List LoginRuleInfo) : Type 0 where
  pub id_read : r.rule_id ≡ id
  pub enabled_read : r.rule_enabled ≡ (if e.enabled then 1 else 0)
  pub time_read : time_text r rs ≡ e.time
  pub ip_read : ip_text r rs ≡ e.ip
  pub mac_read : mac_text r rs ≡ e.mac
  pub ipv6_read : ipv6_text r rs ≡ e.ipv6

stored-ReadsAs :
    (id : ℕ) (e : Entry) (rs : List LoginRuleInfo) → IsEntry e → ReadsAs id e (stored id e) rs
stored-ReadsAs id e rs v = record {
  id_read = refl;
  enabled_read = refl;
  time_read = c_string-stored e.time _ v.time_fits;
  ip_read = c_string-stored e.ip _ v.ip_fits;
  mac_read = c_string-stored e.mac _ v.mac_fits;
  ipv6_read = c_string-stored e.ipv6 _ v.ipv6_fits;
}

-- A file of three lines, for the rules 1, 2 and 3 in this order, which has fewer than 777 bytes, and
-- whose fields have at most 64 bytes each and 251 together in a line and hold no terminator, comma or
-- line end, is read as it was written: every rule has its id and its flag, and its four strings are
-- the fields.
pub get_login_rules-file :
    (a b c : Entry)
    → IsEntry a
    → IsEntry b
    → IsEntry c
    → length (file a b c) < 777
    → (x y z : LoginRuleInfo) × (get_login_rules (some (file a b c)) no_rules
        ≡ some (ok, x ∷ y ∷ z ∷ []))
      × ReadsAs 1 a x (y ∷ z ∷ [])
      × ReadsAs 2 b y (z ∷ [])
      × ReadsAs 3 c z []
get_login_rules-file a b c va vb vc room = (
  stored 1 a,
  stored 2 b,
  stored 3 c,
  get_login_rules-stored a b c va vb vc room,
  stored-ReadsAs 1 a _ va,
  stored-ReadsAs 2 b _ vb,
  stored-ReadsAs 3 c _ vc,
)
