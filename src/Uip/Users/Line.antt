-- ===== src/Uip/Users/Line.antt =====
-- A line of the privilege file in its printed form.
use account.Base.{
  ℕ, ◌/◌, ◌<◌, ◌≤◌, ◌≡◌, refl, true, false, not, ◌&&◌, ◌==◌, List, [], ◌∷◌, ◌++◌, ltb,
  if◌then◌else◌, arith, Bytes, length, All, All-mono,
}
use account.Base.Bits.{passes_to, passes_at}
use account.Base.Int.{wrap}
use account.Clib.Strtol.{strtol, digits, saturate, skip_space}
use account.Clib.Strtol.Numbers.{digit, two}
use account.Clib.Text.{strsep, join, strsep-join, has_char}
use account.Status.{ok}
use account.User.{IpmiUser}
use account.LoginRule.File.{parse_line_token_to_uint8}
use account.PamLogin.Users.{zero_user}

-- The decimal digits of a byte.
abbrev pub byte_text : ℕ → Bytes
byte_text v =
    if ltb v 10 then digit v ∷ [] else if ltb v 100 then two v else digit (v / 100) ∷ two v

-- A token that holds neither delimiter of the file.
abbrev pub IsToken : Bytes → Type 0
IsToken t = (has_char b':' t ≡ false) × (has_char b'\n' t ≡ false)

byte_table :
    passes_to 256 (λ v.
      (strtol (byte_text v)).moved
      && wrap 256 (strtol (byte_text v)).value == v
      && not (has_char b':' (byte_text v))
      && not (has_char b'\n' (byte_text v)))
    ≡ true
unfolding passes_to strtol digits saturate skip_space has_char
byte_table = refl

-- A byte is read back, and its text is a token.
byte_text_facts :
    (v : ℕ)
    → v < 256
    → ((strtol (byte_text v)).moved ≡ true)
      × (wrap 256 (strtol (byte_text v)).value ≡ v)
      × IsToken (byte_text v)
byte_text_facts v h = ground (arith, passes_at 256 _ v byte_table h)

pub parse-byte_text : (v old : ℕ) → v < 256 → parse_line_token_to_uint8 (byte_text v) old ≡ (ok, v)
unfolding parse_line_token_to_uint8
parse-byte_text v old h = let (m, e, t) = byte_text_facts v h in rw (m, e) refl

-- A user as the file holds it. The texts are columns that nothing reads.
pub record Entry : Type 0 where
  pub id : ℕ
  pub name : Bytes
  pub password : Bytes
  pub is_20bytes_passwd : Bytes
  pub max_session_num : Bytes
  pub is_callin : Bytes
  pub enabled : ℕ
  pub auth_enable : Bytes
  pub ipmi_msg_enable : Bytes
  pub is_enable_by_passwd : Bytes
  pub privilege_0 : Bytes
  pub privilege_1 : ℕ
  pub snmp_password : Bytes
  pub lock_state : ℕ
  pub login_rule : ℕ
  pub login_interface : ℕ
  pub is_exclude_user : ℕ
  pub is_password_expired : ℕ
  pub role_id : ℕ

-- The tokens behind the first.
abbrev pub tokens_behind : Entry → List Bytes
tokens_behind e =
    e.name
    ∷ e.password
    ∷ e.is_20bytes_passwd
    ∷ e.max_session_num
    ∷ e.is_callin
    ∷ byte_text e.enabled
    ∷ e.auth_enable
    ∷ e.ipmi_msg_enable
    ∷ e.is_enable_by_passwd
    ∷ e.privilege_0
    ∷ byte_text e.privilege_1
    ∷ e.snmp_password
    ∷ byte_text e.lock_state
    ∷ byte_text e.login_rule
    ∷ byte_text e.login_interface
    ∷ byte_text e.is_exclude_user
    ∷ byte_text e.is_password_expired
    ∷ byte_text e.role_id
    ∷ []

abbrev pub line_of : Entry → Bytes
line_of e = join b':' (byte_text e.id) (tokens_behind e)

-- The numbers are bytes, the name fits its buffer, and the texts are tokens.
pub record IsEntry (e : Entry) : Type 0 where
  pub id_byte : e.id < 256
  pub enabled_byte : e.enabled < 256
  pub privilege_1_byte : e.privilege_1 < 256
  pub lock_state_byte : e.lock_state < 256
  pub login_rule_byte : e.login_rule < 256
  pub login_interface_byte : e.login_interface < 256
  pub is_exclude_user_byte : e.is_exclude_user < 256
  pub is_password_expired_byte : e.is_password_expired < 256
  pub role_id_byte : e.role_id < 256
  pub name_fits : length e.name ≤ 16
  pub name_token : IsToken e.name
  pub password_token : IsToken e.password
  pub is_20bytes_passwd_token : IsToken e.is_20bytes_passwd
  pub max_session_num_token : IsToken e.max_session_num
  pub is_callin_token : IsToken e.is_callin
  pub auth_enable_token : IsToken e.auth_enable
  pub ipmi_msg_enable_token : IsToken e.ipmi_msg_enable
  pub is_enable_by_passwd_token : IsToken e.is_enable_by_passwd
  pub privilege_0_token : IsToken e.privilege_0
  pub snmp_password_token : IsToken e.snmp_password

-- The user that the line describes.
abbrev pub user_of : Entry → IpmiUser
user_of e = record zero_user {
  user_id = e.id;
  user_name = e.name;
  user_enabled = e.enabled;
  privilege = 0 ∷ e.privilege_1 ∷ [];
  user_lock_status = e.lock_state;
  user_login_rule = e.login_rule;
  user_login_interface = e.login_interface;
  is_exclude_user = e.is_exclude_user;
  is_password_expired = e.is_password_expired;
  role_id = e.role_id;
}

-- Every token of the line is one.
pub tokens-All : (e : Entry) → IsEntry e → All IsToken (byte_text e.id ∷ tokens_behind e)
tokens-All e h = (
  number e.id h.id_byte,
  (
    h.name_token,
    (
      h.password_token,
      (
        h.is_20bytes_passwd_token,
        (
          h.max_session_num_token,
          (
            h.is_callin_token,
            (
              number e.enabled h.enabled_byte,
              (
                h.auth_enable_token,
                (
                  h.ipmi_msg_enable_token,
                  (
                    h.is_enable_by_passwd_token,
                    (
                      h.privilege_0_token,
                      (
                        number e.privilege_1 h.privilege_1_byte,
                        (
                          h.snmp_password_token,
                          (
                            number e.lock_state h.lock_state_byte,
                            (
                              number e.login_rule h.login_rule_byte,
                              (
                                number e.login_interface h.login_interface_byte,
                                (
                                  number e.is_exclude_user h.is_exclude_user_byte,
                                  (
                                    number e.is_password_expired h.is_password_expired_byte,
                                    (number e.role_id h.role_id_byte, tt),
                                  ),
                                ),
                              ),
                            ),
                          ),
                        ),
                      ),
                    ),
                  ),
                ),
              ),
            ),
          ),
        ),
      ),
    ),
  ),
)
  where
    number : (v : ℕ) → v < 256 → IsToken (byte_text v)
    number v l = let (m, w, t) = byte_text_facts v l in t

has_char-append :
    (d : ℕ) (s t : Bytes)
    → has_char d s ≡ false
    → has_char d t ≡ false
    → has_char d (s ++ t) ≡ false
unfolding has_char
has_char-append d [] t h k = k
has_char-append d (c ∷ s) t h k = ground (arith, has_char-append d s t)

has_char-join :
    (t : Bytes) (ts : List Bytes) → All IsToken (t ∷ ts) → has_char b'\n' (join b':' t ts) ≡ false
unfolding has_char
has_char-join t [] h = h.0.1
has_char-join t (u ∷ us) h =
    has_char-append b'\n' t (b':' ∷ join b':' u us) h.0.1
      (let rest = has_char-join u us h.1 in ground arith)

-- The line holds no end of a line.
pub line_of-has_char : (e : Entry) → IsEntry e → has_char b'\n' (line_of e) ≡ false
line_of-has_char e h = has_char-join (byte_text e.id) (tokens_behind e) (tokens-All e h)

pub strsep-line_of :
    (e : Entry) → IsEntry e → strsep b':' (line_of e) ≡ byte_text e.id ∷ tokens_behind e
strsep-line_of e h = strsep-join b':' (byte_text e.id) (tokens_behind e) (
    All-mono IsToken (λ t. has_char b':' t ≡ false) (λ t i. i.0) (byte_text e.id ∷ tokens_behind e)
      (tokens-All e h))
