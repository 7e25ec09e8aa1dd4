-- ===== src/User.antt =====
-- The user record of libiam/lualib-src/iam_core/common/common.h. The arrays of characters hold their
-- strings.
use account.Base.{ℕ, List, Bytes}

-- IPMI_USER_S; privilege has USER_CHANNEL_MAX_NUM = 2 entries.
pub record IpmiUser : Type 0 where
  pub user_id : ℕ
  pub user_name : Bytes
  pub pass_word : Bytes
  pub is_20bytes_passwd : ℕ
  pub max_session_num : ℕ
  pub callin_enabled : ℕ
  pub user_enabled : ℕ
  pub auth_enabled : ℕ
  pub ipmi_msg_enabled : ℕ
  pub is_enable_by_passwd : ℕ
  pub privilege : List ℕ
  pub snmp_privacy_password : Bytes
  pub user_lock_status : ℕ
  pub user_login_rule : ℕ
  pub user_login_interface : ℕ
  pub is_exclude_user : ℕ
  pub is_password_expired : ℕ
  pub role_id : ℕ
