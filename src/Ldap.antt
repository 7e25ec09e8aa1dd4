-- ===== src/Ldap.antt =====
-- The LDAP login of libiam/lualib-src/iam_core/ldap_auth.c: its status codes, and its configuration
-- PAM_LDAP_CONFIG_S of ldap_auth.h.
pub mod Compare
pub mod Search
pub mod Privilege
pub mod Escape
pub mod User
pub mod Dn
pub mod Config
pub mod Owner
pub mod Bind
pub mod Login
use account.Base.{ℕ, Bool, true, false, Option, List, Bytes}
use account.Base.Int.{ℤ}

-- LDAP_AUTH_SUCCESS, LDAP_AUTH_ERROR, LDAP_AUTH_INVALID_PASSWD, LDAP_AUTH_UNAVAIL, LDAP_AUTH_UNKNOWN
pub data LdapRet : Type 0 where
  success error invalid_passwd unavail unknown : LdapRet

abbrev pub is_success : LdapRet → Bool
is_success LdapRet.success = true
is_success _ = false

-- LDAP_SCOPE_BASE, LDAP_SCOPE_ONELEVEL, LDAP_SCOPE_SUBTREE
pub data Scope : Type 0 where
  base_scope onelevel subtree : Scope

-- PAM_LDAP_CONFIG_S; a pointer that is NULL is `none`. A base that is not set yet is empty.
pub record LdapConfig : Type 0 where
  pub uri : Option Bytes
  pub host : Option Bytes
  pub port : ℤ
  pub base : Bytes
  pub groupdn : List (Option Bytes)
  pub scope : Scope
  pub version : ℕ
  pub timelimit : ℕ
  pub bind_timelimit : ℕ
  pub restart : ℕ
  pub cert_status : ℕ
  pub cert_verifi_level : ℕ
  pub dn_with_uid : ℕ

-- LDAP_USERDN_MAX_LEN
abbrev pub ldap_userdn_max_len : ℕ
ldap_userdn_max_len = 766

-- LDAP_GROUP_INFO
pub record LdapGroupInfo : Type 0 where
  pub group_inner_id : ℕ
  pub group_name : Bytes
  pub group_folder : Bytes
  pub group_priv : ℕ

-- LDAP_AUTH_INFO, less the directory of the certificates and the ciphers.
pub record LdapAuthInfo : Type 0 where
  pub serverid : ℕ
  pub hostaddr : Bytes
  pub server_port : ℤ
  pub user_domain : Bytes
  pub folder : Bytes
  pub bind_dn : Bytes
  pub bind_dn_pwd : Bytes
  pub cert_verify_enabled : ℕ
  pub cert_verify_level : ℕ
  pub search_scope : Bytes
  pub time_limit : ℕ
  pub bind_time_limit : ℕ
  pub server_version : ℕ
  pub group_cnt : ℕ
  pub groups : List LdapGroupInfo
  pub username : Bytes
  pub password : Bytes
