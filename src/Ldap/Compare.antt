-- ===== src/Ldap/Compare.antt =====
-- compare_ldap_sentence_without_tag of libiam/lualib-src/iam_core/ldap_auth.c.
pub mod Parts
use account.Base.{
  ℕ, zero, suc, Bool, true, false, ◌&&◌, Option, some, [], ◌∷◌, ◌==◌, if◌then◌else◌, Bytes, drop,
}
use account.Clib.Text.{str_eq_nocase}
use account.Status.{Ret, ok, err}

-- LDAP_TAG_SIZE
abbrev pub ldap_tag_size : ℕ
ldap_tag_size = 3

-- The two loops in one: `skip` bytes of a tag are still to be passed.
unfoldable pub same_contents : ℕ → Bytes → Bytes → Bool
same_contents skip [] d = true
same_contents (suc k) (x ∷ s) d = same_contents k s (drop 1 d)
same_contents zero (x ∷ s) [] = false
same_contents zero (x ∷ s) (y ∷ d) =
    let skip = (if x == b',' then ldap_tag_size else 0) in
    let rest = same_contents skip s d in if x == y then rest else false

unfoldable pub compare_ldap_sentence_without_tag : Option Bytes → Option Bytes → Ret
compare_ldap_sentence_without_tag (some src) (some dst) =
    if str_eq_nocase src dst && same_contents ldap_tag_size src dst then ok else err
compare_ldap_sentence_without_tag _ _ = err
