-- ===== src/Ldap/Dn/Join.antt =====
-- What the DNs of libiam/lualib-src/iam_core/ldap_auth_parse_info.c are where nothing is cut off.
use account.Base.{
  ℕ, zero, suc, ◌+◌, ◌-◌, ◌≤◌, ◌<◌, ◌≡◌, refl, sym, ap, ◌∙◌, false, List, [], ◌∷◌, ◌++◌, map, arith,
  Bytes, length, take, length-append, reverse,
}
use mathlib.Core.List.{append_assoc, append-nil}
use account.Clib.Text.{codes, join, strtok, strsep, str_eq}
use account.Ldap.{ldap_userdn_max_len}
use account.Ldap.Dn.{
  part, append_parts, drop_last, append_domain, base_folder, parse_ldap_base_info,
  ldap_groupdn_max_len, ldap_groupfolder_max_len, TagCase, cn_tag, ou_tag, dc_tag,
  ldap_group_forder_check, parse_mutil_path, append_folder, parse_ldap_group_info,
}

-- The parts, written out.
unfoldable pub parts : Bytes → List Bytes → Bytes
parts tag [] = []
parts tag (t ∷ ts) = part tag t ++ parts tag ts

pub take_all : (n : ℕ) (s : Bytes) → length s ≤ n → take n s ≡ s
take_all zero [] h = refl
take_all (suc n) [] h = refl
take_all zero (c ∷ s) h = absurd (omega arith)
take_all (suc n) (c ∷ s) h = ap (◌∷◌ c) (take_all n s (omega arith))

append_parts-parts :
    (size : ℕ) (tag s : Bytes) (ts : List Bytes)
    → length (s ++ parts tag ts) < size
    → append_parts size tag s ts ≡ s ++ parts tag ts
unfolding append_parts parts
append_parts-parts size tag s [] h = sym (append-nil s)
append_parts-parts size tag s (t ∷ ts) h =
    let whole = append_assoc s (part tag t) (parts tag ts) in
    let left : length ((s ++ part tag t) ++ parts tag ts) < size = rw whole h in
    let short : length (s ++ part tag t) ≤ size - 1 =
      omega (arith, left, length-append (s ++ part tag t) (parts tag ts)) in
    rw (take_all (size - 1) (s ++ part tag t) short)
      (append_parts-parts size tag (s ++ part tag t) ts left ∙ whole)

drop_last-append : (s : Bytes) (c : ℕ) → drop_last (s ++ (c ∷ [])) ≡ s
unfolding drop_last
drop_last-append [] c = refl
drop_last-append (x ∷ []) c = refl
drop_last-append (x ∷ y ∷ s) c = ap (◌∷◌ x) (drop_last-append (y ∷ s) c)

-- `tag=value`
abbrev pub pair : Bytes → Bytes → Bytes
pair tag value = tag ++ (b'=' ∷ value)

part-pair : (tag t : Bytes) → part tag t ≡ pair tag t ++ (b',' ∷ [])
part-pair tag t = sym (append_assoc tag (b'=' ∷ t) (b',' ∷ []))

parts-join :
    (tag t : Bytes) (ts : List Bytes)
    → parts tag (t ∷ ts) ≡ join b',' (pair tag t) (map (pair tag) ts) ++ (b',' ∷ [])
unfolding parts
parts-join tag t [] = append-nil (part tag t) ∙ part-pair tag t
parts-join tag t (u ∷ us) =
    ap (λ x. part tag t ++ x) (parts-join tag u us)
    ∙ (ap (λ x. x ++ (join b',' (pair tag u) (map (pair tag) us) ++ (b',' ∷ []))) (part-pair tag t)
        ∙ (append_assoc (pair tag t) (b',' ∷ [])
              (join b',' (pair tag u) (map (pair tag) us) ++ (b',' ∷ []))
            ∙ sym (
                append_assoc (pair tag t) (b',' ∷ join b',' (pair tag u) (map (pair tag) us))
                  (b',' ∷ []))))

append_domain-join :
    (size : ℕ) (tag s domain t : Bytes) (ts : List Bytes)
    → strtok b'.' domain ≡ t ∷ ts
    → length (s ++ join b',' (pair tag t) (map (pair tag) ts)) + 1 < size
    → append_domain size tag s domain ≡ s ++ join b',' (pair tag t) (map (pair tag) ts)
unfolding append_domain
append_domain-join size tag s domain t ts e h =
    let j = join b',' (pair tag t) (map (pair tag) ts) in
    let whole : s ++ parts tag (t ∷ ts) ≡ (s ++ j) ++ (b',' ∷ []) =
      ap (λ x. s ++ x) (parts-join tag t ts) ∙ sym (append_assoc s j (b',' ∷ [])) in
    let fits : length (s ++ parts tag (t ∷ ts)) < size =
      rw whole (omega (arith, h, length-append (s ++ j) (b',' ∷ []))) in
    rw (append_domain, e)
      (ap drop_last (append_parts-parts size tag s (t ∷ ts) fits ∙ whole)
        ∙ drop_last-append (s ++ j) b',')

-- For a domain with a token, parse_ldap_base_info gives the folder, after CN= where it is Users, and a
-- DC= part for each token of the domain between dots, in order and joined by commas; with its
-- terminator and one more byte this is at most 766 bytes long.
pub parse_ldap_base_info-join :
    (domain folder t : Bytes) (ts : List Bytes)
    → strtok b'.' domain ≡ t ∷ ts
    → length (base_folder folder ++ join b',' (pair (codes "DC") t) (map (pair (codes "DC")) ts))
        + 1
      < ldap_userdn_max_len
    → parse_ldap_base_info domain folder
      ≡ base_folder folder ++ join b',' (pair (codes "DC") t) (map (pair (codes "DC")) ts)
unfolding parse_ldap_base_info
parse_ldap_base_info-join domain folder t ts e h =
    let prefix = base_folder folder in
    let whole = take_all (ldap_userdn_max_len - 1) prefix (
      omega (
        arith,
        h,
        length-append prefix (join b',' (pair (codes "DC") t) (map (pair (codes "DC")) ts)),
      )) in
    ap (λ x. append_domain ldap_userdn_max_len (codes "DC") x domain) whole
    ∙ append_domain-join ldap_userdn_max_len (codes "DC") prefix domain t ts e h

-- The parts of the DN of a group.
abbrev pub group_parts : TagCase → Bytes → List Bytes → Bytes → List Bytes → Bytes
group_parts tag_case name folders t ts =
    (part (cn_tag tag_case) name ++ parts (ou_tag tag_case) folders)
    ++ join b',' (pair (dc_tag tag_case) t) (map (pair (dc_tag tag_case)) ts)

no_token :
    (folder p : Bytes) (ps : List Bytes) → strtok b'/' folder ≡ p ∷ ps → str_eq folder [] ≡ false
unfolding str_eq strsep
no_token [] p ps e = cc
no_token (c ∷ s) p ps e = refl

parse_mutil_path-parts :
    (tag_case : TagCase) (s folder p : Bytes) (ps : List Bytes)
    → strtok b'/' folder ≡ p ∷ ps
    → length (s ++ parts (ou_tag tag_case) (reverse (p ∷ ps))) < ldap_groupdn_max_len
    → parse_mutil_path tag_case s folder ≡ s ++ parts (ou_tag tag_case) (reverse (p ∷ ps))
unfolding parse_mutil_path
parse_mutil_path-parts tag_case s folder p ps e h =
    rw (parse_mutil_path, e)
      (append_parts-parts ldap_groupdn_max_len (ou_tag tag_case) s (reverse (p ∷ ps)) h)

-- For a domain and a folder of at most 255 bytes with tokens, the folder beginning with no OU= or CN=,
-- parse_ldap_group_info gives the CN part of the name, an OU part for each token of the folder between
-- slashes, the last one first, and a DC part for each token of the domain between dots, in order, all
-- joined by commas; with its terminator and one more byte this is at most 1021 bytes long.
pub parse_ldap_group_info-parts :
    (tag_case : TagCase) (domain folder name p t : Bytes) (ps ts : List Bytes)
    → length domain ≤ ldap_groupfolder_max_len
    → length folder ≤ ldap_groupfolder_max_len
    → ldap_group_forder_check folder ≡ false
    → strtok b'/' folder ≡ p ∷ ps
    → strtok b'.' domain ≡ t ∷ ts
    → length (group_parts tag_case name (reverse (p ∷ ps)) t ts) + 1 < ldap_groupdn_max_len
    → parse_ldap_group_info tag_case domain folder name
      ≡ group_parts tag_case name (reverse (p ∷ ps)) t ts
unfolding parse_ldap_group_info
parse_ldap_group_info-parts tag_case domain folder name p t ps ts ld lf c ef ed h =
    let cn = part (cn_tag tag_case) name in
    let ou = parts (ou_tag tag_case) (reverse (p ∷ ps)) in
    let dc = join b',' (pair (dc_tag tag_case) t) (map (pair (dc_tag tag_case)) ts) in
    let all_size = length-append (cn ++ ou) dc in
    let size = length-append cn ou in
    let start = take_all (ldap_groupdn_max_len - 1) cn (omega (arith, h, all_size, size)) in
    let mid : length (cn ++ ou) < ldap_groupdn_max_len = omega (arith, h, all_size, size) in
    let path : append_folder tag_case cn folder ≡ cn ++ ou =
      rw (c, no_token folder p ps ef) (parse_mutil_path-parts tag_case cn folder p ps ef mid) in
    rw
      (
        take_all ldap_groupfolder_max_len folder lf,
        take_all ldap_groupfolder_max_len domain ld,
        start,
        path,
      )
      (append_domain-join ldap_groupdn_max_len (dc_tag tag_case) (cn ++ ou) domain t ts ed h)
