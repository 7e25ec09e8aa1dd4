-- ===== src/PamLogin/Args.antt =====
-- The arguments of the module, parse_args of
-- libiam/lualib-src/iam_core/pam_bmc_login/pam_bmc_login.c.
use account.Base.{
  Bool, true, false, Option, none, some, List, [], ◌∷◌, ◌==◌, if◌then◌else◌, Bytes, drop, get_or,
}
use account.Clib.Text.{codes, str_eq, starts_with}
use account.PamLogin.Status.{PamRet, success, service_err}

-- IMANA_OPTIONS, with the bits of `ctrl`.
pub record ImanaOptions : Type 0 where
  pub filename : Bytes
  pub opt_fail_on_error : Bool
  pub opt_quiet : Bool

-- DEFAULT_PRIVILEGE_FILE
abbrev pub default_privilege_file : Bytes
default_privilege_file = codes "/data/trust/ipmi"

abbrev pub default_options : ImanaOptions
default_options = record {
  filename = default_privilege_file;
  opt_fail_on_error = true;
  opt_quiet = false;
}

-- The loop over the arguments; an argument is none where it is a null pointer. An unknown option is
-- passed over.
unfoldable pub parse_args_from : List (Option Bytes) → ImanaOptions → PamRet × ImanaOptions
parse_args_from [] opts = (success, opts)
parse_args_from (none ∷ argv) opts = (service_err, opts)
parse_args_from (some a ∷ argv) opts =
    let with_file = parse_args_from argv (record opts { filename = drop 5 a }) in
    let with_fail = parse_args_from argv (record opts { opt_fail_on_error = true }) in
    let with_succeed = parse_args_from argv (record opts { opt_fail_on_error = false }) in
    let with_quiet = parse_args_from argv (record opts { opt_quiet = true }) in
    let unknown = parse_args_from argv opts in
    if starts_with (codes "file=") a
    then (if get_or (drop 5 a) 0 0 == b'/' then with_file else (service_err, opts))
    else if str_eq a (codes "onerr=fail")
    then with_fail
    else if str_eq a (codes "onerr=succeed")
    then with_succeed
    else if str_eq a (codes "quiet")
    then with_quiet
    else unknown

unfoldable pub parse_args : List (Option Bytes) → PamRet × ImanaOptions
parse_args argv = parse_args_from argv default_options
