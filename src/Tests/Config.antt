-- ===== src/Tests/Config.antt =====
-- Runs of the configuration.
use easy_sftp.Prelude.{
  ◌≡◌, ◌↔◌, ◌⊎◌, refl, if◌then◌else◌, [], ◌∷◌, Bytes, codes, eq_bytes, none, some, Result, ok, err,
}
use easy_sftp.Strings.{decimal, trim_space, trim_left_from, trim_right_space, space_width}
use easy_sftp.Planner.Build.{overlay, sync}
use easy_sftp.Planner.Build as Build
use easy_sftp.Config.Values.{
  pos, negsuc, parse_int, parse_mode, parse_bool, resolve_log_level, split_lines, newline_parts,
  kept_lines,
}
use easy_sftp.Config.Values.Numbers.{parse_int-decimal}
use easy_sftp.Config.Pairs.{UploadPair, valid_strategy, check_sync_targets, check_from}
use easy_sftp.Config.Validate.{Settings, defaults, validate}
use easy_sftp.Config.Validate.Valid.{IsValid, validate_iff}
use easy_sftp.Config.Load.{Env, set_inputs, check_removed_inputs, load_inline, load}
use easy_sftp.Config.Load.Loaded.{
  IsUnset, NoOldInputs, NoInlineInputs, NoStraySecrets, load-IsValid,
}

parse_int-decimal_example :
    (parse_int [] (pos 22) ≡ some (pos 22))
    × (parse_int (decimal 2222) (pos 22) ≡ some (pos 2222))
    × (parse_int (b'-' ∷ decimal 2223) (pos 22) ≡ some (negsuc 2222))
parse_int-decimal_example = parse_int-decimal 2222 (pos 22)

modes :
    (parse_mode (codes "755") ≡ some (some 493))
    × (parse_mode (codes "1000") ≡ none)
    × (parse_mode (codes "8") ≡ none)
unfolding parse_mode
modes = (refl, refl, refl)

lines : split_lines (codes " a ") ≡ codes "a" ∷ []
unfolding split_lines newline_parts kept_lines trim_space trim_left_from trim_right_space
    space_width
lines = refl

abbrev app : UploadPair
app = record {
  name = [];
  source = codes "dist";
  remote = codes "/w/app";
  strategy = some sync;
  ignore = [];
}

abbrev site : UploadPair
site = record {
  name = codes "site";
  source = codes "s";
  remote = codes "/w";
  strategy = some Build.clean;
  ignore = [];
}

-- Inputs of a run that needs no file.
abbrev inputs : Env
inputs name =
    if eq_bytes name (codes "HOST")
    then codes "h"
    else (if eq_bytes name (codes "USERNAME")
        then codes "u"
        else (if eq_bytes name (codes "PASSWORD")
            then codes "p"
            else (if eq_bytes name (codes "SOURCE")
                then codes "dist"
                else (if eq_bytes name (codes "TARGET")
                    then codes "/w/app"
                    else (if eq_bytes name (codes "MODE") then codes "sync" else [])))))

abbrev no_file : Settings → Bytes → Result (Unit {0}) Settings
no_file cfg path = err tt

abbrev loaded : Settings
loaded = record defaults {
  server = codes "h";
  username = codes "u";
  password = codes "p";
  port = pos 22;
  uploads = app ∷ [];
}

validate_iff_example : (validate loaded ≡ ok tt) ↔ IsValid loaded
validate_iff_example = validate_iff loaded

load-IsValid_example :
    IsValid loaded
    × NoOldInputs inputs
    × (IsUnset inputs (codes "CONFIG") ⊎ NoInlineInputs inputs)
    × NoStraySecrets inputs loaded
unfolding load load_inline check_removed_inputs set_inputs validate parse_int parse_bool parse_mode
    resolve_log_level split_lines newline_parts kept_lines trim_space trim_left_from
    trim_right_space space_width valid_strategy check_sync_targets check_from
load-IsValid_example = load-IsValid no_file inputs {cfg = loaded} refl
