-- ===== src/Judge/Files.antt =====
-- internal/judge/judge.go: the paths of a workspace and the files behind them.
use skill_up.Base.{
  Bool, true, false, [], ◌∷◌, ◌++◌, Str, str_eq, has_prefix, if◌then◌else◌, Result, ok, err,
}
use skill_up.Base.Results.{◌>>=◌}

-- What `os.Stat` says of a path: it is there, `os.IsNotExist` holds of the error, or not.
pub data Stat : Type 0 where
  present absent : Stat
  stat_failed : Str → Stat

-- The operating system: `filepath.Join`, `filepath.Clean`, `os.Stat`, and `os.ReadFile`, whose
-- error is a text.
pub record Platform : Type 0 where
  pub path_join : Str → Str → Str
  pub clean : Str → Str
  pub stat : Str → Stat
  pub read_file : Str → Result Str Str

pub data PathErr : Type 0 where
  escapes : Str → PathErr
  failed : Str → PathErr

-- `string(filepath.Separator)`, on POSIX.
abbrev separator : Str
separator = 47 ∷ []

unfoldable pub safe_path : Platform → Str → Str → Result PathErr Str
safe_path p workspace rel =
    let cleaned = p.clean (p.path_join workspace rel) in
    let workspace_clean = p.clean workspace in
    if str_eq cleaned workspace_clean
    then ok cleaned
    else if has_prefix cleaned (workspace_clean ++ separator)
    then ok cleaned
    else err (escapes rel)

abbrev pub existence : Stat → Result PathErr Bool
existence present = ok true
existence absent = ok false
existence (stat_failed e) = err (failed e)

unfoldable pub file_exists_in_workspace : Platform → Str → Str → Result PathErr Bool
file_exists_in_workspace p workspace rel = do
  abs ← safe_path p workspace rel
  existence (p.stat abs)
