-- ===== src/Config.antt =====
-- internal/config/mcp_merge.go: the MCP servers of a case, on top of those of the evaluation.
pub mod Expect
pub mod Lookup
pub mod Tests
use skill_up.Base.{
  Bool, true, false, not, ◌&&◌, ◌||◌, Option, none, some, List, [], ◌∷◌, Str, codes, str_eq,
  is_empty, ℕ, ◌==◌, leb, ltb, member, str_key, Result, ok, err, if◌then◌else◌,
}
use skill_up.Base.Trim.{is_space_1, is_space_2, is_space_3}
use skill_up.Base.Results.{◌>>=◌, ◌>>◌}

pub record McpServer : Type 0 where
  pub name : Str
  pub mode : Str
  pub transport : Str
  pub command : Str
  pub args : List Str
  pub endpoint : Str
  pub config_ref : Str

pub record McpConfig : Type 0 where
  pub servers : List McpServer

pub data Err : Type 0 where
  eval_name_required case_name_required : Err
  duplicate_eval_name duplicate_case_name not_mocked config_ref_required : Str → Err

abbrev pub mcp_mode_mocked : Str
mcp_mode_mocked = codes "mocked"

abbrev pub builtin_filesystem_mcp_server : Str
builtin_filesystem_mcp_server = codes "filesystem"

-- `strings.TrimSpace(s) == ""`.
unfoldable pub is_blank : Str → Bool
is_blank [] = true
is_blank (a ∷ []) = is_space_1 a
is_blank (a ∷ b ∷ []) = if is_space_1 a then is_space_1 b else is_space_2 a b
is_blank (a ∷ b ∷ c ∷ s) =
    let after_1 = is_blank (b ∷ c ∷ s) in
    let after_2 = is_blank (c ∷ s) in
    let after_3 = is_blank s in
    if is_space_1 a
    then after_1
    else if is_space_2 a b
    then after_2
    else if is_space_3 a b c
    then after_3
    else false

-- `return MCPConfig{}, e` if the test fails.
abbrev pub demand : Bool → Err → Result Err (Unit {0})
demand true e = ok tt
demand false e = err e

-- The loop over the servers of the evaluation; `seen` are the keys of `indexByName`.
unfoldable pub check_eval_servers : List Str → List McpServer → Result Err (Unit {0})
check_eval_servers seen [] = ok tt
check_eval_servers seen (s ∷ rest) = do
  demand (not (is_blank s.name)) eval_name_required
  demand (not (member s.name seen)) (duplicate_eval_name s.name)
  check_eval_servers (s.name ∷ seen) rest

unfoldable pub check_case_server : List Str → McpServer → Result Err (Unit {0})
check_case_server seen s = do
  demand (not (is_empty s.name)) case_name_required
  demand (not (member s.name seen)) (duplicate_case_name s.name)
  demand (str_eq s.mode mcp_mode_mocked) (not_mocked s.name)
  demand (str_eq s.name builtin_filesystem_mcp_server || not (is_blank s.config_ref))
      (config_ref_required s.name)

-- `merged.Servers[idx] = cloned` where the name has an index, and the append where it has none.
-- A copy of a server is the server, since nothing is mutated here.
unfoldable pub put_server : McpServer → List McpServer → List McpServer
put_server s [] = s ∷ []
put_server s (t ∷ ts) = if str_eq t.name s.name then s ∷ ts else t ∷ put_server s ts

unfoldable pub merge_servers :
    List Str → List McpServer → List McpServer → Result Err (List McpServer)
merge_servers seen [] merged = ok merged
merge_servers seen (s ∷ rest) merged = do
  check_case_server seen s
  merge_servers (s.name ∷ seen) rest (put_server s merged)

unfoldable pub merge_case_mcp : McpConfig → McpConfig → Result Err McpConfig
merge_case_mcp eval_mcp case_mcp = if is_empty case_mcp.servers then ok eval_mcp else (do
  check_eval_servers [] eval_mcp.servers
  servers ← merge_servers [] case_mcp.servers eval_mcp.servers
  ok (record { servers = servers }))
