-- ===== src/Config/Tests.antt =====
-- internal/config/mcp_merge.go: a case that replaces one server and adds another.
use skill_up.Base.{◌≡◌, refl, List, [], ◌∷◌, ◌++◌, Str, codes, ok, str_eq, member}
use skill_up.Config.{
  McpServer, McpConfig, mcp_mode_mocked, merge_case_mcp, check_eval_servers, check_case_server,
  merge_servers, put_server, is_blank,
}
use skill_up.Config.Lookup.{find_server, or_else, names, merge_case_mcp-find}

abbrev server : Str → Str → McpServer
server name ref = record {
  name = name;
  mode = mcp_mode_mocked;
  transport = [];
  command = [];
  args = [];
  endpoint = [];
  config_ref = ref;
}

abbrev of_eval : McpConfig
of_eval = record { servers = server (codes "a") (codes "x") ∷ server (codes "b") (codes "x") ∷ [] }

abbrev of_case : McpConfig
of_case = record { servers = server (codes "b") (codes "y") ∷ server (codes "c") (codes "y") ∷ [] }

abbrev of_both : McpConfig
of_both = record {
  servers =
      server (codes "a") (codes "x")
      ∷ server (codes "b") (codes "y")
      ∷ server (codes "c") (codes "y")
      ∷ [];
}

merged : merge_case_mcp of_eval of_case ≡ ok of_both
unfolding merge_case_mcp check_eval_servers check_case_server merge_servers put_server is_blank
    str_eq member
merged = refl

merge_case_mcp-find_example :
    ((name : Str)
      → find_server name of_both.servers
        ≡ or_else (find_server name of_case.servers) (find_server name of_eval.servers))
    × ((x : List Str) × (names of_both.servers ≡ names of_eval.servers ++ x))
merge_case_mcp-find_example = merge_case_mcp-find of_eval of_case of_both merged
