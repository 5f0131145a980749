-- ===== src/Config/Lookup.antt =====
-- internal/config/mcp_merge.go: which server a name means after the merge.
use skill_up.Base.{
  ◌≡◌, refl, ◌∙◌, sym, true, false, Option, none, some, List, [], ◌∷◌, Str, str_eq, str_eq→eq,
  str_eq_refl, member, str_key, Result, ok, if◌then◌else◌, arith, ap, Bool-cases, inl, inr, ◌++◌,
}
use mathlib.Core.List.{append-nil, append_assoc}
use skill_up.Base.Results.{>>=-eq-ok}
use skill_up.Config.{
  McpServer, McpConfig, Err, check_eval_servers, check_case_server, put_server, merge_servers,
  merge_case_mcp,
}

-- The server of a name.
unfoldable pub find_server : Str → List McpServer → Option McpServer
find_server name [] = none
find_server name (s ∷ ss) = if str_eq s.name name then some s else find_server name ss

abbrev pub or_else : Option McpServer → Option McpServer → Option McpServer
or_else none o = o
or_else (some s) o = some s

find-put :
    (name : Str) (s : McpServer) (ss : List McpServer)
    → find_server name (put_server s ss)
      ≡ (if str_eq s.name name then some s else find_server name ss)
unfolding find_server put_server
find-put name s [] = refl
find-put name s (t ∷ ts) = ground (
  arith,
  find-put name s ts,
  str_eq→eq t.name s.name,
  str_eq→eq t.name name,
  str_eq→eq s.name name,
  str_eq_refl t.name,
)

check_case_server-new :
    (seen : List Str) (s : McpServer) (u : Unit {0})
    → check_case_server seen s ≡ ok u
    → member s.name seen ≡ false
unfolding check_case_server
check_case_server-new seen s u h = ground (arith, h)

merge_servers-cons :
    (seen : List Str) (s : McpServer) (ss merged m : List McpServer)
    → merge_servers seen (s ∷ ss) merged ≡ ok m
    → (member s.name seen ≡ false) × (merge_servers (s.name ∷ seen) ss (put_server s merged) ≡ ok m)
unfolding merge_servers
merge_servers-cons seen s ss merged m h =
    let (u, e, f) = >>=-eq-ok (check_case_server seen s) _ h in
    (check_case_server-new seen s u e, f)

seen-absent :
    (name : Str) (seen : List Str) (ss merged m : List McpServer)
    → member name seen ≡ true
    → merge_servers seen ss merged ≡ ok m
    → find_server name ss ≡ none
unfolding find_server member
seen-absent name seen [] merged m h e = refl
seen-absent name seen (s ∷ ss) merged m h e =
    let (new, f) = merge_servers-cons seen s ss merged m e in
    ground (
      arith,
      h,
      new,
      str_eq→eq s.name name,
      seen-absent name (s.name ∷ seen) ss (put_server s merged) m (ground (arith, h)) f,
    )

merge_servers-find :
    (name : Str) (seen : List Str) (ss merged m : List McpServer)
    → merge_servers seen ss merged ≡ ok m
    → find_server name m ≡ or_else (find_server name ss) (find_server name merged)
unfolding merge_servers find_server member
merge_servers-find name seen [] merged m e = ground (arith, e)
merge_servers-find name seen (s ∷ ss) merged m e =
    let (new, f) = merge_servers-cons seen s ss merged m e in
    let later = merge_servers-find name (s.name ∷ seen) ss (put_server s merged) m f in
    elim (Bool-cases (str_eq s.name name)) [
      | inl y ↦
          let gone = seen-absent name (s.name ∷ seen) ss (put_server s merged) m (rw y refl) f in
          ground (arith, later, gone, find-put name s merged, y)
      | inr n ↦ ground (arith, later, find-put name s merged, n)
    ]

-- The names that servers have, in order.
abbrev pub names : List McpServer → List Str
names [] = []
names (s ∷ ss) = s.name ∷ names ss

ok-injective : (a b : List McpServer) → ◌≡◌ {A = Result Err (List McpServer)} (ok a) (ok b) → a ≡ b
ok-injective a b h = ground (arith, h)

put_server-names :
    (s : McpServer) (ss : List McpServer)
    → (x : List Str) × (names (put_server s ss) ≡ names ss ++ x)
unfolding put_server
put_server-names s [] = (s.name ∷ [], refl)
put_server-names s (t ∷ ts) = elim (Bool-cases (str_eq t.name s.name)) [
  | inl y ↦ (
    [],
    rw y (
        ap (λ n. n ∷ names ts) (sym (str_eq→eq t.name s.name y))
        ∙ sym (append-nil (t.name ∷ names ts))),
  )
  | inr n ↦ let (x, e) = put_server-names s ts in (x, rw n (ap (λ ns. t.name ∷ ns) e))
]

merge_servers-names :
    (seen : List Str) (ss merged m : List McpServer)
    → merge_servers seen ss merged ≡ ok m
    → (x : List Str) × (names m ≡ names merged ++ x)
unfolding merge_servers
merge_servers-names seen [] merged m e =
    ([], sym (ap names (ok-injective merged m e)) ∙ sym (append-nil (names merged)))
merge_servers-names seen (s ∷ ss) merged m e =
    let (new, f) = merge_servers-cons seen s ss merged m e in
    let (x, p) = merge_servers-names (s.name ∷ seen) ss (put_server s merged) m f in
    let (y, q) = put_server-names s merged in
    (y ++ x, p ∙ ap (λ ns. ns ++ x) q ∙ append_assoc (names merged) y x)

-- The merge of servers that are there.
merge_some :
    (s : McpServer) (ss es : List McpServer) (merged : McpConfig)
    → merge_case_mcp (record { servers = es }) (record { servers = s ∷ ss }) ≡ ok merged
    → merge_servers [] (s ∷ ss) es ≡ ok merged.servers
unfolding merge_case_mcp
merge_some s ss es merged h =
    let (u, e, f) = >>=-eq-ok (check_eval_servers [] es) _ h in
    let (m, e', f') = >>=-eq-ok (merge_servers [] (s ∷ ss) es) _ f in ground (arith, e', f')

merged_lists :
    (cs es : List McpServer) (merged : McpConfig)
    → merge_case_mcp (record { servers = es }) (record { servers = cs }) ≡ ok merged
    → ((name : Str)
        → find_server name merged.servers ≡ or_else (find_server name cs) (find_server name es))
      × ((x : List Str) × (names merged.servers ≡ names es ++ x))
unfolding merge_case_mcp find_server
merged_lists [] es merged h =
    let same : merged.servers ≡ es = ground (arith, h) in
    ((λ name. ap (find_server name) same), ([], ap names same ∙ sym (append-nil (names es))))
merged_lists (s ∷ ss) es merged h =
    let m = merge_some s ss es merged h in
    (
      (λ name. merge_servers-find name [] (s ∷ ss) es merged.servers m),
      merge_servers-names [] (s ∷ ss) es merged.servers m,
    )

-- A merge that succeeds: a name means the case's server of that name if there is one, and
-- otherwise the evaluation's, whole; and the evaluation's names stay in front, in their order.
pub merge_case_mcp-find :
    (eval_mcp case_mcp merged : McpConfig)
    → merge_case_mcp eval_mcp case_mcp ≡ ok merged
    → ((name : Str)
        → find_server name merged.servers
          ≡ or_else (find_server name case_mcp.servers) (find_server name eval_mcp.servers))
      × ((x : List Str) × (names merged.servers ≡ names eval_mcp.servers ++ x))
merge_case_mcp-find eval_mcp case_mcp merged h =
    merged_lists case_mcp.servers eval_mcp.servers merged h
