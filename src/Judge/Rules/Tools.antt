-- ===== src/Judge/Rules/Tools.antt =====
-- internal/judge/rule_based.go: what the rules on tool calls say.
use skill_up.Base.{
  ◌≡◌, refl, ◌↔◌, inl, inr, true, some, List, [], ◌∷◌, is_empty, str_eq, str_eq→eq, str_eq_refl,
  arith, Bool-cases, Option-cases, lookup, str_key, Some,
}
use skill_up.Judge.Rules.{Args, role_tool_call, ToolCall, Message, ToolRule, Library, tool_calls}
use skill_up.Judge.Rules.Patterns.{args_match, call_matches, any_call}

module _ {V : Type 0} (lib : Library V) where
  -- A call has the expected arguments: each with a value of the same text.
  abbrev pub HasArgs : Args V → Args V → Type 0
  HasArgs [] actual = Unit {0}
  HasArgs ((k, v) ∷ expected) actual =
      ((w : V) × (lookup k actual ≡ some w) × (lib.show v ≡ lib.show w)) × HasArgs expected actual

  -- A message is a call of the tool with the arguments.
  abbrev pub IsCall : ToolRule V → Message V → Type 0
  IsCall rule m =
      (m.role ≡ role_tool_call)
      × ((call : ToolCall V) × (m.tool_call ≡ some call)
          × (call.name ≡ rule.name)
          × HasArgs rule.args call.arguments)

  args_match-HasArgs :
      (expected actual : Args V) → (args_match lib expected actual ≡ true) ↔ HasArgs expected actual
  unfolding args_match
  args_match-HasArgs [] actual = ((λ h. tt), λ h. refl)
  args_match-HasArgs ((k, v) ∷ expected) actual =
      let (to, from) = args_match-HasArgs expected actual in
      (
        (λ h. elim (Option-cases (lookup k actual)) [
          | inl n ↦ ground (arith, h, n)
          | inr (w, q) ↦ (
            (w, q, str_eq→eq (lib.show v) (lib.show w) (ground (arith, h, q))),
            to (ground (arith, h, q)),
          )
        ]),
        λ ((w, q, e), r). ground (arith, q, e, str_eq_refl (lib.show w), from r),
      )

  no_args : (expected actual : Args V) → is_empty expected ≡ true → HasArgs expected actual
  no_args [] actual h = tt
  no_args (a ∷ expected) actual h = cc

  call_matches-IsCall :
      (rule : ToolRule V) (m : Message V)
      → m.role ≡ role_tool_call
      → (call_matches lib rule m.tool_call ≡ true) ↔ IsCall rule m
  call_matches-IsCall rule m is_tool = (
    (λ h. elim (Option-cases m.tool_call) [
      | inl n ↦ ground (arith, h, n)
      | inr (call, q) ↦ (
        is_tool,
        (
          call,
          q,
          str_eq→eq call.name rule.name (ground (arith, h, q)),
          elim (Bool-cases (is_empty rule.args)) [
            | inl y ↦ no_args rule.args call.arguments y
            | inr n ↦ (args_match-HasArgs rule.args call.arguments).0 (ground (arith, h, q, n))
          ],
        ),
      )
    ]),
    λ (r, (call, q, e, a)).
        ground
          (arith, q, e, str_eq_refl rule.name, (args_match-HasArgs rule.args call.arguments).1 a),
  )

  pub any_call-Some :
      (rule : ToolRule V) (ms : List (Message V))
      → (any_call lib rule (tool_calls ms) ≡ true) ↔ Some (IsCall rule) ms
  unfolding any_call tool_calls
  any_call-Some rule [] = ((λ h. absurd (cc h)), λ h. absurd h)
  any_call-Some rule (m ∷ ms) =
      let (to, from) = any_call-Some rule ms in
      elim (Bool-cases (str_eq m.role role_tool_call)) [
        | inr n ↦ (
          (λ h. inr (to (ground (arith, h, n)))),
          λ h. elim h [
            | inl c ↦ ground (arith, n, c.0, str_eq_refl role_tool_call)
            | inr r ↦ ground (arith, n, from r)
          ],
        )
        | inl y ↦
            let (to', from') = call_matches-IsCall rule m (str_eq→eq m.role role_tool_call y) in
            (
              (λ h. elim (Bool-cases (call_matches lib rule m.tool_call)) [
                | inl c ↦ inl (to' c)
                | inr n ↦ inr (to (ground (arith, h, n, y)))
              ]),
              λ h. elim h [
                | inl c ↦ ground (arith, y, from' c)
                | inr r ↦ ground (arith, y, from r)
              ],
            )
      ]
