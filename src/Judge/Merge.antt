-- ===== src/Judge/Merge.antt =====
-- internal/judge/factory.go: a case's judge on top of the one of the evaluation. A copy of a
-- structure is the structure, since nothing is mutated here.
pub mod Settings
use skill_up.Base.{
  zero, suc, ◌≡◌, refl, sym, ap, Option, none, some, List, [], ◌∷◌, Str, is_empty, if◌then◌else◌,
  arith,
}
use skill_up.Base.Int.{ℤ, pos, negsuc}
use skill_up.Event.{Float64}

pub record SkillRef : Type 0 where
  pub source : Str
  pub path : Str
  pub target : Str
  pub include : List Str
  pub exclude : List Str

pub record JudgeContextLimits : Type 0 where
  pub max_bytes : ℤ
  pub transcript_max_turns : ℤ
  pub workspace_diff_max_lines : ℤ

pub record JudgeContextAttachment : Type 0 where
  pub path : Str
  pub label : Str

-- `none` is the nil slice, which is not the empty one here.
pub record JudgeContextConfig : Type 0 where
  pub profile : Str
  pub final_message : Str
  pub transcript : Str
  pub workspace_diff : Str
  pub generated_files : Str
  pub limits : Option JudgeContextLimits
  pub attachments : Option (List JudgeContextAttachment)

-- The rules are passed on as they are, so their type is an argument.
pub record JudgeConfig (Rule : Type 0) : Type 0 where
  pub type : Str
  pub script_path : Str
  pub model : Str
  pub criteria : List Str
  pub skills : List SkillRef
  pub context : Option JudgeContextConfig
  pub pass_threshold : Option Float64
  pub timeout_seconds : Option ℤ
  pub success : List Rule
  pub failure : List Rule

-- `append([]T(nil), s...)`, which is nil for a slice without elements.
abbrev pub append_to_nil : {A : Type 0} → Option (List A) → Option (List A)
append_to_nil none = none
append_to_nil (some []) = none
append_to_nil (some (x ∷ xs)) = some (x ∷ xs)

-- A field of the case, unless it is empty; a limit of the case, if it is positive.
abbrev pub or_text : Str → Str → Str
or_text [] global = global
or_text (c ∷ cs) global = c ∷ cs

abbrev pub or_limit : ℤ → ℤ → ℤ
or_limit (pos (suc n)) global = pos (suc n)
or_limit (pos zero) global = global
or_limit (negsuc n) global = global

abbrev pub or_option : {A : Type 0} → Option A → Option A → Option A
or_option none global = global
or_option (some a) global = some a

abbrev no_limits : JudgeContextLimits
no_limits = record {
  max_bytes = pos 0;
  transcript_max_turns = pos 0;
  workspace_diff_max_lines = pos 0;
}

abbrev over_limits : JudgeContextLimits → JudgeContextLimits → JudgeContextLimits
over_limits l g = record {
  max_bytes = or_limit l.max_bytes g.max_bytes;
  transcript_max_turns = or_limit l.transcript_max_turns g.transcript_max_turns;
  workspace_diff_max_lines = or_limit l.workspace_diff_max_lines g.workspace_diff_max_lines;
}

unfoldable pub merge_judge_context_limits :
    Option JudgeContextLimits → Option JudgeContextLimits → Option JudgeContextLimits
merge_judge_context_limits none none = none
merge_judge_context_limits (some g) none = some g
merge_judge_context_limits none (some l) = some (over_limits l no_limits)
merge_judge_context_limits (some g) (some l) = some (over_limits l g)

unfoldable pub clone_judge_context_config : JudgeContextConfig → JudgeContextConfig
clone_judge_context_config c = record c { attachments = append_to_nil c.attachments }

abbrev pub or_attachments :
    Option (List JudgeContextAttachment)
    → Option (List JudgeContextAttachment)
    → Option (List JudgeContextAttachment)
or_attachments none global = append_to_nil global
or_attachments (some xs) global = append_to_nil (some xs)

unfoldable pub merge_judge_context_config :
    Option JudgeContextConfig → Option JudgeContextConfig → Option JudgeContextConfig
unfolding merge_judge_context_limits clone_judge_context_config
merge_judge_context_config none none = none
merge_judge_context_config none (some c) = some (clone_judge_context_config c)
merge_judge_context_config (some g) none = some (clone_judge_context_config g)
merge_judge_context_config (some g) (some c) = some (record {
  profile = or_text c.profile g.profile;
  final_message = or_text c.final_message g.final_message;
  transcript = or_text c.transcript g.transcript;
  workspace_diff = or_text c.workspace_diff g.workspace_diff;
  generated_files = or_text c.generated_files g.generated_files;
  limits = merge_judge_context_limits g.limits c.limits;
  attachments = or_attachments c.attachments g.attachments;
})

unfoldable pub merge_judge_config :
    {Rule : Type 0} → JudgeConfig Rule → JudgeConfig Rule → JudgeConfig Rule
unfolding merge_judge_context_config
merge_judge_config global case = if is_empty case.type then global else record case {
  model = or_text case.model global.model;
  pass_threshold = or_option case.pass_threshold global.pass_threshold;
  timeout_seconds = or_option case.timeout_seconds global.timeout_seconds;
  context = merge_judge_context_config global.context case.context;
}
