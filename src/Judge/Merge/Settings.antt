-- ===== src/Judge/Merge/Settings.antt =====
-- internal/judge/factory.go: each setting of a merged context is the case's, if it has one.
use skill_up.Base.{
  ℕ, zero, suc, ◌≡◌, refl, Option, none, some, List, [], ◌∷◌, Str, is_empty, ◌∙◌, if◌then◌else◌,
}
use skill_up.Base.Int.{ℤ, pos, negsuc}
use skill_up.Judge.Merge.{
  JudgeContextLimits, JudgeContextAttachment, JudgeContextConfig, or_text, or_limit, append_to_nil,
  or_attachments, merge_judge_context_limits, clone_judge_context_config,
  merge_judge_context_config,
}

-- The settings of a context that are texts, and those that are limits.
pub data TextSetting : Type 0 where
  profile final_message transcript workspace_diff generated_files : TextSetting

pub data LimitSetting : Type 0 where
  max_bytes transcript_max_turns workspace_diff_max_lines : LimitSetting

-- A text setting; it is empty where it is not set.
abbrev pub text_of : TextSetting → Option JudgeContextConfig → Str
text_of s none = []
text_of profile (some c) = c.profile
text_of final_message (some c) = c.final_message
text_of transcript (some c) = c.transcript
text_of workspace_diff (some c) = c.workspace_diff
text_of generated_files (some c) = c.generated_files

-- A limit that is set is positive; 0 stands for one that is not.
abbrev positive : ℤ → ℕ
positive (pos n) = n
positive (negsuc n) = 0

abbrev limit_in : LimitSetting → Option JudgeContextLimits → ℕ
limit_in k none = 0
limit_in max_bytes (some l) = positive l.max_bytes
limit_in transcript_max_turns (some l) = positive l.transcript_max_turns
limit_in workspace_diff_max_lines (some l) = positive l.workspace_diff_max_lines

abbrev pub limit_of : LimitSetting → Option JudgeContextConfig → ℕ
limit_of k none = 0
limit_of k (some c) = limit_in k c.limits

-- The attachments, if a list of them is given, be it an empty one.
abbrev pub attachments_of : Option JudgeContextConfig → Option (List JudgeContextAttachment)
attachments_of none = none
attachments_of (some c) = c.attachments

abbrev pub attached : Option (List JudgeContextAttachment) → List JudgeContextAttachment
attached none = []
attached (some xs) = xs

-- The case's setting, unless it is not set.
abbrev pub text_over : Str → Str → Str
text_over case global = if is_empty case then global else case

abbrev pub limit_over : ℕ → ℕ → ℕ
limit_over zero global = global
limit_over (suc n) global = suc n

abbrev pub attachments_over :
    Option (List JudgeContextAttachment)
    → Option (List JudgeContextAttachment)
    → List JudgeContextAttachment
attachments_over none global = attached global
attachments_over (some xs) global = xs

over_none : (t : Str) → t ≡ text_over t []
over_none [] = refl
over_none (c ∷ t) = refl

or_text-over : (c g : Str) → or_text c g ≡ text_over c g
or_text-over [] g = refl
or_text-over (x ∷ c) g = refl

or_limit-over : (c g : ℤ) → positive (or_limit c g) ≡ limit_over (positive c) (positive g)
or_limit-over (pos zero) g = refl
or_limit-over (pos (suc n)) g = refl
or_limit-over (negsuc n) g = refl

clone_judge_context_config-text :
    (s : TextSetting) (c : JudgeContextConfig)
    → text_of s (some (clone_judge_context_config c)) ≡ text_of s (some c)
unfolding clone_judge_context_config
clone_judge_context_config-text profile c = refl
clone_judge_context_config-text final_message c = refl
clone_judge_context_config-text transcript c = refl
clone_judge_context_config-text workspace_diff c = refl
clone_judge_context_config-text generated_files c = refl

merge_judge_context_config-text :
    (s : TextSetting) (g c : Option JudgeContextConfig)
    → text_of s (merge_judge_context_config g c) ≡ text_over (text_of s c) (text_of s g)
unfolding merge_judge_context_config
merge_judge_context_config-text s none none = refl
merge_judge_context_config-text s (some g) none = clone_judge_context_config-text s g
merge_judge_context_config-text s none (some c) =
    clone_judge_context_config-text s c ∙ over_none (text_of s (some c))
merge_judge_context_config-text profile (some g) (some c) = or_text-over c.profile g.profile
merge_judge_context_config-text final_message (some g) (some c) =
    or_text-over c.final_message g.final_message
merge_judge_context_config-text transcript (some g) (some c) =
    or_text-over c.transcript g.transcript
merge_judge_context_config-text workspace_diff (some g) (some c) =
    or_text-over c.workspace_diff g.workspace_diff
merge_judge_context_config-text generated_files (some g) (some c) =
    or_text-over c.generated_files g.generated_files

over_zero : (n : ℕ) → n ≡ limit_over n 0
over_zero zero = refl
over_zero (suc n) = refl

merge_judge_context_limits-limit :
    (k : LimitSetting) (g c : Option JudgeContextLimits)
    → limit_in k (merge_judge_context_limits g c) ≡ limit_over (limit_in k c) (limit_in k g)
unfolding merge_judge_context_limits
merge_judge_context_limits-limit k none none = refl
merge_judge_context_limits-limit k (some g) none = refl
merge_judge_context_limits-limit max_bytes none (some c) = or_limit-over c.max_bytes (pos 0)
merge_judge_context_limits-limit transcript_max_turns none (some c) =
    or_limit-over c.transcript_max_turns (pos 0)
merge_judge_context_limits-limit workspace_diff_max_lines none (some c) =
    or_limit-over c.workspace_diff_max_lines (pos 0)
merge_judge_context_limits-limit max_bytes (some g) (some c) = or_limit-over c.max_bytes g.max_bytes
merge_judge_context_limits-limit transcript_max_turns (some g) (some c) =
    or_limit-over c.transcript_max_turns g.transcript_max_turns
merge_judge_context_limits-limit workspace_diff_max_lines (some g) (some c) =
    or_limit-over c.workspace_diff_max_lines g.workspace_diff_max_lines

merge_judge_context_config-limit :
    (k : LimitSetting) (g c : Option JudgeContextConfig)
    → limit_of k (merge_judge_context_config g c) ≡ limit_over (limit_of k c) (limit_of k g)
unfolding merge_judge_context_config clone_judge_context_config
merge_judge_context_config-limit k none none = refl
merge_judge_context_config-limit k (some g) none = refl
merge_judge_context_config-limit k none (some c) = over_zero (limit_in k c.limits)
merge_judge_context_config-limit k (some g) (some c) =
    merge_judge_context_limits-limit k g.limits c.limits

attached-append_to_nil :
    (x : Option (List JudgeContextAttachment)) → attached (append_to_nil x) ≡ attached x
attached-append_to_nil none = refl
attached-append_to_nil (some []) = refl
attached-append_to_nil (some (a ∷ xs)) = refl

merge_judge_context_config-attachments :
    (g c : Option JudgeContextConfig)
    → attached (attachments_of (merge_judge_context_config g c))
      ≡ attachments_over (attachments_of c) (attachments_of g)
unfolding merge_judge_context_config clone_judge_context_config
merge_judge_context_config-attachments none none = refl
merge_judge_context_config-attachments (some g) none = attached-append_to_nil g.attachments
merge_judge_context_config-attachments none (some c) = alone c.attachments
  where
    alone :
        (x : Option (List JudgeContextAttachment))
        → attached (append_to_nil x) ≡ attachments_over x none
    alone none = refl
    alone (some xs) = attached-append_to_nil (some xs)
merge_judge_context_config-attachments (some g) (some c) = both c.attachments
  where
    both :
        (x : Option (List JudgeContextAttachment))
        → attached (or_attachments x g.attachments) ≡ attachments_over x g.attachments
    both none = attached-append_to_nil g.attachments
    both (some xs) = attached-append_to_nil (some xs)

-- A merged context has the case's setting where the case has one, and else that of the evaluation:
-- a text is set if it is not empty, a limit if it is positive, and the attachments if a list of them
-- is given, which replaces that of the evaluation also if it is empty.
pub merge_judge_context_config-over :
    (s : TextSetting) (k : LimitSetting) (g c : Option JudgeContextConfig)
    → let m = merge_judge_context_config g c in
      (text_of s m ≡ text_over (text_of s c) (text_of s g))
      × (limit_of k m ≡ limit_over (limit_of k c) (limit_of k g))
      × (attached (attachments_of m) ≡ attachments_over (attachments_of c) (attachments_of g))
merge_judge_context_config-over s k g c = (
  merge_judge_context_config-text s g c,
  merge_judge_context_config-limit k g c,
  merge_judge_context_config-attachments g c,
)
