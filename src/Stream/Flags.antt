-- ===== src/Stream/Flags.antt =====
-- internal/cli/run_events.go: the flags `--event-log` and `--event-attribute`.
use mathlib.Core.List.{append-nil, append_assoc}
use skill_up.Base.{
  refl, insert, ◌≡◌, ◌∙◌, sym, ap, subst, Bool, true, false, not, ◌||◌, Option, none, some, List,
  [], ◌∷◌, ◌++◌, Str, codes, str_eq, is_empty, Result, ok, err, lookup, str_key, ◌==◌,
  if◌then◌else◌, arith, Bool-cases, Option-cases, inl, inr,
}
use skill_up.Base.Results.{◌>>=◌, ◌>>◌, >>=-eq-ok}
use skill_up.Event
use skill_up.Publisher.Attributes.{validate_user_attributes}
use skill_up.Lifecycle.Planning.{is_some}
use skill_up.Stream.{
  Err, unless, attribute_without_log, empty_path, stdout_path, invalid_attribute,
  duplicate_attribute, invalid_attributes,
}

pub record EvaluationEventOptions : Type 0 where
  pub enabled : Bool
  pub path : Str
  pub attributes : List (Str × Str)

abbrev disabled : EvaluationEventOptions
disabled = record { enabled = false; path = []; attributes = [] }

-- `strings.Cut(s, "=")`: what stands before and after the first `=`, if there is one.
unfoldable pub cut : Str → Option (Str × Str)
cut [] = none
cut (c ∷ s) =
    let rest = cut s in
    if c == 61 then some ([], s) else elim rest [ none ↦ none | some (k, v) ↦ some (c ∷ k, v) ]

abbrev pub split_attribute : Str → Option (Str × Str) → Result Err (Str × Str)
split_attribute value none = err (invalid_attribute value)
split_attribute value (some (k, v)) =
    if is_empty k || is_empty v then err (invalid_attribute value) else ok (k, v)

-- The loop over the flags, with the map that is filled.
unfoldable pub collect_attributes : List Str → List (Str × Str) → Result Err (List (Str × Str))
collect_attributes [] attributes = ok attributes
collect_attributes (value ∷ rest) attributes = do
  e ← split_attribute value (cut value)
  unless (not (is_some (lookup e.0 attributes))) (duplicate_attribute e.0)
  collect_attributes rest (insert e.0 e.1 attributes)

abbrev validated : List (Str × Str) → Option Event.Err → Result Err (List (Str × Str))
validated attributes none = ok attributes
validated attributes (some e) = err (invalid_attributes e)

unfoldable pub parse_evaluation_event_attributes : List Str → Result Err (List (Str × Str))
parse_evaluation_event_attributes values = do
  attributes ← collect_attributes values []
  validated attributes (validate_user_attributes attributes)

-- A flag that the command has: whether it was given, and its value.
pub record Flag (A : Type 0) : Type 0 where
  pub changed : Bool
  pub value : A

abbrev given : {A : Type 0} → Option (Flag A) → Bool
given none = false
given (some f) = f.changed

abbrev attribute_values : Option (Flag (List Str)) → List Str
attribute_values none = []
attribute_values (some f) = f.value

abbrev options_of : Str → List Str → Result Err EvaluationEventOptions
options_of path values = do
  unless (not (is_empty path)) empty_path
  unless (not (str_eq path (codes "-"))) stdout_path
  attributes ← parse_evaluation_event_attributes values
  ok (record { enabled = true; path = path; attributes = attributes })

unfoldable pub evaluation_event_options_from_flags :
    Option (Flag Str) → Option (Flag (List Str)) → Result Err EvaluationEventOptions
evaluation_event_options_from_flags none attribute_flag =
    if given attribute_flag then err attribute_without_log else ok disabled
evaluation_event_options_from_flags (some log) attribute_flag =
    if log.changed
    then options_of log.value (attribute_values attribute_flag)
    else if given attribute_flag
    then err attribute_without_log
    else ok disabled

cut-join : (s k v : Str) → cut s ≡ some (k, v) → s ≡ k ++ 61 ∷ v
unfolding cut
cut-join [] k v h = cc
cut-join (c ∷ s) k v h = elim (Bool-cases (c == 61)) [
  | inl y ↦ ground (arith, h, y)
  | inr n ↦ elim (Option-cases (cut s)) [
    | inl e ↦ ground (arith, h, n, e)
    | inr ((j, w), e) ↦
        let first : c ∷ j ≡ k = ground (arith, h, n, e) in
        let second : w ≡ v = ground (arith, h, n, e) in
        ap (λ t. c ∷ t) (cut-join s j w e)
        ∙ ap (λ t. t ++ 61 ∷ w) first
        ∙ ap (λ t. k ++ 61 ∷ t) second
  ]
]

-- The flag that gives an attribute.
abbrev pub attribute_text : Str × Str → Str
attribute_text (k, v) = k ++ 61 ∷ v

-- The texts of a map's entries.
abbrev pub texts : List (Str × Str) → List Str
texts [] = []
texts (e ∷ m) = attribute_text e ∷ texts m

texts-insert :
    (e : Str × Str) (m : List (Str × Str))
    → is_some (lookup e.0 m) ≡ false
    → texts (insert e.0 e.1 m) ≡ texts m ++ attribute_text e ∷ []
unfolding lookup insert
texts-insert e [] h = refl
texts-insert e ((k, v) ∷ m) h = elim (Bool-cases (str_eq k e.0)) [
  | inl y ↦ absurd (ground (arith, h, y))
  | inr n ↦ rw n (ap (λ t. attribute_text (k, v) ∷ t) (texts-insert e m (ground (arith, h, n))))
]

unless-ok : (b : Bool) (e : Err) (u : Unit {0}) → unless (not b) e ≡ ok u → b ≡ false
unless-ok b e u h = ground (arith, h)

split_attribute-cut :
    (value : Str) (o : Option (Str × Str)) (e : Str × Str)
    → split_attribute value o ≡ ok e
    → o ≡ some e
split_attribute-cut value o e h = ground (arith, h)

collect_attributes-texts :
    (values : List Str) (attributes m : List (Str × Str))
    → collect_attributes values attributes ≡ ok m
    → texts m ≡ texts attributes ++ values
unfolding collect_attributes
collect_attributes-texts [] attributes m h =
    ap (λ a. texts a) (ok-injective m attributes (sym h)) ∙ sym (append-nil (texts attributes))
  where
    ok-injective :
        (a b : List (Str × Str)) → ◌≡◌ {A = Result Err (List (Str × Str))} (ok a) (ok b) → a ≡ b
    ok-injective a b h = ground (arith, h)
collect_attributes-texts (value ∷ rest) attributes m h =
    let (e, p, f) = >>=-eq-ok (split_attribute value (cut value)) _ h in
    let (u, q, g) =
      >>=-eq-ok (unless (not (is_some (lookup e.0 attributes))) (duplicate_attribute e.0)) _ f in
    let fresh = unless-ok (is_some (lookup e.0 attributes)) (duplicate_attribute e.0) u q in
    let same = cut-join value e.0 e.1 (split_attribute-cut value (cut value) e p) in
    collect_attributes-texts rest (insert e.0 e.1 attributes) m g
    ∙ ap (λ t. t ++ rest) (texts-insert e attributes fresh)
    ∙ append_assoc (texts attributes) (attribute_text e ∷ []) rest
    ∙ ap (λ t. texts attributes ++ t ∷ rest) (sym same)

validated-ok :
    (attributes m : List (Str × Str)) (o : Option Event.Err)
    → validated attributes o ≡ ok m
    → (attributes ≡ m) × (o ≡ none)
validated-ok attributes m o h = ground (arith, h)

-- The attributes that are parsed are those of the flags, each written as key, `=` and value, in
-- their order; and they are valid for the publisher.
pub parse_evaluation_event_attributes-texts :
    (values : List Str) (m : List (Str × Str))
    → parse_evaluation_event_attributes values ≡ ok m
    → (texts m ≡ values) × (validate_user_attributes m ≡ none)
unfolding parse_evaluation_event_attributes
parse_evaluation_event_attributes-texts values m h =
    let (attributes, e, f) = >>=-eq-ok (collect_attributes values []) _ h in
    let (same, valid) = validated-ok attributes m (validate_user_attributes attributes) f in
    (
      ap (λ a. texts a) (sym same) ∙ collect_attributes-texts values [] attributes e,
      subst (λ a. validate_user_attributes a ≡ none) same valid,
    )
