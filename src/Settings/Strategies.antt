-- ===== src/Settings/Strategies.antt =====
-- A prompt strategy that the server has put in its normal form goes through the form of
-- frontend/components/admin/settings-panel.tsx unchanged.
use gx_notion2api.Prelude.{
  ℕ, zero, suc, ◌/◌, ◌≡◌, refl, ap, ◌∙◌, true, false, some, List, [], ◌∷◌, ◌++◌, Text, All, trim,
  is_present, or_text, nat_eq, decimal, decimal_from, arith, Bool-cases, inl, inr, keep, ◌%◌, ◌+◌,
}
use gx_notion2api.Types.Config.{PromptConfig}
use gx_notion2api.Settings.Prompts.{
  join, new_line, on_first, split_lines, trimmed, prompt_form, number_or,
  build_prompt_strategy_payload, default_profile,
}
use gx_notion2api.Settings.Blocks.{IsTidyBlock, trimmed_tidy, parse_prompt_block_list-join}

-- No line break is in the text.
abbrev pub LacksBreaks : Text → Type 0
LacksBreaks t = All (λ c. (nat_eq c 10 ≡ false) × (nat_eq c 13 ≡ false)) t

abbrev pub IsTidyLine : Text → Type 0
IsTidyLine line = LacksBreaks line × (trim line ≡ line) × (is_present line ≡ true)

line_step :
    (c : ℕ) (t : Text)
    → nat_eq c 10 ≡ false
    → nat_eq c 13 ≡ false
    → split_lines (c ∷ t) ≡ on_first c (split_lines t)
unfolding split_lines
line_step c t h k = rw (h, k) refl

line_end : (t : Text) → split_lines (10 ∷ t) ≡ [] ∷ split_lines t
unfolding split_lines
line_end t = refl

split_lines-append :
    (t rest : Text) → LacksBreaks t → split_lines (t ++ (new_line ++ rest)) ≡ t ∷ split_lines rest
split_lines-append [] rest h = line_end rest
split_lines-append (c ∷ t) rest ((p, q), h) =
    line_step c (t ++ (new_line ++ rest)) p q ∙ ap (on_first c) (split_lines-append t rest h)

split_lines_last : (t : Text) → LacksBreaks t → split_lines t ≡ t ∷ []
split_lines_last [] h = unfold split_lines in refl
split_lines_last (c ∷ t) ((p, q), h) = line_step c t p q ∙ ap (on_first c) (split_lines_last t h)

split_lines-join :
    (t : Text) (ts : List Text)
    → All IsTidyLine (t ∷ ts)
    → split_lines (join new_line (t ∷ ts)) ≡ t ∷ ts
unfolding join
split_lines-join t [] (h, hs) = split_lines_last t h.0
split_lines-join t (u ∷ ts) (h, hs) =
    split_lines-append t (join new_line (u ∷ ts)) h.0 ∙ ap (λ r. t ∷ r) (split_lines-join u ts hs)

tidy_parts :
    (ts : List Text) → All IsTidyLine ts → All (λ t. (trim t ≡ t) × (is_present t ≡ true)) ts
tidy_parts [] h = tt
tidy_parts (t ∷ ts) (h, hs) = ((h.1, h.2), tidy_parts ts hs)

no_lines : trimmed (split_lines (join new_line [])) ≡ []
unfolding split_lines join trim keep
no_lines = refl

read_lines : (ts : List Text) → All IsTidyLine ts → trimmed (split_lines (join new_line ts)) ≡ ts
read_lines [] h = no_lines
read_lines (t ∷ ts) h =
    ap trimmed (split_lines-join t ts h) ∙ trimmed_tidy (t ∷ ts) (tidy_parts (t ∷ ts) h)

decimal_from_present :
    (fuel n : ℕ) (c : ℕ) (digits : Text) → is_present (decimal_from fuel n (c ∷ digits)) ≡ true
unfolding decimal_from
decimal_from_present zero n c digits = refl
decimal_from_present (suc fuel) n c digits = elim (Bool-cases (nat_eq (n / 10) 0)) [
  | inl last ↦ rw last refl
  | inr more ↦ rw more (decimal_from_present fuel (n / 10) (48 + n % 10) (c ∷ digits))
]

decimal_present : (n : ℕ) → is_present (decimal n) ≡ true
unfolding decimal
decimal_present n = elim (Bool-cases (nat_eq (n / 10) 0)) [
  | inl last ↦ rw last refl
  | inr more ↦ rw more (decimal_from_present n (n / 10) (48 + n % 10) [])
]

-- A strategy with all its fields
pub record Strategy : Type 0 where
  pub profile : Text
  pub custom_prefix : Text
  pub fallback_profiles : List Text
  pub max_escalation_steps : ℕ
  pub max_refusal_retries : ℕ
  pub cognitive_reframing_prefix : Text
  pub toolbox_capability_expansion_prefix : Text
  pub coding_retry_prefixes : List Text
  pub general_retry_prefixes : List Text
  pub direct_answer_retry_prefixes : List Text

abbrev pub config_of : Strategy → PromptConfig
config_of s = record {
  profile = some s.profile;
  custom_prefix = some s.custom_prefix;
  fallback_profiles = some s.fallback_profiles;
  max_escalation_steps = some s.max_escalation_steps;
  max_refusal_retries = some s.max_refusal_retries;
  cognitive_reframing_prefix = some s.cognitive_reframing_prefix;
  toolbox_capability_expansion_prefix = some s.toolbox_capability_expansion_prefix;
  coding_retry_prefixes = some s.coding_retry_prefixes;
  general_retry_prefixes = some s.general_retry_prefixes;
  direct_answer_retry_prefixes = some s.direct_answer_retry_prefixes;
}

-- The normal form: a profile and two prefixes that are given, names without line breaks, tidy blocks.
pub record IsNormal (s : Strategy) : Type 0 where
  pub profile_trimmed : trim s.profile ≡ s.profile
  pub profile_given : is_present s.profile ≡ true
  pub fallbacks : All IsTidyLine s.fallback_profiles
  pub reframing_given : is_present s.cognitive_reframing_prefix ≡ true
  pub toolbox_given : is_present s.toolbox_capability_expansion_prefix ≡ true
  pub coding : All IsTidyBlock s.coding_retry_prefixes
  pub general : All IsTidyBlock s.general_retry_prefixes
  pub direct : All IsTidyBlock s.direct_answer_retry_prefixes

config_eq :
    (p q : PromptConfig)
    → p.profile ≡ q.profile
    → p.custom_prefix ≡ q.custom_prefix
    → p.fallback_profiles ≡ q.fallback_profiles
    → p.max_escalation_steps ≡ q.max_escalation_steps
    → p.max_refusal_retries ≡ q.max_refusal_retries
    → p.cognitive_reframing_prefix ≡ q.cognitive_reframing_prefix
    → p.toolbox_capability_expansion_prefix ≡ q.toolbox_capability_expansion_prefix
    → p.coding_retry_prefixes ≡ q.coding_retry_prefixes
    → p.general_retry_prefixes ≡ q.general_retry_prefixes
    → p.direct_answer_retry_prefixes ≡ q.direct_answer_retry_prefixes
    → p ≡ q
config_eq p q a b c d e f g h i j = ground (arith, a, b, c, d, e, f, g, h, i, j)

or_text_given : (t fallback : Text) → is_present t ≡ true → or_text (some t) fallback ≡ t
unfolding or_text
or_text_given t fallback h = rw h refl

module _ (read : Text → ℕ) where
  read_number : (n fallback : ℕ) → read (decimal n) ≡ n → number_or read (decimal n) fallback ≡ n
  read_number n fallback e = rw (decimal_present n) e

  profile_lem :
      (t : Text)
      → trim t ≡ t
      → is_present t ≡ true
      → or_text (some (trim (or_text (some t) default_profile))) default_profile ≡ t
  profile_lem t e h =
      ap (λ u. or_text (some (trim u)) default_profile) (or_text_given t default_profile h)
      ∙ ap (λ u. or_text (some u) default_profile) e
      ∙ or_text_given t default_profile h

  -- A strategy in normal form is saved as it was loaded, where `Number` reads its two numbers as they
  -- are written.
  pub build_prompt_strategy_payload-prompt_form :
      (s : Strategy)
      → IsNormal s
      → read (decimal s.max_escalation_steps) ≡ s.max_escalation_steps
      → read (decimal s.max_refusal_retries) ≡ s.max_refusal_retries
      → build_prompt_strategy_payload read (prompt_form (config_of s)) ≡ config_of s
  unfolding build_prompt_strategy_payload prompt_form
  build_prompt_strategy_payload-prompt_form s h steps retries =
      config_eq _ _ (ap some (profile_lem s.profile h.profile_trimmed h.profile_given)) refl
        (ap some (read_lines s.fallback_profiles h.fallbacks))
        (ap some (read_number s.max_escalation_steps 1 steps))
        (ap some (read_number s.max_refusal_retries 0 retries))
        (ap some (or_text_given s.cognitive_reframing_prefix _ h.reframing_given))
        (ap some (or_text_given s.toolbox_capability_expansion_prefix _ h.toolbox_given))
        (ap some (parse_prompt_block_list-join s.coding_retry_prefixes h.coding))
        (ap some (parse_prompt_block_list-join s.general_retry_prefixes h.general))
        (ap some (parse_prompt_block_list-join s.direct_answer_retry_prefixes h.direct))
