-- ===== src/Chat/Tokens.antt =====
-- The token estimate and the step labels of frontend/components/admin/chat-workspace.tsx.
pub mod Bounds
use gx_notion2api.Prelude.{
  ℕ, ◌+◌, ◌-◌, ◌*◌, ◌/◌, Bool, true, false, ◌&&◌, ◌||◌, Option, none, some, List, [], ◌∷◌, Text,
  txt, leb, if◌then◌else◌, option_eq, keep, is_present, or_text, trim, includes,
}
use gx_notion2api.Types.Conversations.{ConversationMessage}

-- The code points that `for (const char of value)` visits: a surrogate pair is one.
abbrev pub is_pair : ℕ → ℕ → Bool
is_pair high low = (leb 0xd800 high && leb high 0xdbff) && (leb 0xdc00 low && leb low 0xdfff)

unfoldable pub code_points : Text → List ℕ
code_points [] = []
code_points (c ∷ []) = c ∷ []
code_points (c ∷ d ∷ rest) =
    let paired = (0x10000 + (c - 0xd800) * 1024 + (d - 0xdc00)) ∷ code_points rest in
    let single = c ∷ code_points (d ∷ rest) in if is_pair c d then paired else single

unfoldable pub is_cjk_ideograph : ℕ → Bool
is_cjk_ideograph code =
    (leb 0x2e80 code && leb code 0x9fff)
    || (leb 0xf900 code && leb code 0xfaff)
    || (leb 0xac00 code && leb code 0xd7af)
    || (leb 0xff00 code && leb code 0xffef)

-- The loop over the characters, with its two counters
unfoldable pub count_characters : ℕ → ℕ → List ℕ → ℕ × ℕ
count_characters cjk other [] = (cjk, other)
count_characters cjk other (c ∷ cs) =
    let b = is_cjk_ideograph c in
    count_characters (if b then cjk + 1 else cjk) (if b then other else other + 1) cs

-- `cjk + Math.ceil(other / 4)`
abbrev pub tokens_of_counts : ℕ × ℕ → ℕ
tokens_of_counts (cjk, other) = cjk + (other + 3) / 4

unfoldable pub estimate_text : Text → ℕ
unfolding count_characters code_points
estimate_text value = tokens_of_counts (count_characters 0 0 (code_points value))

unfoldable pub estimate_tokens : Option Text → ℕ
unfolding estimate_text
estimate_tokens none = 0
estimate_tokens (some value) = if is_present value then estimate_text value else 0

abbrev pub has_role : Text → ConversationMessage → Bool
has_role role message = option_eq message.role (some role)

unfoldable pub sum_tokens : List ConversationMessage → ℕ
unfolding estimate_tokens
sum_tokens [] = 0
sum_tokens (message ∷ messages) = estimate_tokens message.content + sum_tokens messages

-- `inputTokens` and `outputTokens`
unfoldable pub input_tokens : List ConversationMessage → ℕ
unfolding sum_tokens
input_tokens messages = sum_tokens (keep (has_role (txt "user")) messages)

unfoldable pub output_tokens : List ConversationMessage → ℕ
unfolding sum_tokens
output_tokens messages = sum_tokens (keep (has_role (txt "assistant")) messages)

-- `STEP_LABELS`, where a pattern with bars is the list of its alternatives
abbrev pub step_labels : List (List Text × Text)
step_labels =
    (txt "search" ∷ [], txt "联网搜索")
    ∷ (txt "tool" ∷ [], txt "调用工具")
    ∷ (txt "think" ∷ txt "reason" ∷ [], txt "思考")
    ∷ (txt "read" ∷ txt "file" ∷ txt "attach" ∷ [], txt "读取文件")
    ∷ (txt "title" ∷ [], txt "生成标题")
    ∷ []

unfoldable pub matches_one : Text → List Text → Bool
matches_one lower [] = false
matches_one lower (part ∷ parts) = includes lower part || matches_one lower parts

unfoldable pub first_label : Text → List (List Text × Text) → Text → Text
unfolding matches_one
first_label lower [] type = type
first_label lower ((pattern_parts, label) ∷ labels) type =
    if matches_one lower pattern_parts then label else first_label lower labels type

-- `to_lower_case` stands for the platform's `toLowerCase`.
unfoldable pub step_label : (Text → Text) → Option Text → Text
unfolding first_label
step_label to_lower_case raw =
    let type = trim (or_text raw []) in
    if is_present type then first_label (to_lower_case type) step_labels type else txt "处理步骤"
