-- ===== src/Chat/Exporting.antt =====
-- The Markdown export of frontend/components/admin/chat-workspace.tsx: the text of a conversation and
-- the name of its file. `lower` is `toLowerCase`, and `now` the time as `toLocaleString` writes it.
pub mod FileNames
use mathlib.Core.List.{reverse}
use gx_notion2api.Prelude.{
  ℕ, suc, ◌+◌, Bool, true, false, ◌||◌, Option, none, some, List, [], ◌∷◌, ◌++◌, Text, txt,
  if◌then◌else◌, is_present, is_given, or_text, text_eq, nat_eq, leb, ltb, map, keep, take, trim,
  trim_start, is_space, listed, decimal, any,
}
use gx_notion2api.Types.Conversations.{ConversationMessage, ConversationMessageAttachment}
use gx_notion2api.Settings.Prompts.{join, new_line}
use gx_notion2api.Chat.Tokens.{step_label}

abbrev pub forbidden_marks : List ℕ
forbidden_marks = txt "\\/:*?\"<>|"

-- `[\\/:*?"<>|\u0000-\u001f]`
unfoldable pub is_forbidden : ℕ → Bool
unfolding any
is_forbidden c = any (nat_eq c) forbidden_marks || leb c 31

-- `.replace(/[\\/:*?"<>|\u0000-\u001f]/g, ' ')`
unfoldable pub replace_forbidden : Text → Text
unfolding is_forbidden
replace_forbidden t = map (λ c. if is_forbidden c then 32 else c) t

-- `.replace(/\s+/g, ' ')`, where `inside` tells that the code unit before is a white space
unfoldable pub collapse_spaces : Bool → Text → Text
collapse_spaces inside [] = []
collapse_spaces inside (c ∷ t) =
    let rest = collapse_spaces (is_space c) t in
    if is_space c then (if inside then rest else 32 ∷ rest) else c ∷ rest

unfoldable pub safe_file_name : Text → Text
unfolding replace_forbidden collapse_spaces
safe_file_name name =
    take 80
      (or_text (some (trim (collapse_spaces false (replace_forbidden name)))) (txt "conversation"))

-- `.replace(/\n{3,}/g, '\n\n')`, after `run` line breaks
unfoldable pub squeeze_lines : ℕ → Text → Text
squeeze_lines run [] = []
squeeze_lines run (c ∷ t) =
    let more = squeeze_lines (suc run) t in
    let rest = squeeze_lines 0 t in
    if nat_eq c 10 then (if ltb run 2 then 10 ∷ more else more) else c ∷ rest

-- `t.trimEnd()`
unfoldable pub trim_end : Text → Text
unfolding trim_start
trim_end t = reverse (trim_start (reverse t))

-- `condition ? text : ''` of an optional text, behind a label
abbrev pub labelled : Text → Option Text → Text
labelled label value = if is_given value then label ++ or_text value [] else []

abbrev pub facts : Text → Option Text → Option Text → List Text
facts now model account =
    keep is_present
      (labelled (txt "模型：") model ∷ labelled (txt "账号：") account ∷ (txt "导出时间：" ++ now) ∷ [])

abbrev pub attachment_name : ℕ → Option Text → Text
attachment_name index name = or_text name (txt "附件 " ++ decimal (index + 1))

unfoldable pub attachment_line : ℕ → ConversationMessageAttachment → Text
unfolding decimal
attachment_line index file =
    let name = attachment_name index file.name in
    if is_given file.url
    then txt "- [" ++ (name ++ (txt "](" ++ (or_text file.url [] ++ txt ")")))
    else txt "- " ++ name

unfoldable pub attachment_lines : ℕ → List ConversationMessageAttachment → List Text
unfolding attachment_line
attachment_lines index [] = []
attachment_lines index (file ∷ files) =
    attachment_line index file ∷ attachment_lines (index + 1) files

abbrev pub attachment_section : List ConversationMessageAttachment → List Text
attachment_section [] = []
attachment_section (file ∷ files) = txt "附件：" ∷ (attachment_lines 0 (file ∷ files) ++ [] ∷ [])

abbrev pub content_lines : Option Text → List Text
content_lines content = if is_given content then or_text content [] ∷ [] ∷ [] else []

abbrev pub edited_lines : Option Text → List Text
edited_lines edited_at = if is_given edited_at then txt "_（此条内容已被手动编辑）_" ∷ [] ∷ [] else []

module _ (lower : Text → Text) where
  unfoldable pub message_lines : ConversationMessage → List Text
  unfolding attachment_lines step_label
  message_lines message =
      let role = lower (or_text message.role []) in
      if text_eq role (txt "step")
      then (txt "> 过程 · "
          ++ (step_label lower message.step_type ++ labelled (txt "：") message.content))
        ∷ []
      else (if text_eq role (txt "user") then txt "## 用户" else txt "## Notion AI")
        ∷ []
        ∷ (content_lines message.content
            ++ (attachment_section (listed message.attachments) ++ edited_lines message.edited_at))

  unfoldable pub all_lines : List ConversationMessage → List Text
  unfolding message_lines
  all_lines [] = []
  all_lines (message ∷ messages) = message_lines message ++ all_lines messages

  unfoldable pub conversation_markdown :
      Text → Text → List ConversationMessage → Option Text → Option Text → Text
  unfolding all_lines squeeze_lines trim_end join
  conversation_markdown now title messages model account =
      let heading = txt "# " ++ or_text (some title) (txt "对话") in
      let facts_line = txt "> " ++ join (txt " · ") (facts now model account) in
      let lines : List Text = heading ∷ [] ∷ facts_line ∷ [] ∷ all_lines messages in
      trim_end (squeeze_lines 0 (join new_line lines)) ++ new_line
