-- ===== src/Lib.antt =====
-- A verification library for the admin console of gxNotion2API: the TypeScript application under
-- frontend/ that an operator uses to chat, to watch conversations, and to edit accounts, settings and
-- workspace policies over the HTTP interface of the Go service.
--
-- Parts of the program and the files that model them:
--   Prelude       JavaScript strings as UTF-16 code units, arrays as lists, `Record<string, V>` as
--                 association lists in insertion order, `undefined` as `none`
--   Types         frontend/lib/services/admin/types.ts, one record for each interface
--   Console       frontend/hooks/use-admin-console.ts: Merging (sortConversations,
--                 mergeConversationSummaryState, mergeConversationMessages, upsertConversationSummary),
--                 State (the hook's state, its refs and its effects), Events (handleEvent and the
--                 listeners), Loading (the calls of the hook, split where they await), Runs (the whole
--                 calls against given answers), Invariant (histories of all these steps)
--   Policy        frontend/components/admin/workspace-model-policy.tsx: read, apply, the handlers and
--                 the derived flags; Requests puts the calls and their answers in any order
--   Chat          frontend/components/admin/chat-workspace.tsx: Attachments (addFiles), Tokens
--                 (estimateTokens, stepLabel), Targets (the workspaces and models on offer), State (the
--                 component's state, resetConversation, unmounting), Opening (openConversation and the
--                 poll), Running (performRun with its stream and its recovery), Editing (renaming,
--                 deleting, editing), Races (histories of all these steps), Quotas (the quota indicator),
--                 Exporting (conversationMarkdown, safeFileName), Sessions (the saved session, the drag
--                 overlay)
--   Settings      frontend/components/admin/settings-panel.tsx: Prompts (the prompt strategy), Forms
--                 (buildFormState), Saving (saveConfig), Syncing (the draft against refreshes), Blocks
--                 and Strategies (the prompt strategy through its form), Importing (files, snapshots,
--                 the strategy test)
--   Accounts      frontend/components/admin/accounts-panel.tsx: Items (buildAccountEditMap,
--                 workspaceItems, manualModelOptions), Drafts (the merging of drafts with refreshes),
--                 Panel (the state and its effects), Selection (what is derived for the selected
--                 account), Editing (the drafts of the limits; saving, activating, deleting), Testing
--                 (runQuickTest), Joining (the login by a code, performManualImport); limits and quotas
--                 are whole numbers
--   Shell         frontend/components/admin/admin-console.tsx: the tabs, the guard of unsaved changes,
--                 the `tab` parameter of the address, the login; Tabs puts these in any order
--   Notebook      frontend/components/admin/notebook-dialog.tsx; Loads puts its reads in any order
--   ModelDisplay  frontend/lib/model-display.ts
--   Listing       frontend/components/admin/conversations-panel.tsx: filter, selection, deletions
--   Api           frontend/lib/services/core/api-client.ts, and streamTestPrompt
--                 and the requests of frontend/lib/services/admin/admin.service.ts: Fetching, Streaming,
--                 Requests, Queries, Encoding (encodeURIComponent)
--   Tests         test data, tests, and the theorems at concrete inputs
--
-- The parts interact as in the source: the console hook holds the conversations that the chat
-- workspace and the conversation list show, the panels call the server through the service of Api, and
-- an asynchronous call is two functions, up to its await and after it, with the answer as an argument.
-- Histories of such steps are data types `Step` and `Reach`, so that every order of answers is covered.
--
-- Bounds: `decimal` writes a number by at most one digit more than its value in steps, and it stops at
-- the last digit. No other function has fuel.
--
-- Not modelled: the rendering and the styles, the browser (network, timers, storage, clipboard, file
-- reading), regular expressions over HTML error pages, the percentages of quotas (floating point),
-- panels that only render, the model tester, which no file imports, and the Go service under internal/
-- and cmd/, whose answers are given.
pub mod Accounts
pub mod Api
pub mod Chat
pub mod Console
pub mod Listing
pub mod ModelDisplay
pub mod Notebook
pub mod Policy
mod Prelude
pub mod Settings
pub mod Shell
mod Tests
pub mod Types
