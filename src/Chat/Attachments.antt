-- ===== src/Chat/Attachments.antt =====
-- The attachment budget: `encodedAttachmentBytes` and `addFiles` of
-- frontend/components/admin/chat-workspace.tsx. A file is its name, its size in bytes and its type.
pub mod Budget
pub mod Answers
use gx_notion2api.Prelude.{
  ℕ, ◌+◌, ◌-◌, ◌*◌, ◌/◌, Bool, true, false, Option, none, some, List, [], ◌∷◌, ◌++◌, Text, text_eq,
  map, if◌then◌else◌, ltb, nat_eq, contains, decimal,
}

pub record ChatFile : Type 0 where
  pub name : Text
  pub size : ℕ
  pub content_type : Text

abbrev pub max_request_body_bytes : ℕ
max_request_body_bytes = 4 * 1024 * 1024

abbrev pub json_envelope_bytes : ℕ
json_envelope_bytes = 2048

abbrev pub base64_prefix_bytes : ℕ
base64_prefix_bytes = 64

abbrev pub budget : ℕ
budget = max_request_body_bytes - json_envelope_bytes

-- `Math.ceil((size * 4) / 3) + 64`, which doubles compute exactly for the sizes of files
unfoldable pub encoded_attachment_bytes : ChatFile → ℕ
encoded_attachment_bytes file = (file.size * 4 + 2) / 3 + base64_prefix_bytes

-- The sum that `files.reduce` makes
unfoldable pub total_bytes : List ChatFile → ℕ
total_bytes [] = 0
total_bytes (file ∷ files) = encoded_attachment_bytes file + total_bytes files

-- `${file.name}\\u0000${file.size}`
unfoldable pub file_key : ChatFile → Text
file_key file = file.name ++ 0 ∷ decimal file.size

pub data Rejection : Type 0 where
  empty_file too_large : ChatFile → Rejection

-- The variables of the loop
pub record Sorting : Type 0 where
  pub accepted : List ChatFile
  pub rejected : List Rejection
  pub seen : List Text
  pub total : ℕ

-- One round of the loop
unfoldable pub sort_file : Sorting → ChatFile → Sorting
sort_file v file =
    if nat_eq file.size 0
    then record v { rejected = v.rejected ++ empty_file file ∷ [] }
    else if contains (file_key file) v.seen
    then v
    else if ltb budget (v.total + encoded_attachment_bytes file)
    then record v { rejected = v.rejected ++ too_large file ∷ [] }
    else record {
      accepted = v.accepted ++ file ∷ [];
      rejected = v.rejected;
      seen = file_key file ∷ v.seen;
      total = v.total + encoded_attachment_bytes file;
    }

unfoldable pub sort_files : Sorting → List ChatFile → Sorting
sort_files v [] = v
sort_files v (file ∷ files) = sort_files (sort_file v file) files

abbrev pub before_sorting : List ChatFile → Sorting
before_sorting files = record {
  accepted = [];
  rejected = [];
  seen = map file_key files;
  total = total_bytes files;
}

-- What `addFiles` tells the operator
pub data Notice : Type 0 where
  silent busy : Notice
  skipped : List Rejection → Notice

abbrev pub notice_of : List Rejection → Notice
notice_of [] = silent
notice_of (r ∷ rs) = skipped (r ∷ rs)

-- The files after the call, and the notice; `running` is the state's flag.
unfoldable pub add_files : Bool → List ChatFile → List ChatFile → List ChatFile × Notice
unfolding sort_files
add_files running files [] = (files, silent)
add_files running files (file ∷ incoming) =
    let v = sort_files (before_sorting files) (file ∷ incoming) in
    if running then (files, busy) else (files ++ v.accepted, notice_of v.rejected)
