-- ===== src/Tests/RequestTests.antt =====
-- A request of the server at small ids.
use gx_notion2api.Prelude.{◌≡◌, refl, false, some, ◌∷◌, [], ◌++◌, Text, txt, All}
use gx_notion2api.Api.Encoding.{encode_uri_component}
use gx_notion2api.Api.Encoding.Segments.{is_mark}
use gx_notion2api.Api.Requests.{Request, edit_conversation_message, patch, fields, text}
use gx_notion2api.Api.Requests.Paths.{edit_conversation_message_lem}

-- An id with a slash is encoded.
encoded_slash : encode_uri_component (txt "a/b") ≡ some (txt "a%2Fb")
unfolding encode_uri_component
encoded_slash = refl

abbrev edit_request : Request Text
edit_request = record {
  path = txt "/admin/conversations/c%2F1/messages/m1";
  method = patch;
  body = fields ((txt "content", text (txt "hello")) ∷ []);
}

edit_conversation_message_lem_example :
    (u : Text) × (v : Text) × (edit_request.path
      ≡ txt "/admin/conversations/" ++ (u ++ (txt "/messages/" ++ v)))
    × (encode_uri_component (txt "c/1") ≡ some u)
    × (encode_uri_component (txt "m1") ≡ some v)
    × All (λ c. is_mark c ≡ false) u
    × All (λ c. is_mark c ≡ false) v
unfolding edit_conversation_message encode_uri_component
edit_conversation_message_lem_example =
    edit_conversation_message_lem (txt "c/1") (txt "m1") (txt "hello") edit_request refl
