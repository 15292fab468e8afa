-- ===== src/Api/Requests/Paths.antt =====
-- The paths of the requests that hold ids.
use gx_notion2api.Prelude.{
  ◌≡◌, sym, ap, false, Option, none, some, [], ◌++◌, Text, txt, All, Option-cases, inl, inr,
}
use gx_notion2api.Api.Encoding.{encode_uri_component}
use gx_notion2api.Api.Encoding.Segments.{is_mark, encode_uri_component_lem}
use gx_notion2api.Api.Requests.{Request, edit_conversation_message}

no_request : {J : Type 0} (r : Request J) → ◌≡◌ {A = Option (Request J)} none (some r) → ⊥
no_request r e = cc

abbrev path_of : {J : Type 0} → Option (Request J) → Text
path_of none = []
path_of (some r) = r.path

path_sent :
    {J : Type 0} (q r : Request J)
    → ◌≡◌ {A = Option (Request J)} (some q) (some r)
    → q.path ≡ r.path
path_sent q r e = ap path_of e

-- The request of an edit names the conversation and the message in segments of their own: each is the
-- encoding of its id, without a mark that ends a segment.
pub edit_conversation_message_lem :
    {J : Type 0} (id message_id content : Text) (r : Request J)
    → edit_conversation_message id message_id content ≡ some r
    → (u : Text) × (v : Text) × (r.path
        ≡ txt "/admin/conversations/" ++ (u ++ (txt "/messages/" ++ v)))
      × (encode_uri_component id ≡ some u)
      × (encode_uri_component message_id ≡ some v)
      × All (λ c. is_mark c ≡ false) u
      × All (λ c. is_mark c ≡ false) v
unfolding edit_conversation_message
edit_conversation_message_lem id message_id content r e =
    elim (Option-cases (encode_uri_component message_id)) [
      | inl none_m ↦ absurd (no_request r (rw none_m at e))
      | inr (v, some_m) ↦ elim (Option-cases (encode_uri_component id)) [
        | inl none_id ↦ absurd (no_request r (rw (some_m, none_id) at e))
        | inr (u, some_id) ↦ (
          u,
          v,
          sym (path_sent _ r (rw (some_m, some_id) at e)),
          some_id,
          some_m,
          encode_uri_component_lem id u some_id,
          encode_uri_component_lem message_id v some_m,
        )
      ]
    ]
