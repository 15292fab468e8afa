-- ===== src/Types/Models.antt =====
-- The model catalogue entry of frontend/lib/services/admin/types.ts. A field that the interface
-- marks with `?` is an `Option`, and `none` is `undefined`.
use gx_notion2api.Prelude.{Bool, Option, List, Text}

pub record ModelItem : Type 0 where
  pub default_reasoning_effort : Option Text
  pub supported_reasoning_efforts : Option (List Text)
  pub disabled_reason : Option Text
  pub id : Text
  pub name : Option Text
  pub family : Option Text
  pub group : Option Text
  pub notion_model : Option Text
  pub aliases : Option (List Text)
  pub beta : Option Bool
  pub enabled : Option Bool
