-- ===== src/Prompts/Types.antt =====
-- The records of the pending questions (codex/client.go): `PendingRequest`, `Prompt`, `Question`, `Option`.
use codex_web.Common.{String, ℕ, Bool, Option, List}
use codex_web.Prompts.Json.{Members}

-- `Option` of the source
pub record Choice : Type 0 where
  pub label : String
  pub description : String

pub record Question : Type 0 where
  pub id : String
  pub header : String
  pub question : String
  pub is_secret : Bool
  pub is_other : Bool
  pub options : List Choice

-- A request of the App Server. `params` is `none` where they are no JSON object; a connection is known
-- by a number, and `received_at` is in milliseconds, 0 where it is not set.
pub record PendingRequest : Type 0 where
  pub id : String
  pub token : String
  pub method : String
  pub params : Option Members
  pub generation : ℕ
  pub connection : ℕ
  pub claimed : Bool
  pub received_at : ℕ
  pub snoozed : Bool

-- The values of the JSON field `kind`.
pub data Kind : Type 0 where
  command file_change terminal_only user_input unsupported connection : Kind

-- Left out: the parameters themselves, and the thread item that `PromptsWithItems` adds.
pub record Prompt : Type 0 where
  pub id : String
  pub token : String
  pub method : String
  pub kind : Kind
  pub thread_id : String
  pub turn_id : String
  pub item_id : String
  pub authority_available : Bool
  pub available_decisions : List String
  pub questions : List Question
  pub is_blocking : Bool
  pub auto_resolution_ms : Option ℕ
  pub auto_resolution_visible_at_ms : ℕ
  pub auto_resolution_at_ms : ℕ
  pub auto_resolve_snoozed : Bool

-- `NonBlockingUserInputPolicy`, in milliseconds
pub record NonBlockingUserInputPolicy : Type 0 where
  pub hidden_grace : ℕ
  pub visible_countdown : ℕ
