-- ===== src/TurnOptions/Types.antt =====
-- The types of codex/client.go that make up a turn's options. `String` is a text: a Go string that is
-- valid Unicode, so the tests by `utf8.ValidString` hold of every value of the model.
use codex_web.Common.{ℕ, String, Option, none, List, []}
use codex_web.GoMap.{GoMap}

pub record AdditionalContextEntry : Type 0 where
  pub value : String
  pub kind : String

pub record ThreadMcpServer : Type 0 where
  pub name : String
  pub command : String
  pub args : List String
  pub tool : String

pub record ThreadPolicy : Type 0 where
  pub developer_instructions : String
  pub sandbox : String
  pub approval_policy : String
  pub mcp_server : Option ThreadMcpServer

pub record TurnOptions : Type 0 where
  pub model : String
  pub reasoning_effort : String
  pub additional_context : GoMap AdditionalContextEntry
  pub thread_policy : ThreadPolicy

pub record NormalizedAdditionalContextEntry : Type 0 where
  pub source : String
  pub value : String
  pub kind : String

pub record TurnOptionsIdentity : Type 0 where
  pub version : ℕ
  pub model : String
  pub reasoning_effort : String
  pub additional_context : List NormalizedAdditionalContextEntry
  pub thread_policy : Option ThreadPolicy

pub record NormalizedTurnOptions : Type 0 where
  pub model : String
  pub reasoning_effort : String
  pub additional_context : List NormalizedAdditionalContextEntry
  pub thread_policy : ThreadPolicy
  pub digest : String

abbrev pub zero_policy : ThreadPolicy
zero_policy = record {
  developer_instructions = "";
  sandbox = "";
  approval_policy = "";
  mcp_server = none;
}

-- `TurnOptions{}`
abbrev pub zero_options : TurnOptions
zero_options = record {
  model = "";
  reasoning_effort = "";
  additional_context = [];
  thread_policy = zero_policy;
}
