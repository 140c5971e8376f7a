-- ===== src/TurnOptions.antt =====
-- Turn options and their identity digest: `normalizeTurnOptions`, its validators and the digest
-- helpers of codex/client.go. `AdditionalContext` is a Go map, ranged over in list order. `String` is
-- a text, so the code's tests by `utf8.ValidString` hold of every value here and are left out.
pub mod Types
pub use Types.*
use Prim.Native.String
use Prim.Native.String.{len, compare}
use Prim.Native.Char.{code}
use text.Mathlib.Text.{starts_with, is_le}
use codex_web.Common.{
  ℕ, ◌+◌, ◌*◌, String, Bool, true, false, not, ◌&&◌, ◌||◌, Option, none, some, List, [], ◌∷◌,
  length, ltb, leb, nat_eq, ◌==◌, if◌then◌else◌,
}
use codex_web.Errors
use codex_web.Errors.{Outcome, ok, err, panic, ◌>>=◌, ◌>>◌, require}
use codex_web.GoMap.{GoMap, is_empty}
use codex_web.Library.{Library}

abbrev max_scalar_bytes : ℕ
max_scalar_bytes = 4 * 1024

abbrev max_context_entries : ℕ
max_context_entries = 32

abbrev max_context_key_bytes : ℕ
max_context_key_bytes = 256

abbrev max_context_value_bytes : ℕ
max_context_value_bytes = 64 * 1024

abbrev max_context_bytes : ℕ
max_context_bytes = 256 * 1024

is_name_start : ℕ → Bool
is_name_start c = leb b'a' c && leb c b'z'

is_name_char : ℕ → Bool
unfolding is_name_start
is_name_char c = is_name_start c || (leb b'0' c && leb c b'9') || nat_eq c b'_'

all_name_chars : String → Bool
unfolding is_name_char
all_name_chars String.[] = true
all_name_chars (String.◌∷◌ c s) = is_name_char (code c) && all_name_chars s

-- `threadMCPNamePattern`: ^[a-z][a-z0-9_]{0,63}$
unfoldable pub thread_mcp_name : String → Bool
unfolding all_name_chars
thread_mcp_name String.[] = false
thread_mcp_name (String.◌∷◌ c s) = is_name_start (code c) && all_name_chars s && leb (len s) 63

-- `strings.ContainsRune(s, 0)`
unfoldable pub has_nul : String → Bool
has_nul String.[] = false
has_nul (String.◌∷◌ c s) = nat_eq (code c) 0 || has_nul s

-- `filepath.IsAbs`, on Unix
unfoldable pub is_abs : String → Bool
is_abs path = starts_with path "/"

unfoldable pub is_valid_mcp_arg : String → Bool
unfolding has_nul
is_valid_mcp_arg arg = not (arg == "") && not (has_nul arg) && leb (len arg) 4096

unfoldable pub all_valid_mcp_args : List String → Bool
unfolding is_valid_mcp_arg
all_valid_mcp_args [] = true
all_valid_mcp_args (arg ∷ args) = is_valid_mcp_arg arg && all_valid_mcp_args args

unfoldable pub validate_turn_option_scalar : String → Outcome (Unit {0})
validate_turn_option_scalar value =
    require (value == "" || leb (len value) max_scalar_bytes) Errors.invalid_scalar

-- The loop over `options.AdditionalContext`, with the bytes counted so far.
unfoldable pub check_context :
    ℕ → GoMap AdditionalContextEntry → Outcome (List NormalizedAdditionalContextEntry)
check_context total [] = ok []
check_context total ((source, entry) ∷ rest) =
    let total' = total + (len source + len entry.value) in
    let tail = check_context total' rest in
    do
      require (not (source == "") && leb (len source) max_context_key_bytes)
          Errors.invalid_context_source
      require (entry.kind == "application") Errors.invalid_context_kind
      require (leb (len entry.value) max_context_value_bytes) Errors.invalid_context_value
      require (leb total' max_context_bytes) Errors.context_too_large
      checked ← tail
      ok (record { source = source; value = entry.value; kind = entry.kind } ∷ checked)

-- `sort.Slice` by source; the sources of a map are distinct.
unfoldable pub insert_by_source :
    NormalizedAdditionalContextEntry
    → List NormalizedAdditionalContextEntry
    → List NormalizedAdditionalContextEntry
insert_by_source e [] = e ∷ []
insert_by_source e (x ∷ xs) =
    if is_le (compare e.source x.source) then e ∷ x ∷ xs else x ∷ insert_by_source e xs

unfoldable pub sort_by_source :
    List NormalizedAdditionalContextEntry → List NormalizedAdditionalContextEntry
unfolding insert_by_source
sort_by_source [] = []
sort_by_source (x ∷ xs) = insert_by_source x (sort_by_source xs)

-- `policy == (ThreadPolicy{})`
unfoldable pub is_zero_policy : ThreadPolicy → Bool
is_zero_policy policy =
    policy.developer_instructions == ""
    && policy.sandbox == ""
    && policy.approval_policy == ""
    && elim policy.mcp_server [ none ↦ true | some _ ↦ false ]

digest_or_empty : Outcome NormalizedTurnOptions → String
digest_or_empty (ok options) = options.digest
digest_or_empty _ = ""

module _ (lib : Library) where
  unfoldable pub validate_mcp_server : Option ThreadMcpServer → Outcome (Unit {0})
  unfolding thread_mcp_name is_abs has_nul all_valid_mcp_args
  validate_mcp_server none = ok tt
  validate_mcp_server (some server) = do
    require (thread_mcp_name server.name && thread_mcp_name server.tool) Errors.invalid_mcp_name
    require
        (is_abs server.command
          && (lib.clean server.command == server.command)
          && not (has_nul server.command)
          && leb (len server.command) 4096)
        Errors.invalid_mcp_command
    require (not (nat_eq (length server.args) 0) && leb (length server.args) 64)
        Errors.invalid_mcp_arg_count
    require (all_valid_mcp_args server.args) Errors.invalid_mcp_arg

  unfoldable pub validate_thread_policy : ThreadPolicy → Outcome (Unit {0})
  unfolding validate_mcp_server
  validate_thread_policy policy = do
    require (leb (len policy.developer_instructions) (64 * 1024)) Errors.invalid_instructions
    require
        (policy.sandbox == ""
          || policy.sandbox == "read-only"
          || policy.sandbox == "workspace-write"
          || policy.sandbox == "danger-full-access")
        Errors.invalid_sandbox
    require (policy.approval_policy == "" || policy.approval_policy == "never")
        Errors.invalid_approval
    validate_mcp_server policy.mcp_server

  unfoldable pub normalize_turn_options : TurnOptions → Outcome NormalizedTurnOptions
  unfolding validate_thread_policy validate_turn_option_scalar check_context sort_by_source
      is_zero_policy
  normalize_turn_options options = do
    validate_thread_policy options.thread_policy
    validate_turn_option_scalar options.model
    validate_turn_option_scalar options.reasoning_effort
    require (leb (length options.additional_context) max_context_entries)
        Errors.too_many_context_entries
    checked ← check_context 0 options.additional_context
    let context = sort_by_source checked
    let policy_identity =
        if is_zero_policy options.thread_policy then none else some options.thread_policy
    let encoded = lib.marshal_identity (record {
      version = 1;
      model = options.model;
      reasoning_effort = options.reasoning_effort;
      additional_context = context;
      thread_policy = policy_identity;
    })
    ok (record {
      model = options.model;
      reasoning_effort = options.reasoning_effort;
      additional_context = context;
      thread_policy = options.thread_policy;
      digest = lib.sha256_hex encoded;
    })

  -- `zeroTurnOptionsDigest` panics on an error; the options of no settings have none.
  unfoldable pub zero_turn_options_digest : String
  unfolding normalize_turn_options digest_or_empty
  zero_turn_options_digest = digest_or_empty (normalize_turn_options zero_options)

  unfoldable pub effective_turn_options_digest : String → String
  effective_turn_options_digest stored = if stored == "" then zero_turn_options_digest else stored

  unfoldable pub persisted_turn_options_digest : String → String
  persisted_turn_options_digest digest = if digest == zero_turn_options_digest then "" else digest
