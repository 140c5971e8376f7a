-- ===== src/Library.antt =====
-- What the modelled code calls and the repository does not hold: functions of Go's standard library
-- and of the JSON encoder, which the definitions take as a parameter. A theorem that needs one of
-- their documented laws has it among its hypotheses.
use codex_web.Common.{String}
use codex_web.TurnOptions.Types.{TurnOptionsIdentity}

pub record Library : Type 0 where
  -- `fmt.Sprintf("%x", sha256.Sum256([]byte(s)))`
  pub sha256_hex : String → String
  -- `json.Marshal(identity)`, which cannot fail on a struct of strings
  pub marshal_identity : TurnOptionsIdentity → String
  -- `strings.TrimSpace(s)`
  pub trim_space : String → String
  -- `filepath.Clean(s)`
  pub clean : String → String
