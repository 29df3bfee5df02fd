-- ===== src/Environ.antt =====
-- cmd/agent/main.go and cmd/controlplane/main.go: the readings of the environment that both programs
-- share in text. An environment gives every key its value, the empty text if it is not set; `none` is the
-- end of the program by `log.Fatalf`.
pub mod Lists
pub mod Ints
mod Tests
use mathlib.Core.List.{map}
use rv_tx.Base.{String, Option, none, some, List, [], keep, not, if◌then◌else◌, ◌==◌}
use rv_tx.Base.Text.{ℤ, split}
use rv_tx.Base.Atoi.{atoi}
use rv_tx.Base.Trim.{trim_space}

-- `os.Getenv`
abbrev pub Environ : Type 0
Environ = String → String

-- `requireEnv`
unfoldable pub require_env : Environ → String → Option String
require_env env key = if env key == "" then none else some (env key)

-- `envOr`
unfoldable pub env_or : Environ → String → String → String
env_or env key fallback = if env key == "" then fallback else env key

-- The loop of `envOrList` over the value of its key.
unfoldable pub list_entries : String → List String
list_entries v = keep (λ p. not (p == "")) (map trim_space (split b',' v))

-- `envOrList`
unfoldable pub env_or_list : Environ → String → List String
env_or_list env key = if env key == "" then [] else list_entries (env key)

-- `envOrInt`
unfoldable pub env_or_int : Environ → String → ℤ → Option ℤ
env_or_int env key fallback = if env key == "" then some fallback else atoi (env key)
