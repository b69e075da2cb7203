-- ===== src/Utils.antt =====
-- utils.go and version.go: the environment and the version. The process's environment is a parameter.
pub mod Hex
use text.Mathlib.Text.{◌==◌}
use browserpm.Common.{String, if◌then◌else◌}

-- getEnvOrDefault; os.Getenv gives the empty text for a variable that is not set.
unfoldable pub get_env_or_default : (String → String) → String → String → String
get_env_or_default env key default_value =
    let value = env key in if value == "" then default_value else value

abbrev pub version : String
version = "v0.0.3"

-- GetVersion.
abbrev pub get_version : String
get_version = version
