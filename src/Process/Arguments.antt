-- ===== src/Process/Arguments.antt =====
-- The tests on a build command of crates/opticcode-policy/src/engine.rs: argument characters, the
-- environment allowlist, executables, goals and options.
use optic_code.Model.{critical, high, max_policy_environment_keys}
use optic_code.Model.Actions.{ProcessLaunch, launch_eq, windows_command_script}
use optic_code.Prelude.{
  Bool, Eq, List, Option, [], all, any, contains, false, if◌then◌else◌, is_empty, length, ltb,
  nat_eq, none, not, some, true, ℕ, ◌&&◌, ◌==◌, ◌||◌, ◌∷◌,
}
use optic_code.Rules.{RuleOutcome, denied}
use optic_code.Text.{
  Text, bytes, contains_text, ends_with, is_ascii_digit, is_ascii_uppercase, is_control,
  split_whitespace, starts_with, text_eq, to_ascii_lowercase, trim,
}
use optic_code.Validate.{out_of_order}

pub data BuildTool : Type 0 where
  maven gradle : BuildTool

unfoldable pub BuildTool-discrete : Discrete BuildTool
BuildTool-discrete = hlevel

instance abbrev pub tool_eq : Eq BuildTool
tool_eq = record { dec = BuildTool-discrete }

abbrev operators : List Text
operators =
    bytes "&"
    ∷ bytes "&&"
    ∷ bytes "|"
    ∷ bytes "||"
    ∷ bytes ";"
    ∷ bytes ">"
    ∷ bytes ">>"
    ∷ bytes "<"
    ∷ bytes "2>"
    ∷ []

-- `'&' | '|' | '<' | '>' | '^' | '%' | '!'`
abbrev is_script_meta : ℕ → Bool
is_script_meta c = c == 38 || c == 124 || c == 60 || c == 62 || c == 94 || c == 37 || c == 33

unfoldable pub unsafe_argument : Text → ProcessLaunch → Bool
unsafe_argument argument launch =
    (is_empty argument
      || any is_control argument
      || any (λ c. c == 96) argument
      || contains_text argument (bytes "$("))
    || (contains operators (trim argument) || any (contains operators) (split_whitespace argument))
    || (launch == windows_command_script && any is_script_meta argument)

abbrev pub inherited_names : List Text
inherited_names =
    bytes "CI"
    ∷ bytes "GRADLE_USER_HOME"
    ∷ bytes "JAVA_HOME"
    ∷ bytes "MAVEN_USER_HOME"
    ∷ bytes "NO_COLOR"
    ∷ []

unfoldable pub environment_name_denied : Text → Bool
environment_name_denied name =
    is_empty name
    || ltb 64 (length name)
    || not (all (λ c. is_ascii_uppercase c || is_ascii_digit c || c == b'_') name)
    || not (contains inherited_names name)

unfoldable pub validate_environment_allowlist : List Text → Option RuleOutcome
unfolding environment_name_denied
validate_environment_allowlist environment =
    if ltb max_policy_environment_keys (length environment)
    then some (
        denied "process.environment_limit" high "The process environment allowlist is too large."
          "Only a bounded set of inherited environment names may reach a child process."
          "Reduce the environment allowlist." true)
    else if out_of_order environment
    then some (
        denied "process.environment_order" high
          "The process environment allowlist must be unique and sorted."
          "Deterministic ordering prevents ambiguous or duplicated inherited variables."
          "Sort and deduplicate the environment names." true)
    else if any environment_name_denied environment
    then some (
        denied "process.environment_denied" critical
          "The process requested an environment variable outside the allowlist."
          "Secrets, shell configuration, JVM option injection, and arbitrary variables are not inherited."
          "Use only the documented non-secret build environment names." false)
    else none

unfoldable pub is_shell_executable : Text → Bool
is_shell_executable name =
    contains
      (bytes "cmd"
        ∷ bytes "cmd.exe"
        ∷ bytes "powershell"
        ∷ bytes "powershell.exe"
        ∷ bytes "pwsh"
        ∷ bytes "pwsh.exe"
        ∷ bytes "bash"
        ∷ bytes "bash.exe"
        ∷ bytes "sh"
        ∷ bytes "sh.exe"
        ∷ bytes "wsl"
        ∷ bytes "wsl.exe"
        ∷ [])
      name

unfoldable pub package_install_goal : BuildTool → List Text → Bool
package_install_goal tool arguments =
    any
      (λ argument.
        let lower = to_ascii_lowercase argument in
        (tool == maven
          && (lower == bytes "install"
              || lower == bytes "deploy"
              || contains_text lower (bytes "dependency:get")
              || contains_text lower (bytes "wrapper:")))
        || (tool == gradle
            && (lower == bytes "wrapper"
                || contains_text lower (bytes "publish")
                || contains_text lower (bytes "dependencyupdates"))))
      arguments

abbrev maven_options : List Text
maven_options =
    bytes "-f"
    ∷ bytes "--file"
    ∷ bytes "-s"
    ∷ bytes "--settings"
    ∷ bytes "-gs"
    ∷ bytes "--global-settings"
    ∷ bytes "-t"
    ∷ bytes "--toolchains"
    ∷ []

abbrev maven_prefixes : List Text
maven_prefixes =
    bytes "-dmaven.ext.class.path="
    ∷ bytes "-dmaven.home="
    ∷ bytes "-dmaven.multimoduleprojectdirectory="
    ∷ []

abbrev gradle_options : List Text
gradle_options =
    bytes "-b"
    ∷ bytes "--build-file"
    ∷ bytes "-c"
    ∷ bytes "--settings-file"
    ∷ bytes "-p"
    ∷ bytes "--project-dir"
    ∷ bytes "-g"
    ∷ bytes "--gradle-user-home"
    ∷ bytes "--init-script"
    ∷ bytes "--include-build"
    ∷ []

abbrev gradle_prefixes : List Text
gradle_prefixes =
    bytes "--build-file="
    ∷ bytes "--settings-file="
    ∷ bytes "--project-dir="
    ∷ bytes "--gradle-user-home="
    ∷ bytes "--init-script="
    ∷ bytes "--include-build="
    ∷ []

-- one argument of `dangerous_build_option`
unfoldable pub dangerous_argument : BuildTool → Text → Bool
dangerous_argument tool argument =
    let lower = to_ascii_lowercase argument in
    starts_with lower (bytes "@")
    || (if tool == maven
        then contains maven_options lower || any (starts_with lower) maven_prefixes
        else argument == bytes "-I"
          || contains gradle_options lower
          || any (starts_with lower) gradle_prefixes)

unfoldable pub dangerous_build_option : BuildTool → List Text → Bool
unfolding dangerous_argument
dangerous_build_option tool arguments = any (dangerous_argument tool) arguments

abbrev maven_goals : List Text
maven_goals =
    bytes "clean"
    ∷ bytes "compile"
    ∷ bytes "test"
    ∷ bytes "verify"
    ∷ bytes "package"
    ∷ bytes "checkstyle:check"
    ∷ []

abbrev gradle_goals : List Text
gradle_goals =
    bytes "clean"
    ∷ bytes "compilejava"
    ∷ bytes "test"
    ∷ bytes "check"
    ∷ bytes "build"
    ∷ bytes "assemble"
    ∷ []

unfoldable pub allowed_goal : BuildTool → Text → Bool
allowed_goal maven goal = contains maven_goals goal
allowed_goal gradle goal =
    contains gradle_goals goal
    || ends_with goal (bytes ":test")
    || ends_with goal (bytes ":check")
    || ends_with goal (bytes ":build")

-- The arguments that are no options, in lower case. The source collects them in a set, which it only
-- asks whether it is empty and whether all its members pass.
unfoldable pub goals_of : List Text → List Text
goals_of [] = []
goals_of (argument ∷ rest) =
    if starts_with argument (bytes "-")
    then goals_of rest
    else to_ascii_lowercase argument ∷ goals_of rest

unfoldable pub allowed_build_goals : BuildTool → List Text → Bool
unfolding goals_of allowed_goal
allowed_build_goals tool arguments =
    not (is_empty (goals_of arguments)) && all (allowed_goal tool) (goals_of arguments)

-- `"-o"` or `"--offline"` among the arguments
unfoldable pub is_offline : List Text → Bool
is_offline arguments =
    any (λ argument. argument == bytes "-o" || argument == bytes "--offline") arguments

-- What the `match` on the executable's name tells apart.
pub data Executable : Type 0 where
  build_tool : BuildTool → Bool → Executable
  java_runtime unknown_executable : Executable

unfoldable pub classify : Text → Executable
classify name =
    if contains (bytes "mvn" ∷ bytes "mvn.exe" ∷ bytes "mvn.cmd" ∷ []) name
    then build_tool maven false
    else if contains (bytes "mvnw" ∷ bytes "mvnw.cmd" ∷ []) name
    then build_tool maven true
    else if contains (bytes "gradle" ∷ bytes "gradle.exe" ∷ bytes "gradle.bat" ∷ []) name
    then build_tool gradle false
    else if contains (bytes "gradlew" ∷ bytes "gradlew.bat" ∷ []) name
    then build_tool gradle true
    else if contains (bytes "java" ∷ bytes "java.exe" ∷ bytes "javac" ∷ bytes "javac.exe" ∷ []) name
    then java_runtime
    else unknown_executable
