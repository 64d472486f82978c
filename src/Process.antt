-- ===== src/Process.antt =====
-- `evaluate_process` of crates/opticcode-policy/src/engine.rs, in the order of its checks.
pub mod Arguments
pub mod Verified
use optic_code.FilePath
use optic_code.FilePath.{FilePath, file_name, is_absolute, join, normal, path_eq, root_dir}
use optic_code.Host.{Host, IoError, cfg_windows}
use optic_code.Model.{
  PolicyRequest, critical, high, max_policy_argument_bytes, max_policy_arguments,
  max_policy_output_bytes, max_policy_timeout_ms, medium, mode_eq, worktree_edit,
}
use optic_code.Model.Actions.{
  NetworkIntent, PathTarget, ProcessLaunch, RunProcessAction, direct, launch_eq, network_eq, shell,
  undeclared, windows_command_script,
}
use optic_code.Paths.{Checked, PathSafetyReport, directory, file, inspect_path, inspect_root}
use optic_code.Prelude.{
  List, Option, Result, [], any, contains, err, false, if◌then◌else◌, length, ltb, map_ok, nat_eq,
  none, not, ok, ok_or, some, true, ℕ, ◌!=◌, ◌&&◌, ◌+◌, ◌==◌, ◌||◌, ◌∷◌,
}
use optic_code.Process.Arguments.{
  BuildTool, allowed_build_goals, build_tool, classify, dangerous_build_option, is_offline,
  is_shell_executable, java_runtime, package_install_goal, unknown_executable, unsafe_argument,
  validate_environment_allowlist,
}
use optic_code.Rules.{
  Eval, RuleOutcome, allowed, approval_required, denied, done, outside_scope_denied, push,
  read_only_write_denied, try, ◌>>=◌, ◌>>◌,
}
use optic_code.Text.{Text, bytes, option_text_eq, text_eq, to_ascii_lowercase}
use optic_code.Worktree.{validated_active_worktree}

abbrev pub total_length : List Text → ℕ
total_length [] = 0
total_length (a ∷ rest) = length a + total_length rest

abbrev pub file_target : FilePath → FilePath → PathTarget
file_target root path = record { root = root; path = path; range = none; expected_hash = none }

abbrev pub installation_roots : List FilePath
installation_roots =
    (root_dir ∷ normal (bytes "usr") ∷ normal (bytes "bin") ∷ [])
    ∷ (root_dir ∷ normal (bytes "usr") ∷ normal (bytes "local") ∷ normal (bytes "bin") ∷ [])
    ∷ (root_dir ∷ normal (bytes "opt") ∷ [])
    ∷ []

-- the arguments and the network intent
unfoldable pub argument_limits : RunProcessAction → Option RuleOutcome
argument_limits action =
    if any (λ argument. unsafe_argument argument action.launch) action.arguments
    then some (
        denied "process.metacharacter_denied" critical
          "Shell composition and control characters are blocked."
          "At least one argument contains a shell operator, newline, NUL, or command substitution."
          "Pass plain, separate build-tool arguments only." false)
    else if action.network == undeclared
    then some (
        denied "network.undeclared" critical "Undeclared network access is blocked."
          "Every process must declare whether it may contact the network."
          "Declare denied, declared, or required network intent." true)
    else none

-- The checks on the action alone, from the timeout to the network intent: the first that fails.
unfoldable pub process_limits : RunProcessAction → Option RuleOutcome
unfolding argument_limits
process_limits action =
    if action.timeout_ms == 0 || ltb max_policy_timeout_ms action.timeout_ms
    then some (
        denied "process.timeout_invalid" high "The process timeout is outside policy bounds."
          "A bounded timeout is mandatory for every child process."
          "Use a timeout between 1 ms and one hour." true)
    else if action.output_limit_bytes == 0 || ltb max_policy_output_bytes action.output_limit_bytes
    then some (
        denied "process.output_limit_invalid" high "The process output bound is invalid."
          "Bounded stdout and stderr capture is mandatory."
          "Use an output limit up to 16 MiB per stream." true)
    else if ltb max_policy_arguments (length action.arguments)
        || ltb max_policy_argument_bytes (total_length action.arguments)
    then some (
        denied "process.arguments_too_large" high "The process argument list exceeds policy bounds."
          "Arguments must remain separately represented and bounded." "Reduce the argument list."
          true)
    else elim (validate_environment_allowlist action.environment_allowlist) [
      | some rule ↦ some rule
      | none ↦ argument_limits action
    ]

-- the last part: goals, options and the network
unfoldable pub evaluate_build : RunProcessAction → BuildTool → RuleOutcome
evaluate_build action tool =
    if package_install_goal tool action.arguments
    then denied "process.package_install_denied" critical
        "Install and dependency-management goals are blocked."
        "The build invocation requests a machine or dependency state mutation."
        "Use compile, test, verify, package, or check goals." false
    else if dangerous_build_option tool action.arguments
    then denied "process.option_denied" critical
        "The build command contains an option outside the verification allowlist."
        "Project, settings, init-script, extension, response-file, or tool-home overrides can escape the reviewed build boundary."
        "Use the project defaults and ordinary verification flags only." false
    else if not (allowed_build_goals tool action.arguments)
    then denied "process.goal_unknown" high "The build goal is not in the verification allowlist."
        "Only compile, test, verify, package, and check-style tasks are supported."
        "Select an allowlisted verification goal." true
    else if is_offline action.arguments && action.network == NetworkIntent.denied
    then allowed "process.build_offline" "active_worktree_build"
        ("Maven or Gradle allowlist" ∷ "offline" ∷ "bounded timeout" ∷ "bounded output"
          ∷ "active worktree cwd" ∷ [])
        "The offline build or test may run in the disposable worktree."
        "Executable, arguments, cwd, timeout, output, and network intent passed policy."
    else if action.network == NetworkIntent.denied
    then denied "process.offline_required" high
        "A network-denied build must explicitly use offline mode."
        "The process requested network denial without Maven or Gradle's offline flag."
        "Add --offline (or -o) or declare the exact network requirement for approval." true
    else approval_required "process.build_network_requires_approval" medium
        "This Maven or Gradle verification may access the network."
        "The invocation is bounded but is not provably offline."
        "Confirm the exact build command and declared network access."

-- `file_name().and_then(to_str).unwrap_or("").to_ascii_lowercase()`
unfoldable pub executable_name : RunProcessAction → Text
executable_name action =
    to_ascii_lowercase (elim (file_name action.executable) [ some name ↦ name | none ↦ [] ])

-- the launch mode of an executable, given the scripts that have a launcher of their own
abbrev expected_launch : List Text → Text → ProcessLaunch
expected_launch scripts name =
    if cfg_windows && contains scripts name then windows_command_script else direct

-- an installed tool that was found, and its launch mode
unfoldable pub launch_installed :
    Text → RunProcessAction → BuildTool → PathSafetyReport → Eval RuleOutcome
launch_installed name action tool found = do
  push found
  if (action.launch != expected_launch (bytes "mvn.cmd" ∷ bytes "gradle.bat" ∷ []) name)
      then done (
          denied "process.installed_launch_invalid" high
            "The installed build executable launch mode is invalid."
            "Native executables use direct launch; validated Windows scripts use the dedicated script launcher."
            "Use the launch mode associated with the validated executable type." true)
      else done (evaluate_build action tool)

-- a wrapper whose content is compared with the one of the source, and its launch mode
unfoldable pub launch_wrapper :
    Text → RunProcessAction → BuildTool → PathSafetyReport → PathSafetyReport → Eval RuleOutcome
launch_wrapper name action tool wrapper source_wrapper =
    if wrapper.fingerprint.content_hash != source_wrapper.fingerprint.content_hash
    then done (
        denied "process.wrapper_drift" critical
          "A modified project build wrapper cannot be executed."
          "The wrapper content in the disposable worktree differs from the observed source wrapper."
          "Restore the wrapper and keep proposal edits outside build launchers." false)
    else do
      push wrapper
      push source_wrapper
      if (action.launch != expected_launch (bytes "mvnw.cmd" ∷ bytes "gradlew.bat" ∷ []) name)
          then done (
              denied "process.wrapper_launch_invalid" high
                "The project build wrapper launch mode is invalid."
                "Windows command scripts use the dedicated launcher; executable wrappers launch directly."
                "Use the launch mode associated with the validated wrapper type." true)
          else done (evaluate_build action tool)

module _ (host : Host) where
  abbrev pub look_under :
      FilePath
      → Checked FilePath
      → Checked (Option PathSafetyReport)
      → Checked (Option PathSafetyReport)
  look_under canonical (err _) others = others
  look_under canonical (ok root) others =
      if FilePath.starts_with canonical root
      then map_ok some (inspect_path host (file_target root canonical) file)
      else others

  -- the roots of `inspect_installed_executable`, in order
  unfoldable pub inspect_under : List FilePath → FilePath → Checked (Option PathSafetyReport)
  inspect_under [] canonical = ok none
  inspect_under (r ∷ rest) canonical =
      look_under canonical (inspect_root host r) (inspect_under rest canonical)

  abbrev pub inspect_canonical : Result IoError FilePath → Checked (Option PathSafetyReport)
  inspect_canonical (err _) = ok none
  inspect_canonical (ok canonical) = inspect_under installation_roots canonical

  unfoldable pub inspect_installed_executable : FilePath → Checked (Option PathSafetyReport)
  inspect_installed_executable executable =
      if not (is_absolute executable)
      then ok none
      else inspect_canonical (host.canonicalize executable)

  -- a wrapper of the project, which must equal the one of the source
  unfoldable pub evaluate_wrapper :
      FilePath → FilePath → FilePath → Text → RunProcessAction → BuildTool → Eval RuleOutcome
  unfolding launch_wrapper
  evaluate_wrapper workspace_root active cwd name action tool = do
    let executable =
        if is_absolute action.executable then action.executable else join cwd action.executable
    wrapper ← try (inspect_path host (file_target active executable) file)
    source_wrapper ← try (inspect_path host (file_target workspace_root wrapper.relative_path) file)
    launch_wrapper name action tool wrapper source_wrapper

  -- an installed tool, which must stand under a system root
  unfoldable pub evaluate_installed : Text → RunProcessAction → BuildTool → Eval RuleOutcome
  evaluate_installed name action tool = do
    report ← try (inspect_installed_executable action.executable)
    elim report [
      | none ↦ done (
          denied "process.executable_untrusted" critical
            "The installed build executable is not from a trusted absolute location."
            "Bare PATH lookup and executables outside system installation roots can be shadowed."
            "Use the validated project wrapper or an absolute Maven/Gradle installation path."
            false)
      | some found ↦ launch_installed name action tool found
    ]

  -- the executable: no shell, no Java runtime, and one of the build tools
  unfoldable pub evaluate_executable :
      FilePath → FilePath → FilePath → RunProcessAction → Eval RuleOutcome
  evaluate_executable workspace_root active cwd action =
      let name = executable_name action in
      if is_shell_executable name || action.launch == shell
      then done (
          denied "process.shell_denied" critical "Arbitrary shell execution is blocked."
            "PowerShell, cmd, bash, and composed shell launch are outside the process allowlist."
            "Use a supported build executable with separate arguments." false)
      else elim (classify name) [
        | build_tool tool wrapped ↦
            if wrapped
            then evaluate_wrapper workspace_root active cwd name action tool
            else evaluate_installed name action tool
        | java_runtime ↦ done (
            denied "process.java_runtime_denied" critical
              "Direct Java execution is not enabled by this policy version."
              "A generic Java or javac command can load arbitrary classes or annotation processors."
              "Use an allowlisted Maven or Gradle verification task in the disposable worktree."
              false)
        | unknown_executable ↦ done (
            denied "process.executable_unknown" critical
              "The executable is not in the build allowlist."
              "Only Maven and Gradle verification executables are supported."
              "Use the project Maven or Gradle wrapper with bounded arguments." false)
      ]

  -- a working directory below the worktree is inspected too
  unfoldable pub inspect_cwd : FilePath → FilePath → Eval Unit
  inspect_cwd active cwd = if cwd == active then done tt else do
    relative ← try (
        ok_or
          (record {
            rule_id = "process.cwd_outside_worktree";
            message = bytes "process cwd is outside the active worktree";
          })
          (FilePath.strip_prefix cwd active))
    report ← try (inspect_path host (file_target active relative) directory)
    push report

  unfoldable pub evaluate_in_worktree : FilePath → RunProcessAction → FilePath → Eval RuleOutcome
  evaluate_in_worktree workspace_root action active = do
    cwd ← try (inspect_root host action.cwd)
    if not (FilePath.starts_with cwd active) then done outside_scope_denied else do
      inspect_cwd active cwd
      elim (process_limits action) [
        | some rule ↦ done rule
        | none ↦ evaluate_executable workspace_root active cwd action
      ]

  unfoldable pub evaluate_process : PolicyRequest → FilePath → RunProcessAction → Eval RuleOutcome
  evaluate_process request workspace_root action =
      if request.mode != worktree_edit then done read_only_write_denied else do
        active ← try (validated_active_worktree host request workspace_root)
        elim active [
          | none ↦ done outside_scope_denied
          | some root ↦ evaluate_in_worktree workspace_root action root
        ]
