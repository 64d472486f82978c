-- ===== src/Process/Verified.antt =====
-- What `evaluate_process` of crates/opticcode-policy/src/engine.rs lets through: bounded verification
-- builds in the active worktree, and without a question only offline ones.
use optic_code.FilePath
use optic_code.FilePath.{FilePath, is_absolute, join}
use optic_code.Host.{Host}
use optic_code.Model.{PolicyRequest, mode_eq}
use optic_code.Model.Actions.{NetworkIntent, RunProcessAction, direct, undeclared}
use optic_code.Paths.{PathSafetyReport, file, inspect_path, inspect_root}
use optic_code.Prelude.{
  All, Among, Bool, List, [], contains, false, if◌then◌else◌, length, none, ok, some, true, ◌<◌,
  ◌∷◌, ◌≡◌, ◌≢◌, ◌≤◌,
}
use optic_code.Process.{
  evaluate_build, executable_name, file_target, installation_roots, process_limits, total_length,
}
use optic_code.Process.Arguments.{
  BuildTool, allowed_goal, dangerous_argument, goals_of, gradle, inherited_names, is_offline, maven,
  package_install_goal, unsafe_argument,
}
use optic_code.Rules.{RuleOutcome, denied}
use optic_code.Text.{Text, bytes, text_eq}
use optic_code.Worktree.{validated_active_worktree}

-- A build that only verifies: bounded, made of plain arguments, launched directly, with goals of the
-- allowlist alone and no option that leaves the reviewed build.
pub record IsVerification (tool : BuildTool) (a : RunProcessAction) : Type 0 where
  pub timeout : (0 < a.timeout_ms) × (a.timeout_ms ≤ 3600000)
  pub output : (0 < a.output_limit_bytes) × (a.output_limit_bytes ≤ 16777216)
  pub arguments_fit : (length a.arguments ≤ 256) × (total_length a.arguments ≤ 8192)
  pub environment_listed :
      All (λ name. contains inherited_names name ≡ true) a.environment_allowlist
  pub plain : All (λ argument. unsafe_argument argument a.launch ≡ false) a.arguments
  pub declares : a.network ≢ undeclared
  pub launched : a.launch ≡ direct
  pub has_goal : goals_of a.arguments ≢ []
  pub goals_listed : All (λ goal. allowed_goal tool goal ≡ true) (goals_of a.arguments)
  pub installs_nothing : package_install_goal tool a.arguments ≡ false
  pub stays_inside : All (λ argument. dangerous_argument tool argument ≡ false) a.arguments

-- No question is asked only of a build that is offline and declares that it needs no network.
abbrev pub IsOffline : RunProcessAction → Type 0
IsOffline a = (is_offline a.arguments ≡ true) × (a.network ≡ NetworkIntent.denied)

-- the executables of a build tool, installed or as a wrapper of the project
abbrev pub tool_names : BuildTool → Bool → List Text
tool_names maven false = bytes "mvn" ∷ bytes "mvn.exe" ∷ bytes "mvn.cmd" ∷ []
tool_names maven true = bytes "mvnw" ∷ bytes "mvnw.cmd" ∷ []
tool_names gradle false = bytes "gradle" ∷ bytes "gradle.exe" ∷ bytes "gradle.bat" ∷ []
tool_names gradle true = bytes "gradlew" ∷ bytes "gradlew.bat" ∷ []

-- the file below one of the roots, inspected there
abbrev pub IsInstalled : Host → List FilePath → FilePath → Type 0
IsInstalled host roots canonical =
    (r : FilePath) × (installed : FilePath) × (found : PathSafetyReport) × Among r roots
    × (inspect_root host r ≡ ok installed)
    × (FilePath.starts_with canonical installed ≡ true)
    × (inspect_path host (file_target installed canonical) file ≡ ok found)

-- An installed executable lies under a system root; a wrapper has the content of the source's wrapper.
abbrev pub IsTrusted : Host → FilePath → FilePath → FilePath → RunProcessAction → Bool → Type 0
IsTrusted host root active cwd a false =
    (is_absolute a.executable ≡ true)
    × ((canonical : FilePath) × (host.canonicalize a.executable ≡ ok canonical)
        × IsInstalled host installation_roots canonical)
IsTrusted host root active cwd a true =
    (wrapper : PathSafetyReport) × (original : PathSafetyReport) × (inspect_path host
        (file_target active
          (if is_absolute a.executable then a.executable else join cwd a.executable))
        file
      ≡ ok wrapper)
    × (inspect_path host (file_target root wrapper.relative_path) file ≡ ok original)
    × (wrapper.fingerprint.content_hash ≡ original.fingerprint.content_hash)

-- The start of a build: in the active worktree, by an executable of the tool that is trusted.
pub record IsBuildLaunch (host : Host) (request : PolicyRequest) (root : FilePath)
    (a : RunProcessAction) (tool : BuildTool) : Type 0 where
  pub active : FilePath
  pub worktree : validated_active_worktree host request root ≡ ok (some active)
  pub cwd : FilePath
  pub located : inspect_root host a.cwd ≡ ok cwd
  pub inside : FilePath.starts_with cwd active ≡ true
  pub wrapped : Bool
  pub named : contains (tool_names tool wrapped) (executable_name a) ≡ true
  pub trusted : IsTrusted host root active cwd a wrapped

-- the launch of a build that is not denied
abbrev Launched : BuildTool → RunProcessAction → RuleOutcome → Type 0
Launched tool a o = (o ≡ evaluate_build a tool) × (a.launch ≡ direct)

-- the same, by a trusted executable of the tool
abbrev Started : Host → FilePath → FilePath → FilePath → RunProcessAction → RuleOutcome → Type 0
Started host root active cwd a o =
    (tool : BuildTool) × (wrapped : Bool) × (contains (tool_names tool wrapped) (executable_name a)
      ≡ true)
    × IsTrusted host root active cwd a wrapped
    × Launched tool a o

module _ (host : Host) where
  -- what a process has passed in a worktree
  abbrev PassedIn : FilePath → RunProcessAction → FilePath → RuleOutcome → Type 0
  PassedIn root a active o =
      (process_limits a ≡ none)
      × ((cwd : FilePath) × (inspect_root host a.cwd ≡ ok cwd)
          × (FilePath.starts_with cwd active ≡ true)
          × Started host root active cwd a o)
