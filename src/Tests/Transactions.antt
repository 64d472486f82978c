-- ===== src/Tests/Transactions.antt =====
-- Transactions of crates/opticcode-tools/src/apply_transaction.rs on a small workspace, and the
-- witnesses of the properties of Transaction/.
use mathlib.Core.Path.{subst}
use optic_code.FilePath
use optic_code.Text
use optic_code.Approval.Binding.{has_repeat}
use optic_code.FilePath.{
  Component-discrete, FilePath, FilePath-discrete, normal, path_eq, root_dir, to_text,
}
use optic_code.Prelude.{
  All, Among, Bool, List, Option, OptionBool-discrete, OptionNat-discrete, Result, [], ap, arith,
  err, false, if◌then◌else◌, inl, inr, leb, map, nat_eq, none, ok, refl, some, sym, true, ℕ,
  ℕ_discrete, ◌++◌, ◌<◌, ◌==◌, ◌↔◌, ◌∙◌, ◌∷◌, ◌≡◌, ◌≤◌, ◌⊎◌,
}
use optic_code.Text.{Text, bytes, contains_text, forward_slashes, split_on, text_lt}
use optic_code.Transaction.Accepted.{
  IsJournalled, event_file, sort_event_files, transition-IsJournalled,
}
use optic_code.Transaction.Atomic.{IsPrepared, Verdict}
use optic_code.Transaction.BackedUp.{IsSpelledBack, file_record-IsRecordOf}
use optic_code.Transaction.Directories.{
  acquire_lock, allocate_id, claim_id, create_dir, create_synced, create_transaction_directory,
  ensure_workspace_directory, lock_of, metadata_root, open_link, opticcode_dir,
  validate_transaction_id, verify_workspace_directory,
}
use optic_code.Transaction.Execute.{
  apply_all, apply_each, apply_one, conclude, execute_apply_transaction, finalize, run_prepared,
  start_applying,
}
use optic_code.Transaction.Foreign.{restore_transaction_file-foreign}
use optic_code.Transaction.Git.{
  capture_git_for_manifest, capture_git_for_policy, capture_git_state, effective_git_changes,
  kept_changes, managed_paths, unmanaged, unrelated_git_changes, verify_git_restored,
  verify_git_state_for_commit,
}
use optic_code.Transaction.History.{check_event, check_events, event_name, validate_event_semantics}
use optic_code.Transaction.InFlight.{IsBetween, IsDistinct}
use optic_code.Transaction.Inspect.{
  ApplyTransactionInspection, RunView, check_backup, check_files, check_manifest, check_new_file,
  check_path, conclude_inspection, directory_entry, file_entry, inspect_entries, inspect_events,
  inspect_manifest, inspect_run_directory, invalid_inspection, validate_manifest_artifacts,
  without_manifest,
}
use optic_code.Transaction.Journal.{append_event, transition, valid_transition, write_new_atomic}
use optic_code.Transaction.Listed.{IsListed, IsSorted, list_apply_transactions-IsSorted}
use optic_code.Transaction.Listing.{
  RunEntry, RunsView, insert_inspection, inspect_run, inspect_runs, list_apply_transactions,
  sort_inspections,
}
use optic_code.Transaction.Logic.{IsQuiet}
use optic_code.Transaction.Machine.{
  Machine, Mode, Tree, World, attempt, call, check_fault, context, directory, fingerprint_bytes,
  gets, lift, missing, modify, pure, raise_if, regular, unstaged, with_kind, write_node, ◌>>=◌,
}
use optic_code.Transaction.Model.{
  ApplyFaultPoint, ApplyGitPolicy-discrete, ApplyTransactionEvent, ApplyTransactionManifest,
  ApplyTransactionRequest, ApplyTransactionResult, ApplyTransactionState,
  ApplyTransactionState-discrete, Failure, FileMutation, GitChanges-discrete, OptionState-discrete,
  applied, applying, as_str, committed, create, delete, during_finalization, finalizing,
  is_terminal, optional, prepared, replace, rollback_failed, rollback_started, rolled_back,
  transaction_error,
}
use optic_code.Transaction.Mutations.{
  apply_mutation, atomic_replace_bytes_checked, delete_target, discard, or_discard, publish,
  read_artifact, remove_created, remove_file, replace_staged, restore_backup, restore_changed,
  restore_left, restore_permissions, restore_transaction_file, set_permissions, sync_directory,
  verify_mutations_applied, write_back, write_synced_file, write_target,
}
use optic_code.Transaction.Prepare.{
  PreparedTransaction, back_up, backup_file, clean_before_lock, file_record, prepare_locked,
  prepare_transaction, resolve_workspace, write_artifact, write_run,
}
use optic_code.Transaction.Preparing.{IsPortable}
use optic_code.Transaction.Reads.{shown}
use optic_code.Transaction.Recover.{
  already_rolled_back, file_restored, inspect_apply_transaction, mode_restored, resume_journal,
  roll_back_from, roll_back_inspected, rollback_apply_transaction, verify_manifest_files_restored,
}
use optic_code.Transaction.Recovery.{rollback-after_run}
use optic_code.Transaction.Restoring.{IsCollisionFree}
use optic_code.Transaction.Rollback.{
  finish_rollback, git_after_rollback, restore_all, restore_each, result_from_manifest,
  rollback_manifest, start_rollback,
}
use optic_code.Transaction.Sorting.{
  insert_mutation, normalized_mutations, path_lt, sort_mutations, validate_and_sort_mutations,
}
use optic_code.Transaction.TargetPaths.{IsTarget, validate_relative_path-IsTarget}
use optic_code.Transaction.Targets.{
  canonical, check_entries, check_entry, is_dir, normalized_parts, portable, read_file, read_node,
  read_optional_regular_file, read_validated_target, validate_relative_path,
  validate_target_location,
}
use optic_code.Transaction.WholeRun.{execute-IsAtomic, run_prepared-returns}

abbrev plain : Mode
plain = record { readonly = false; unix_mode = none }

abbrev root : FilePath
root = root_dir ∷ normal (bytes "w") ∷ []

abbrev note : FilePath
note = normal (bytes "a") ∷ []

abbrev old : Text
old = bytes "o"

abbrev new : Text
new = bytes "n"

abbrev start_tree : Tree
start_tree p =
    if p == root then directory else if p == root ++ note then regular old plain else missing

-- a host on which some calls fail and some faults are injected
abbrev host : (ℕ → Bool) → (ApplyFaultPoint → Bool) → World
host fails fault = record {
  fails = fails;
  io_text = λ n. [];
  meddle = λ n t. t;
  fault = λ n p. fault p;
  canonicalize = λ t p. some p;
  follow = λ t p. t p;
  link_end = λ t p. p;
  new_mode = plain;
  blake3 = λ c. c;
  show = λ n. n ∷ [];
  show8 = λ n. n ∷ [];
  parse_path = λ t. map normal (split_on (λ c. c == 47) t);
  capture_git = λ t. err [];
  fresh_part = λ n. n ∷ [];
  now_ms = λ n. n;
  elapsed_ms = λ n. n;
  lock_free = true;
}

abbrev never : ℕ → Bool
never n = false

abbrev from_80 : ℕ → Bool
from_80 n = leb 80 n

abbrev no_fault : ApplyFaultPoint → Bool
no_fault p = false

abbrev late : ApplyFaultPoint → Bool
late during_finalization = true
late p = false

-- nothing fails; a fault before the commit; and a crash behind the first write
abbrev calm : World
calm = host never no_fault

abbrev faulty : World
faulty = host never late

abbrev crashing : World
crashing = host from_80 no_fault

lock_inside : FilePath.starts_with (lock_of root) (opticcode_dir root) ≡ true
unfolding FilePath.starts_with FilePath-discrete Component-discrete bytes ℕ_discrete
    Text.Text-discrete
lock_inside = refl

host-IsQuiet : (fails : ℕ → Bool) (fault : ApplyFaultPoint → Bool) → IsQuiet (host fails fault)
host-IsQuiet fails fault n t = refl

host-IsCollisionFree :
    (fails : ℕ → Bool) (fault : ApplyFaultPoint → Bool) → IsCollisionFree (host fails fault)
unfolding fingerprint_bytes bytes
host-IsCollisionFree fails fault none none e = refl
host-IsCollisionFree fails fault none (some b) e = cc
host-IsCollisionFree fails fault (some a) none e = cc
host-IsCollisionFree fails fault (some a) (some b) e = cc

abbrev start : Machine
start = record {
  tree = start_tree;
  staging = [];
  tick = 0;
  artifacts = λ p. none;
  manifest = none;
  events = [];
  journal = record { transaction_id = []; current_state = none; next_sequence = 0 };
}

abbrev change : FileMutation
change = record { path = note; expected_before = some old; desired_after = some new }

abbrev wrong : FileMutation
wrong = record change { expected_before = none }

abbrev ask : FileMutation → ApplyTransactionRequest
ask m = record {
  workspace = root;
  patch = [];
  mutations = m ∷ [];
  git_policy = optional;
  copied_from = none;
  requested_id = some (bytes "t");
}

abbrev final_of : Result Failure ApplyTransactionResult → Option ApplyTransactionState
final_of (ok r) = some r.final_state
final_of (err e) = none

abbrev run : World → FileMutation → Result Failure ApplyTransactionResult × Machine
run w m = execute_apply_transaction w (ask m) start

runs :
    (final_of (run calm change).0 ≡ some committed)
    × (final_of (run faulty change).0 ≡ some rolled_back)
    × (final_of (run crashing change).0 ≡ some rollback_failed)
    × (final_of (run calm wrong).0 ≡ none)
    × (shown ((run calm change).1.tree (root ++ note)) ≡ some (some new))
    × (shown ((run faulty change).1.tree (root ++ note)) ≡ some (some old))
    × (shown ((run crashing change).1.tree (root ++ note)) ≡ some (some new))
    × (map (λ e. e.event_state) (run faulty change).1.events
        ≡ prepared ∷ applying ∷ applied ∷ finalizing ∷ rollback_started ∷ rolled_back ∷ [])
    × (map (λ e. e.event_state) (run crashing change).1.events ≡ prepared ∷ applying ∷ [])
unfolding pure lift gets modify ◌>>=◌ attempt context with_kind raise_if write_node call check_fault
    fingerprint_bytes ApplyTransactionState-discrete OptionState-discrete as_str is_terminal
    ApplyGitPolicy-discrete transaction_error replace create delete GitChanges-discrete
    normalized_parts validate_relative_path check_entry check_entries is_dir canonical
    validate_target_location read_file read_node read_optional_regular_file read_validated_target
    valid_transition write_new_atomic append_event transition sync_directory set_permissions
    restore_permissions publish remove_file unstaged write_synced_file discard or_discard
    replace_staged atomic_replace_bytes_checked write_target delete_target apply_mutation
    read_artifact write_back restore_backup remove_created restore_left restore_changed
    restore_transaction_file verify_mutations_applied kept_changes effective_git_changes unmanaged
    unrelated_git_changes capture_git_state capture_git_for_policy capture_git_for_manifest
    verify_git_restored managed_paths verify_git_state_for_commit result_from_manifest restore_each
    restore_all start_rollback git_after_rollback finish_rollback rollback_manifest path_lt
    insert_mutation sort_mutations normalized_mutations validate_and_sort_mutations
    validate_transaction_id create_dir verify_workspace_directory create_synced
    ensure_workspace_directory metadata_root open_link acquire_lock claim_id allocate_id
    create_transaction_directory write_artifact backup_file file_record back_up clean_before_lock
    resolve_workspace write_run prepare_locked prepare_transaction apply_one apply_each
    start_applying finalize apply_all conclude run_prepared execute_apply_transaction
    FilePath.starts_with FilePath.strip_prefix ℕ_discrete to_text FilePath-discrete
    Component-discrete bytes Text.Text-discrete Text.OptionText-discrete split_on forward_slashes
    contains_text
runs = (refl, refl, refl, refl, refl, refl, refl, refl, refl)

-- a result, or a blank one
abbrev blank : ApplyTransactionResult
blank = record {
  schema_version = 0;
  transaction_id = [];
  workspace = [];
  operation_success = false;
  final_state = prepared;
  rollback_attempted = false;
  rollback_success = none;
  planned_files = [];
  modified_files = [];
  restored_files = [];
  errors = [];
  warnings = [];
  duration_ms = 0;
  git_restored = none;
}

abbrev result_of : Result Failure ApplyTransactionResult → ApplyTransactionResult
result_of (ok r) = r
result_of (err e) = blank

abbrev failure_of : Result Failure ApplyTransactionResult → Failure
failure_of (ok r) = record { error_kind = none; message = [] }
failure_of (err e) = e

returned :
    (out : Result Failure ApplyTransactionResult × Machine) {f : ApplyTransactionState}
    → final_of out.0 ≡ some f
    → out ≡ (ok (result_of out.0), out.1)
returned (ok r, s) h = refl
returned (err e, s) h = cc

note_valid : validate_relative_path note ≡ ok note
unfolding validate_relative_path normalized_parts bytes Text.Text-discrete ℕ_discrete
note_valid = refl

note-portable :
    (fails : ℕ → Bool) (fault : ApplyFaultPoint → Bool)
    → (host fails fault).parse_path (portable note) ≡ note
unfolding bytes to_text forward_slashes split_on ℕ_discrete
note-portable fails fault = refl

only_note :
    {p : FilePath} (m : FileMutation)
    → m.path ≡ note
    → validate_relative_path m.path ≡ ok p
    → p ≡ note
only_note {p} m e valid = same (sym valid ∙ ap validate_relative_path e ∙ note_valid)
  where
    same : ◌≡◌ {A = Result Failure FilePath} (ok p) (ok note) → p ≡ note
    same e = cc

host-IsPortable :
    (fails : ℕ → Bool) (fault : ApplyFaultPoint → Bool) (m : FileMutation)
    → m.path ≡ note
    → IsPortable (host fails fault) (m ∷ [])
host-IsPortable fails fault m e a (inl i) p valid =
    subst (λ x. (host fails fault).parse_path (portable x) ≡ x)
      (sym (only_note a (ap (λ (x : FileMutation). x.path) i ∙ e) valid))
      (note-portable fails fault)
host-IsPortable fails fault m e a (inr i) p valid = elim i [ ]

abbrev beside : FilePath
beside = root ++ normal (bytes "b") ∷ normal (bytes "c") ∷ []

execute-IsAtomic_example :
    ((result_of (run faulty change).0).final_state ≡ committed)
      × (shown ((run faulty change).1.tree (root ++ note)) ≡ some (some new))
    ⊎ ((result_of (run faulty change).0).final_state ≡ rolled_back)
      × (shown ((run faulty change).1.tree (root ++ note)) ≡ some (some old))
    ⊎ ((result_of (run faulty change).0).final_state ≡ rollback_failed)
      × IsBetween change ((run faulty change).1.tree (root ++ note))
execute-IsAtomic_example =
    execute-IsAtomic faulty (host-IsQuiet never late) (host-IsCollisionFree never late) (ask change)
      start root refl (host-IsPortable never late change refl) (λ t. lock_inside)
      (returned (run faulty change) runs.1) change (inl refl) note_valid

abbrev manifest_of : World → ApplyTransactionManifest
manifest_of w = record {
  schema_version = 1;
  transaction_id = bytes "t";
  workspace = root;
  copied_from = none;
  created_at_unix_ms = 0;
  patch_hash = [];
  patch_path = bytes "patch.diff";
  files = file_record w 0 change (some old) (some plain) ∷ [];
  validation = record {
    git_policy = optional;
    git_captured = false;
    git_clean = true;
    pre_existing_changes = 0;
    expected_contents_verified = true;
  };
  git_before = none;
}

abbrev ready : World → PreparedTransaction
ready w = record { workspace = root; manifest = manifest_of w; mutations = change ∷ [] }

start_note : shown (start_tree (root ++ note)) ≡ some (some old)
unfolding bytes FilePath-discrete Component-discrete ℕ_discrete
start_note = refl

ready-IsPrepared :
    (fails : ℕ → Bool) (fault : ApplyFaultPoint → Bool)
    → IsPrepared (host fails fault) (ready (host fails fault)) start_tree
ready-IsPrepared fails fault = record {
  distinct = one;
  recorded =
      (file_record-IsRecordOf (host fails fault) 0 change (some old) (some plain) spelled refl, tt);
  expected = at_note;
}
  where
    spelled : IsSpelledBack (host fails fault) change
    spelled = ap validate_relative_path (note-portable fails fault) ∙ note_valid

    one : IsDistinct (change ∷ [])
    one a b (inl e) (inl f) p = e ∙ sym f
    one a b (inl e) (inr j) p = elim j [ ]
    one a b (inr i) j p = elim i [ ]

    at_note :
        (m : FileMutation)
        → Among m (change ∷ [])
        → shown (start_tree (root ++ m.path)) ≡ some m.expected_before
    at_note m (inl e) = rw e start_note
    at_note m (inr i) = elim i [ ]

run_prepared-returns_example :
    (r : ApplyTransactionResult) × (s' : Machine) × (run_prepared crashing (ready crashing) start
      ≡ (ok r, s'))
    × Verdict (ready crashing) r.final_state s'.tree
run_prepared-returns_example =
    run_prepared-returns crashing (host-IsQuiet from_80 no_fault)
      (host-IsCollisionFree from_80 no_fault) (ready crashing) start
      (ready-IsPrepared from_80 no_fault)

abbrev other : Text
other = []

abbrev changed : Machine
changed = record start { tree = λ p. if p == root then directory else regular other plain }

restore_transaction_file-foreign_example :
    (e : Failure) × (s' : Machine) × (restore_transaction_file calm root
        (file_record calm 0 change (some old) none)
        changed
      ≡ (err e, s'))
    × (s'.tree ≡ changed.tree)
unfolding bytes FilePath-discrete Component-discrete ℕ_discrete file_record fingerprint_bytes
restore_transaction_file-foreign_example =
    restore_transaction_file-foreign calm (host-IsQuiet never no_fault) changed root (some other)
      (file_record calm 0 change (some old) none) note
      (ap validate_relative_path (note-portable never no_fault) ∙ note_valid) refl (λ e. cc)
      (λ e. cc)

-- behind a preparation: the journal, the event and the backup are there
abbrev prepared_event : ApplyTransactionEvent
prepared_event = record {
  schema_version = 1;
  transaction_id = bytes "t";
  sequence = 0;
  recorded_at_unix_ms = 0;
  event_state = prepared;
  message = [];
  files = [];
  errors = [];
  elapsed_ms = 0;
  git_snapshot = none;
}

abbrev prepared_machine : Machine
prepared_machine = record {
  tree = start_tree;
  staging = [];
  tick = 60;
  artifacts = λ p. some old;
  manifest = some (manifest_of calm);
  events = prepared_event ∷ [];
  journal = record { transaction_id = bytes "t"; current_state = some prepared; next_sequence = 1 };
}

abbrev look : Machine → RunView
look s = record {
  run_entry = directory_entry;
  manifest_entry = file_entry;
  manifest_json = ok (manifest_of calm);
  patch_regular = true;
  patch_hash = some [];
  backups_entry = directory_entry;
  backup_regular = λ p. true;
  backup_read = λ p. ok old;
  events_entry = directory_entry;
  event_files = ok (
      map (λ e. record { name = event_name calm (bytes "t") e; is_regular = true; event = ok e })
        s.events);
}

abbrev recovery : Result Failure ApplyTransactionResult × Machine
recovery =
    rollback_apply_transaction calm look root (bytes "t") (bytes "recovery")
      (run_prepared crashing (ready calm) prepared_machine).1

recovers :
    (final_of (run_prepared crashing (ready calm) prepared_machine).0 ≡ some rollback_failed)
    × (shown ((run_prepared crashing (ready calm) prepared_machine).1.tree (root ++ note))
        ≡ some (some new))
    × (final_of recovery.0 ≡ some rolled_back)
    × (shown (recovery.1.tree (root ++ note)) ≡ some (some old))
unfolding pure lift gets modify ◌>>=◌ attempt context with_kind raise_if write_node call check_fault
    fingerprint_bytes ApplyTransactionState-discrete OptionState-discrete as_str is_terminal
    ApplyGitPolicy-discrete transaction_error replace create delete GitChanges-discrete
    normalized_parts validate_relative_path check_entry check_entries is_dir canonical
    validate_target_location read_file read_node read_optional_regular_file read_validated_target
    valid_transition write_new_atomic append_event transition sync_directory set_permissions
    restore_permissions publish remove_file unstaged write_synced_file discard or_discard
    replace_staged atomic_replace_bytes_checked write_target delete_target apply_mutation
    read_artifact write_back restore_backup remove_created restore_left restore_changed
    restore_transaction_file verify_mutations_applied kept_changes effective_git_changes unmanaged
    unrelated_git_changes capture_git_state capture_git_for_policy capture_git_for_manifest
    verify_git_restored managed_paths verify_git_state_for_commit result_from_manifest restore_each
    restore_all start_rollback git_after_rollback finish_rollback rollback_manifest path_lt
    insert_mutation sort_mutations normalized_mutations validate_and_sort_mutations
    validate_transaction_id create_dir verify_workspace_directory create_synced
    ensure_workspace_directory metadata_root open_link acquire_lock claim_id allocate_id
    create_transaction_directory write_artifact backup_file file_record back_up clean_before_lock
    resolve_workspace write_run prepare_locked prepare_transaction apply_one apply_each
    start_applying finalize apply_all conclude run_prepared execute_apply_transaction
    FilePath.starts_with FilePath.strip_prefix ℕ_discrete to_text FilePath-discrete
    Component-discrete bytes Text.Text-discrete Text.OptionText-discrete split_on forward_slashes
    contains_text mode_restored file_restored verify_manifest_files_restored already_rolled_back
    resume_journal inspect_apply_transaction roll_back_from roll_back_inspected
    rollback_apply_transaction check_backup check_new_file check_path check_files
    validate_manifest_artifacts check_manifest invalid_inspection without_manifest inspect_events
    conclude_inspection inspect_manifest inspect_entries inspect_run_directory
    validate_event_semantics event_name check_event check_events OptionNat-discrete
    OptionBool-discrete has_repeat
recovers = (refl, refl, refl, refl)

-- both hosts take the same fingerprints
crossed : IsPrepared crashing (ready calm) start_tree
unfolding file_record fingerprint_bytes backup_file
crossed =
    let k = ready-IsPrepared from_80 no_fault in
    record { distinct = k.distinct; recorded = k.recorded; expected = k.expected }

note-IsTarget : IsTarget note
note-IsTarget = validate_relative_path-IsTarget note note_valid

rollback-after_run_example :
    ((result_of recovery.0).final_state ≡ rolled_back)
      × All (λ m. shown (recovery.1.tree (root ++ m.path)) ≡ some m.expected_before) (change ∷ [])
    ⊎ ((result_of recovery.0).final_state ≡ rollback_failed)
      × All (λ m. IsBetween m (recovery.1.tree (root ++ m.path))) (change ∷ [])
rollback-after_run_example =
    rollback-after_run crashing calm (host-IsQuiet from_80 no_fault) (host-IsQuiet never no_fault)
      (host-IsCollisionFree from_80 no_fault) (host-IsCollisionFree never no_fault) (ready calm)
      prepared_machine crossed (ready-IsPrepared never no_fault).recorded (note-IsTarget, tt) look
      (λ s. refl) root (λ t. refl) (λ t. lock_inside) (bytes "t") (bytes "recovery")
      (returned recovery recovers.2)

abbrev next_step : Result Failure Unit × Machine
next_step = transition calm applying (bytes "applying") [] [] none prepared_machine

next_step-returns : next_step ≡ (ok tt, next_step.1)
unfolding pure lift gets modify ◌>>=◌ attempt context raise_if call valid_transition
    write_new_atomic append_event transition as_str bytes ApplyTransactionState-discrete ℕ_discrete
next_step-returns = refl

prepared_machine-IsJournalled : IsJournalled (bytes "t") (manifest_of calm) prepared_machine
unfolding valid_transition validate_event_semantics ApplyTransactionState-discrete has_repeat
prepared_machine-IsJournalled = record {
  chained = (
    record { follows = refl; numbered = refl; owned = refl; versioned = refl; meant = refl },
    omega arith,
    tt,
  );
  current = refl;
  counted = refl;
  owner = refl;
}

-- an event that says `applying` of no file and no error
applying-meant :
    (e : ApplyTransactionEvent)
    → e.event_state ≡ applying
    → e.files ≡ []
    → e.errors ≡ []
    → e.git_snapshot ≡ none
    → validate_event_semantics e (manifest_of calm) ≡ []
unfolding validate_event_semantics ApplyTransactionState-discrete has_repeat
applying-meant e a b c d = rw a (rw b refl)

host_width :
    (m n : ℕ) (s t : Text)
    → m < n
    → n < 100000000
    → text_lt (calm.show8 m ++ s) (calm.show8 n ++ t) ≡ true
unfolding text_lt
host_width m n s t h k = ground arith

few_events : next_step.1.journal.next_sequence ≤ 100000000
unfolding pure lift gets modify ◌>>=◌ attempt context raise_if call valid_transition
    write_new_atomic append_event transition as_str bytes ApplyTransactionState-discrete ℕ_discrete
few_events = omega arith

transition-IsJournalled_example :
    IsJournalled (bytes "t") (manifest_of calm) next_step.1
    × (check_events calm
          (bytes "t")
          (some (manifest_of calm))
          none
          0
          (sort_event_files (map (event_file calm (λ e. e) ok (bytes "t")) next_step.1.events))
        ≡ (next_step.1.events, []))
transition-IsJournalled_example =
    transition-IsJournalled calm (λ e. e) ok (λ e. refl) host_width (bytes "t") (manifest_of calm)
      applying (bytes "applying") [] [] none applying-meant prepared_machine next_step.1
      prepared_machine-IsJournalled next_step-returns few_events

abbrev run_entries : List (Result Failure RunEntry)
run_entries =
    ok (record {
      name = bytes "t";
      metadata = ok (record {
        is_dir = true;
        is_file = false;
        is_symlink = false;
        len = 0;
        modified_unix_nanos = 0;
      });
      view = look prepared_machine;
    })
    ∷ []

abbrev runs_view : RunsView
runs_view = record { workspace = ok root; runs_is_dir = true; entries = ok run_entries }

abbrev listing : List ApplyTransactionInspection
listing =
    inspect_run calm root (record {
      name = bytes "t";
      metadata = ok (record {
        is_dir = true;
        is_file = false;
        is_symlink = false;
        len = 0;
        modified_unix_nanos = 0;
      });
      view = look prepared_machine;
    })
    ∷ []

listing-listed : list_apply_transactions calm runs_view ≡ ok listing
unfolding list_apply_transactions inspect_runs sort_inspections insert_inspection
listing-listed = refl

list_apply_transactions-IsSorted_example :
    IsSorted listing
    × ((i : ApplyTransactionInspection) → Among i listing ↔ IsListed calm root run_entries i)
list_apply_transactions-IsSorted_example =
    list_apply_transactions-IsSorted calm runs_view root run_entries listing refl refl refl
      listing-listed
