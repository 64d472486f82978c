-- ===== src/Transaction/Machine.antt =====
-- The machine under crates/opticcode-tools/src/apply_transaction.rs: the workspace as a tree of nodes,
-- the run directory of the transaction, the journal, and a count of the system calls. A `World` holds
-- what this repository does not implement. It decides which calls fail and what others did to the
-- workspace before each call; a crash is a world in which every later call fails. The files that stage
-- the content of a target beside it are kept apart from the tree, since their names are their own; the
-- temporary files of the run directory are not kept.
use optic_code.FilePath.{FilePath, normal, path_eq}
use optic_code.Prelude.{
  Bool, List, Option, Result, [], err, false, if◌then◌else◌, length, map_err, none, ok, some, ℕ,
  ◌++◌, ◌+◌, ◌==◌, ◌||◌, ◌∷◌,
}
use optic_code.Text.{Text, bytes}
use optic_code.Transaction.Model.{
  ApplyFaultPoint, ApplyTransactionErrorKind, ApplyTransactionEvent, ApplyTransactionManifest,
  ApplyTransactionState, Content, Failure, GitStateSnapshot, transaction_error,
}

pub record Mode : Type 0 where
  pub readonly : Bool
  pub unix_mode : Option ℕ

pub data Node : Type 0 where
  missing directory link special : Node
  regular : Text → Mode → Node

abbrev pub Tree : Type 0
Tree = FilePath → Node

pub record World : Type 0 where
  pub fails : ℕ → Bool
  pub io_text : ℕ → Text
  pub meddle : ℕ → Tree → Tree
  pub fault : ℕ → ApplyFaultPoint → Bool
  -- `fs::canonicalize`, and `fs::metadata` of a link
  pub canonicalize : Tree → FilePath → Option FilePath
  pub follow : Tree → FilePath → Node
  -- where a link leads that is opened
  pub link_end : Tree → FilePath → FilePath
  -- the mode of a new file
  pub new_mode : Mode
  pub blake3 : Text → Text
  -- `{}` and `{:08}` of a number, and `Path::new` of a text
  pub show : ℕ → Text
  pub show8 : ℕ → Text
  pub parse_path : Text → FilePath
  -- `capture_git_state` (git_state.rs), which runs git
  pub capture_git : Tree → Result Text GitStateSnapshot
  -- the time in nanoseconds, the process and a counter in a fresh identifier
  pub fresh_part : ℕ → Text
  -- `unix_time_ms`, and the time since the start
  pub now_ms : ℕ → ℕ
  pub elapsed_ms : ℕ → ℕ
  -- `try_lock` on the lock file of the workspace
  pub lock_free : Bool

pub record TransactionJournal : Type 0 where
  pub transaction_id : Text
  pub current_state : Option ApplyTransactionState
  pub next_sequence : ℕ

-- `.opticcode-target-{..}.tmp` in the directory of a target
pub record StagingFile : Type 0 where
  pub parent : FilePath
  pub unique : Text

pub record Machine : Type 0 where
  pub tree : Tree
  pub staging : List StagingFile
  pub tick : ℕ
  -- the run directory: its files by their relative paths, the manifest and the events in order
  pub artifacts : FilePath → Option Text
  pub manifest : Option ApplyTransactionManifest
  pub events : List ApplyTransactionEvent
  pub journal : TransactionJournal

abbrev pub Op : Type 0 → Type 0
Op A = Machine → Result Failure A × Machine

unfoldable pub pure : {A : Type 0} → A → Op A
pure a s = (ok a, s)

unfoldable pub lift : {A : Type 0} → Result Failure A → Op A
lift r s = (r, s)

unfoldable pub gets : {A : Type 0} → (Machine → A) → Op A
gets f s = (ok (f s), s)

unfoldable pub modify : (Machine → Machine) → Op Unit
modify f s = (ok tt, f s)

abbrev pub raise : {A : Type 0} → ApplyTransactionErrorKind → Text → Op A
raise k message = lift (err (transaction_error k message))

abbrev pub after : {A B : Type 0} → Result Failure A → (A → Op B) → Op B
after (ok a) f s = f a s
after (err e) f s = (err e, s)

infixl 5 ◌>>=◌ ◌>>◌
unfoldable pub ◌>>=◌ : {A B : Type 0} → Op A → (A → Op B) → Op B
◌>>=◌ m f s = let (r, s') = m s in after r f s'

abbrev pub ◌>>◌ : {B : Type 0} → Op Unit → Op B → Op B
m >> k = m >>= λ _. k

-- `if let Err(error) = m` and `match m`: the error is a value, and what was done stays done
unfoldable pub attempt : {A : Type 0} → Op A → Op (Result Failure A)
attempt m s = let (r, s') = m s in (ok r, s')

-- the arms of that `match`
abbrev pub on_result : {A B : Type 0} → Result Failure A → (Failure → Op B) → (A → Op B) → Op B
on_result (err e) failed went_on = failed e
on_result (ok a) failed went_on = went_on a

abbrev pub prefixed : Text → Failure → Failure
prefixed c e = record e { message = c ++ bytes ": " ++ e.message }

-- `with_context`
unfoldable pub context : {A : Type 0} → Text → Op A → Op A
context c m s = let (r, s') = m s in (map_err (prefixed c) r, s')

abbrev pub kinded : ApplyTransactionErrorKind → Text → Failure → Failure
kinded k c e = transaction_error k (c ++ bytes ": " ++ e.message)

-- `map_err(|error| transaction_error(k, ..))`
unfoldable pub with_kind : {A : Type 0} → ApplyTransactionErrorKind → Text → Op A → Op A
with_kind k c m s = let (r, s') = m s in (map_err (kinded k c) r, s')

-- `if test { return Err(..) }`
unfoldable pub raise_if : Bool → ApplyTransactionErrorKind → Text → Op Unit
raise_if test k message = if test then raise k message else pure tt

unfoldable pub write_node : Tree → FilePath → Node → Tree
write_node t p n q = if q == p then n else t q

abbrev pub staging_path : StagingFile → FilePath
staging_path f = f.parent ++ normal (bytes ".opticcode-target-" ++ f.unique ++ bytes ".tmp") ∷ []

-- without the staging file of this path
unfoldable pub unstaged : FilePath → List StagingFile → List StagingFile
unstaged p [] = []
unstaged p (f ∷ rest) =
    let others = unstaged p rest in if staging_path f == p then others else f ∷ others

unfoldable pub is_staged : FilePath → List StagingFile → Bool
is_staged p [] = false
is_staged p (f ∷ rest) = staging_path f == p || is_staged p rest

-- what stands at a path: a staging file that was left there, or the node of the tree
pub data Standing : Type 0 where
  staging_file : Standing
  entry_node : Node → Standing

abbrev pub standing_at : Machine → FilePath → Standing
standing_at s p = if is_staged p s.staging then staging_file else entry_node (s.tree p)

abbrev pub put_node : FilePath → Node → Op Unit
put_node p n = modify (λ s. record s { tree = write_node s.tree p n })

module _ (w : World) where
  -- One system call: others may act before it, and it may fail.
  unfoldable pub call : Op Unit
  call s =
      let s' = record s { tick = s.tick + 1; tree = w.meddle s.tick s.tree } in
      if w.fails s.tick
      then (err (record { error_kind = none; message = w.io_text s.tick }), s')
      else (ok tt, s')

  -- `faults.check(point)`
  unfoldable pub check_fault : ApplyFaultPoint → Op Unit
  check_fault point s =
      if w.fault s.tick point
      then (err (record { error_kind = none; message = bytes "injected fault" }), s)
      else (ok tt, s)

  -- `if first { faults.check(point)? }`
  abbrev pub at_first : Bool → ApplyFaultPoint → Op Unit
  at_first first point = if first then check_fault point else pure tt

  -- `fs::symlink_metadata`, where a missing entry is an answer and not an error
  abbrev pub symlink_metadata : FilePath → Op Node
  symlink_metadata p = call >> gets (λ s. s.tree p)

  abbrev followed : Tree → FilePath → Node → Node
  followed t p link = w.follow t p
  followed t p n = n

  -- `fs::metadata`, which follows a link
  abbrev pub metadata : FilePath → Op Node
  metadata p = call >> gets (λ s. followed s.tree p (s.tree p))

  -- `fingerprint_bytes`
  unfoldable pub fingerprint_bytes : Text → Text
  fingerprint_bytes content =
      bytes "blake3:" ++ w.show (length content) ++ bytes ":" ++ w.blake3 content

  abbrev pub fingerprint_of : Content → Option Text
  fingerprint_of none = none
  fingerprint_of (some content) = some (fingerprint_bytes content)
