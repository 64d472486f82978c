-- ===== src/Transaction/Preparing.antt =====
-- What `prepare_transaction` of crates/opticcode-tools/src/apply_transaction.rs establishes before the
-- first target is written.
use mathlib.Core.Path.{subst}
use optic_code.FilePath
use optic_code.FilePath.{FilePath}
use optic_code.Prelude.{
  All, All-Among, Among, Among-All, List, Option, [], ap, false, inl, inr, none, ok, refl, some,
  sym, true, ◌!=◌, ◌++◌, ◌∙◌, ◌∷◌, ◌≡◌, ◌≢◌,
}
use optic_code.Transaction.Appends.{Does-transition}
use optic_code.Transaction.Atomic.{IsPrepared}
use optic_code.Transaction.BackedUp.{Does-write_run, IsSpelledBack}
use optic_code.Transaction.Directories.{opticcode_dir}
use optic_code.Transaction.GitReads.{Does-capture_git_for_policy}
use optic_code.Transaction.InFlight.{IsDistinct, write_node-other}
use optic_code.Transaction.Logic.{
  Does, Does-bind, Does-call, Does-gets, Does-given, Does-if, Does-lift, Does-modify, Does-pure,
  Does-raise_if, Does-weaken, Does-with_kind, IsQuiet,
}
use optic_code.Transaction.Machine.{Tree, World}
use optic_code.Transaction.Model.{
  ApplyTransactionManifest, ApplyTransactionRequest, FileMutation, git_policy_eq, require_clean,
}
use optic_code.Transaction.Outside.{
  Does-acquire_lock, Does-create_transaction_directory, IsLocal, IsLockInside,
}
use optic_code.Transaction.Prepare.{
  PreparedTransaction, clean_before_lock, prepare_locked, prepare_transaction, resolve_workspace,
}
use optic_code.Transaction.Reads.{Does-is_dir, shown}
use optic_code.Transaction.Sorted.{
  Among-sort, Does-normalized_mutations, HasNewNames-IsDistinct, IsNormalized, StandFor,
}
use optic_code.Transaction.Sorting.{sort_mutations, validate_and_sort_mutations}
use optic_code.Transaction.TargetPaths.{IsTarget, validate_relative_path-fixed}
use optic_code.Transaction.Targets.{canonical, portable, resolved_or_raise, validate_relative_path}
use optic_code.Transaction.Undone.{Recorded}

-- nothing but what is below `.opticcode` was touched
abbrev pub Outside : FilePath → Tree → Tree → Type 0
Outside workspace before t =
    (p : FilePath) → FilePath.starts_with p (opticcode_dir workspace) ≡ false → t p ≡ before p

pub Outside-IsLocal :
    (workspace : FilePath) (before : Tree) → IsLocal (Outside workspace before) workspace
Outside-IsLocal workspace before t p n below h r aside =
    write_node-other t p r n (λ e.
      elim (true_not_false
        (sym below ∙ ap (λ x. FilePath.starts_with x (opticcode_dir workspace)) e ∙ aside)) [ ])
    ∙ h r aside
  where
    true_not_false : true ≢ false
    true_not_false e = cc

-- The paths of a request are read back from the manifest as they were validated.
abbrev pub IsPortable : World → List FileMutation → Type 0
IsPortable w ms =
    (m : FileMutation)
    → Among m ms
    → (p : FilePath) → validate_relative_path m.path ≡ ok p
    → w.parse_path (portable p) ≡ p

spelled_back :
    (w : World) (ms ns : List FileMutation)
    → IsPortable w ms
    → StandFor ms ns
    → All (λ n. IsTarget n.path) ns
    → All (IsSpelledBack w) ns
spelled_back w [] [] portable_paths stand targets = tt
spelled_back w [] (n ∷ ns) portable_paths stand targets = elim stand [ ]
spelled_back w (m ∷ ms) [] portable_paths stand targets = elim stand [ ]
spelled_back w (m ∷ ms) (n ∷ ns) portable_paths stand targets = (
  ap validate_relative_path (portable_paths m (inl refl) n.path stand.0.0)
      ∙ validate_relative_path-fixed n.path targets.0,
  spelled_back w ms ns (λ a i. portable_paths a (inr i)) stand.1 targets.1,
)

-- the normalized mutations behind the sorted ones
pub record IsSorted (ms sorted : List FileMutation) : Type 0 where
  pub normalized : List FileMutation
  pub checked : IsNormalized [] ms normalized
  pub same : sorted ≡ sort_mutations normalized

module _ (w : World) (q : IsQuiet w) (before : Tree) (request : ApplyTransactionRequest)
    (workspace : FilePath) (located : w.canonicalize before request.workspace ≡ some workspace)
    (portable_paths : IsPortable w request.mutations) (inside : IsLockInside w workspace) where
  abbrev Start : Tree → Type 0
  Start t = t ≡ before

  abbrev Aside : Tree → Type 0
  Aside = Outside workspace before

  initially : (t : Tree) → Start t → Aside t
  initially t e p aside = ap (λ (x : Tree). x p) e

  still : (t : Tree) → Aside t → Aside t
  still t h = h

  Does-canonical_workspace :
      Does Start (canonical w request.workspace) (λ r t. Start t × (r ≡ workspace)) Aside
  unfolding canonical
  Does-canonical_workspace = Does-bind _ _ (Does-call w q initially) (λ _.
      Does-bind _ _
        (Does-gets {Q = λ o t. Start t × (o ≡ some workspace)} _
          (λ s h. (h, ap (λ (t : Tree). w.canonicalize t request.workspace) h ∙ located)))
        answer)
    where
      answer :
          (o : Option FilePath)
          → Does
              (λ t. Start t × (o ≡ some workspace))
              (resolved_or_raise request.workspace o)
              (λ r t. Start t × (r ≡ workspace))
              Aside
      answer none = Does-lift _ (λ t h a e. cc) (λ t h. initially t h.0)
      answer (some r) = Does-pure r (λ t h. (h.0, some_inj h.1))
        where
          some_inj : some r ≡ some workspace → r ≡ workspace
          some_inj e = cc

  Does-resolve_workspace :
      Does Start (resolve_workspace w request.workspace) (λ r t. Start t × (r ≡ workspace)) Aside
  unfolding resolve_workspace
  Does-resolve_workspace = Does-bind _ _ (Does-with_kind _ _ _ Does-canonical_workspace) (λ r.
      Does-given _ _ (λ e. Does-bind _ _ (Does-is_dir w q initially r) (λ present.
        Does-bind _ _ (Does-raise_if {Q = λ _. Start} _ _ _ (λ d t h. h) initially)
          (λ _. Does-pure r (λ t h. (h, e))))))

  Does-clean_before_lock : Does Start (clean_before_lock w request.git_policy) (λ _. Start) Aside
  unfolding clean_before_lock
  Does-clean_before_lock =
      Does-if (request.git_policy != require_clean) _ _ (λ _. Does-pure tt (λ t h. h))
        (λ _.
          Does-bind _ _ (Does-capture_git_for_policy w q initially _)
            (λ a. Does-raise_if _ _ _ (λ d t h. h) initially))

  Does-IsSorted :
      Does Start
        (validate_and_sort_mutations w workspace request.mutations)
        (λ ms t. Start t × IsSorted request.mutations ms)
        Aside
  unfolding validate_and_sort_mutations
  Does-IsSorted =
      Does-bind _ _ (Does-normalized_mutations w q initially workspace [] request.mutations)
        (λ ns. Does-pure _ (λ t h. (h.0, record { normalized = ns; checked = h.1; same = refl })))

  -- what is ready when the preparation returns
  pub record IsReady (ready : PreparedTransaction) (t : Tree) : Type 0 where
    pub placed : ready.workspace ≡ workspace
    pub sorted : IsSorted request.mutations ready.mutations
    pub prepared : IsPrepared w ready t
    pub aside : Aside t

  IsSorted-IsSpelledBack :
      (ms : List FileMutation) → IsSorted request.mutations ms → All (IsSpelledBack w) ms
  IsSorted-IsSpelledBack ms h = All-Among ms (λ m i.
      Among-All (IsSpelledBack w) h.normalized
        (spelled_back w request.mutations h.normalized portable_paths h.checked.stand
          h.checked.targets)
        m (Among-sort h.normalized m (subst (Among m) h.same i)))

  IsSorted-IsDistinct : (ms : List FileMutation) → IsSorted request.mutations ms → IsDistinct ms
  IsSorted-IsDistinct ms h a b ia ib =
      HasNewNames-IsDistinct [] h.normalized h.checked.names a b
        (Among-sort h.normalized a (subst (Among a) h.same ia))
        (Among-sort h.normalized b (subst (Among b) h.same ib))

  Does-prepare_locked :
      (ms : List FileMutation)
      → IsSorted request.mutations ms
      → Does Aside (prepare_locked w request workspace ms) IsReady Aside
  unfolding prepare_locked
  Does-prepare_locked ms h =
      Does-bind _ _
        (Does-acquire_lock w q still workspace (Outside-IsLocal workspace before) inside)
        (λ _. Does-bind _ _ (Does-capture_git_for_policy w q still _) (λ git.
          Does-bind _ _ (Does-raise_if {Q = λ _. Aside} _ _ _ (λ d t k. k) still) (λ _.
            Does-bind _ _
              (Does-create_transaction_directory w q still workspace
                (Outside-IsLocal workspace before) _)
              (λ id.
                Does-bind _ _
                  (Does-write_run w q Aside still request workspace ms git id
                    (IsSorted-IsSpelledBack ms h))
                  (λ manifest.
                    Does-bind _ _ (Does-modify {Q = λ _. Written manifest} _ (λ s k. k)) (λ _.
                      Does-bind _ _ (Does-transition w q (λ t k. k.0) _ _ _ _ _) (λ _.
                        Does-pure _ (λ t k. record {
                          placed = refl;
                          sorted = h;
                          aside = k.0;
                          prepared = record {
                            distinct = IsSorted-IsDistinct ms h;
                            recorded = k.1;
                            expected = Among-All _ ms k.2;
                          };
                        }))))))))
    where
      Written : ApplyTransactionManifest → Tree → Type 0
      Written manifest t =
          Aside t
          × Recorded w ms manifest.files
          × All (λ m. shown (t (workspace ++ m.path)) ≡ some m.expected_before) ms

  pub Does-prepare_transaction : Does Start (prepare_transaction w request) IsReady Aside
  unfolding prepare_transaction
  Does-prepare_transaction = Does-bind _ _ Does-resolve_workspace (λ r. Does-given _ _ (λ e. rw e (
      Does-bind _ _ (Does-raise_if {Q = λ _. Start} _ _ _ (λ d t k. k) initially) (λ _.
        Does-bind _ _ Does-IsSorted (λ ms. Does-given _ _ (λ h.
          Does-bind _ _ Does-clean_before_lock
            (λ _. Does-weaken _ (Does-prepare_locked ms h) initially (λ a t k. k) (λ t k. k))))))))
