-- ===== src/Transaction/Outside.antt =====
-- The directories and the lock of a transaction of crates/opticcode-tools/src/apply_transaction.rs are
-- made below `.opticcode`.
use mathlib.Core.List.{append_assoc}
use optic_code.FilePath
use optic_code.FilePath.{FilePath, normal, parent}
use optic_code.Prelude.{
  ==-refl, Bool, Option, Result, [], err, false, none, ok, refl, some, suc, true, zero, ℕ, ◌++◌,
  ◌∷◌, ◌≡◌,
}
use optic_code.Text.{Text, bytes}
use optic_code.Transaction.Directories.{
  acquire_lock, allocate_id, check_lock, check_root, choose_id, claim_id, create_at, create_dir,
  create_missing, create_synced, create_transaction_directory, created, ensure_workspace_directory,
  enter_new, expect_directory, lock_of, made, metadata_root, open_link, open_lock, opticcode_dir,
  or_collision, or_next, run_of, runs_dir, verify_workspace_directory,
}
use optic_code.Transaction.Logic.{
  Answers, Does, Does-attempt, Does-bind, Does-call, Does-context, Does-gets, Does-given, Does-lift,
  Does-pure, Does-put_node, Does-raise, Does-raise_if, Does-weaken, Does-with_kind, IsQuiet,
}
use optic_code.Transaction.Machine.{
  Node, Tree, World, directory, link, missing, regular, special, symlink_metadata, write_node,
}
use optic_code.Transaction.Model.{Failure}
use optic_code.Transaction.Reads.{Does-canonical, Does-symlink_metadata}
use optic_code.Transaction.Writes.{Does-sync_directory}

-- a predicate on trees that no write below `.opticcode` disturbs
abbrev pub IsLocal : (Tree → Type 0) → FilePath → Type 0
IsLocal P workspace =
    (t : Tree) (p : FilePath) (n : Node)
    → FilePath.starts_with p (opticcode_dir workspace) ≡ true
    → P t
    → P (write_node t p n)

-- The lock file of the workspace is no link that leads out of `.opticcode`.
abbrev pub IsLockInside : World → FilePath → Type 0
IsLockInside w workspace =
    (t : Tree)
    → FilePath.starts_with (w.link_end t (lock_of workspace)) (opticcode_dir workspace) ≡ true

pub starts_with-append_self : (p r : FilePath) → FilePath.starts_with (p ++ r) p ≡ true
unfolding FilePath.starts_with
starts_with-append_self [] [] = refl
starts_with-append_self [] (c ∷ r) = refl
starts_with-append_self (c ∷ p) r = rw (==-refl c) (starts_with-append_self p r)

pub starts_with_self : (p : FilePath) → FilePath.starts_with p p ≡ true
unfolding FilePath.starts_with
starts_with_self [] = refl
starts_with_self (c ∷ p) = rw (==-refl c) (starts_with_self p)

module _ (w : World) (q : IsQuiet w) {P : Tree → Type 0} {E : Tree → Type 0}
    (hp : (t : Tree) → P t → E t) (workspace : FilePath) (local : IsLocal P workspace) where
  abbrev Below : FilePath → Type 0
  Below p = FilePath.starts_with p (opticcode_dir workspace) ≡ true

  all_inside : Below (runs_dir workspace)
  all_inside = starts_with-append_self (opticcode_dir workspace) _

  one_inside : (id : Text) → Below (run_of workspace id)
  one_inside id =
      rw (append_assoc (opticcode_dir workspace) (normal (bytes "runs") ∷ []) (normal id ∷ []))
        (starts_with-append_self (opticcode_dir workspace) _)

  Does-create_dir : (p : FilePath) → Below p → Does P (create_dir w p) (λ _. P) E
  unfolding create_dir
  Does-create_dir p below =
      Does-bind _ _ (Does-call w q hp)
        (λ _. Does-bind _ _ (Does-gets {Q = λ _. P} _ (λ s h. h)) answer)
    where
      answer : (n : Node) → Does P (created w p n) (λ _. P) E
      answer missing =
          Does-bind _ _ (Does-put_node {Q = λ _. P} _ _ (λ t h. local t p directory below h))
            (λ _. Does-pure _ (λ t h. h))
      answer directory = Does-pure _ (λ t h. h)
      answer link = Does-pure _ (λ t h. h)
      answer special = Does-pure _ (λ t h. h)
      answer (regular c m) = Does-pure _ (λ t h. h)

  Does-made : (b : Bool) → Does P (made b) (λ _. P) E
  Does-made true = Does-pure tt (λ t h. h)
  Does-made false = Does-lift _ (λ t h a e. cc) hp

  Does-expect_directory : (p : FilePath) (n : Node) → Does P (expect_directory p n) (λ _. P) E
  Does-expect_directory p directory = Does-pure tt (λ t h. h)
  Does-expect_directory p missing = Does-raise _ _ hp
  Does-expect_directory p link = Does-raise _ _ hp
  Does-expect_directory p special = Does-raise _ _ hp
  Does-expect_directory p (regular c m) = Does-raise _ _ hp

  Does-look : (p : FilePath) → Does P (symlink_metadata w p) (λ _. P) E
  Does-look p = Does-weaken _ (Does-symlink_metadata w q hp p) (λ t h. h) (λ n t h. h.0) (λ t h. h)

  Does-verify_workspace_directory :
      (p : FilePath) → Does P (verify_workspace_directory w workspace p) (λ _. P) E
  unfolding verify_workspace_directory
  Does-verify_workspace_directory p = Does-bind _ _ (Does-context _ _ (Does-look p)) (λ n.
      Does-bind _ _ (Does-expect_directory p n) (λ _.
        Does-bind _ _ (Does-context _ _ (Does-canonical w q hp p)) (λ r.
          Does-bind _ _ (Does-raise_if {Q = λ _. P} _ _ _ (λ e t h. h) hp)
            (λ _. Does-sync_directory w q hp p))))

  Does-create_synced :
      (parent p : FilePath) → Below p → Does P (create_synced w parent p) (λ _. P) E
  unfolding create_synced
  Does-create_synced parent p below =
      Does-bind _ _ (Does-context _ _ (Does-create_dir p below))
        (λ b. Does-bind _ _ (Does-made b) (λ _. Does-sync_directory w q hp parent))

  Does-ensure_workspace_directory :
      (parent p : FilePath)
      → Below p
      → Does P (ensure_workspace_directory w workspace parent p) (λ _. P) E
  unfolding ensure_workspace_directory
  Does-ensure_workspace_directory parent p below =
      Does-bind _ _ (Does-context _ _ (Does-look p))
        (λ n. Does-bind _ _ (create n) (λ _. Does-verify_workspace_directory p))
    where
      create : (n : Node) → Does P (create_missing w parent p n) (λ _. P) E
      create missing = Does-create_synced parent p below
      create directory = Does-pure tt (λ t h. h)
      create link = Does-pure tt (λ t h. h)
      create special = Does-pure tt (λ t h. h)
      create (regular c m) = Does-pure tt (λ t h. h)

  Does-metadata_root : Does P (metadata_root w workspace) (λ _. P) E
  unfolding metadata_root
  Does-metadata_root = Does-bind _ _ (Does-context _ _ (Does-look _)) (λ n.
      Does-bind _ _ (check n) (λ _.
        Does-bind _ _ (Does-context _ _ (Does-canonical w q hp _))
          (λ r. Does-raise_if _ _ _ (λ e t h. h) hp)))
    where
      check : (n : Node) → Does P (check_root w workspace (opticcode_dir workspace) n) (λ _. P) E
      check missing =
          Does-create_synced workspace (opticcode_dir workspace)
            (starts_with_self (opticcode_dir workspace))
      check directory = Does-expect_directory (opticcode_dir workspace) directory
      check link = Does-expect_directory (opticcode_dir workspace) link
      check special = Does-expect_directory (opticcode_dir workspace) special
      check (regular c m) = Does-expect_directory (opticcode_dir workspace) (regular c m)

  pub Does-acquire_lock : IsLockInside w workspace → Does P (acquire_lock w workspace) (λ _. P) E
  unfolding acquire_lock open_link
  Does-acquire_lock inside = Does-bind _ _ Does-metadata_root (λ _.
      Does-bind _ _
        (Does-attempt _ (
          Does-weaken _ (Does-symlink_metadata w q {E = P} (λ t h. h) _) (λ t h. h) (λ n t h. h.0)
            (λ t h. h)))
        (λ r. Does-bind _ _ (look r) (λ _. Does-bind _ _ (Does-context _ _ (Does-call w q hp)) (λ _.
          Does-bind _ _ (Does-gets {Q = λ _. P} _ (λ s h. h)) (λ n. Does-bind _ _ (opened n) (λ _.
            Does-bind _ _ (Does-with_kind _ _ _ (Does-call w q hp)) (λ _.
              Does-bind _ _ (Does-raise_if {Q = λ _. P} _ _ _ (λ e t h. h) hp) (λ _.
                Does-bind _ _ (Does-context _ _ (Does-call w q hp))
                  (λ _. Does-sync_directory w q hp _)))))))))
    where
      look :
          (r : Result Failure Node)
          → Does (Answers (λ _. P) P r) (check_lock (lock_of workspace) r) (λ _. P) E
      look (err e) = Does-pure tt (λ t h. h)
      look (ok missing) = Does-pure tt (λ t h. h)
      look (ok (regular c m)) = Does-pure tt (λ t h. h)
      look (ok directory) = Does-raise _ _ hp
      look (ok link) = Does-raise _ _ hp
      look (ok special) = Does-raise _ _ hp

      create :
          (p : FilePath)
          → FilePath.starts_with p (opticcode_dir workspace) ≡ true
          → (n : Node) → Does P (create_at w p n) (λ _. P) E
      create p below missing = Does-put_node _ _ (λ t h. local t _ _ below h)
      create p below directory = Does-lift _ (λ t h a e. cc) hp
      create p below link = Does-pure tt (λ t h. h)
      create p below special = Does-pure tt (λ t h. h)
      create p below (regular c m) = Does-pure tt (λ t h. h)

      opened : (n : Node) → Does P (open_lock w (lock_of workspace) n) (λ _. P) E
      opened missing =
          Does-put_node _ _
            (λ t h. local t _ _ (starts_with-append_self (opticcode_dir workspace) _) h)
      opened directory = Does-lift _ (λ t h a e. cc) hp
      opened link =
          Does-bind _ _
            (Does-gets {Q = λ p t. P t × (FilePath.starts_with p (opticcode_dir workspace) ≡ true)}
              _ (λ s h. (h, inside s.tree)))
            (λ p. Does-given _ _ (λ below.
              Does-bind _ _ (Does-gets {Q = λ _. P} _ (λ s h. h)) (λ n. create p below n)))
      opened special = Does-pure tt (λ t h. h)
      opened (regular c m) = Does-pure tt (λ t h. h)

  Does-claim_id : (id : Text) → Does P (claim_id w workspace id) (λ _. P) E
  unfolding claim_id
  Does-claim_id id = Does-bind _ _ (Does-context _ _ (Does-create_dir _ (one_inside id))) enter
    where
      enter : (b : Bool) → Does P (enter_new w workspace id b) (λ _. P) E
      enter false = Does-pure _ (λ t h. h)
      enter true =
          Does-bind _ _ (Does-sync_directory w q hp _)
            (λ _. Does-bind _ _ (Does-verify_workspace_directory _) (λ _. Does-pure _ (λ t h. h)))

  Does-allocate_id : (rounds : ℕ) → Does P (allocate_id w rounds workspace) (λ _. P) E
  unfolding allocate_id
  Does-allocate_id zero = Does-raise _ _ hp
  Does-allocate_id (suc rounds) =
      Does-bind _ _ (Does-gets {Q = λ _. P} _ (λ s h. h))
        (λ n. Does-bind _ _ (Does-claim_id _) (claimed (Does-allocate_id rounds)))
    where
      claimed :
          Does P (allocate_id w rounds workspace) (λ _. P) E
          → (o : Option Text) → Does P (or_next w (allocate_id w rounds workspace) o) (λ _. P) E
      claimed next none = next
      claimed next (some id) = Does-pure id (λ t h. h)

  pub Does-create_transaction_directory :
      (requested : Option Text)
      → Does P (create_transaction_directory w workspace requested) (λ _. P) E
  unfolding create_transaction_directory
  Does-create_transaction_directory requested =
      Does-bind _ _ (Does-ensure_workspace_directory _ _ all_inside) (λ _. choose requested)
    where
      claimed : (id : Text) (o : Option Text) → Does P (or_collision id o) (λ _. P) E
      claimed id none = Does-raise _ _ hp
      claimed id (some fresh) = Does-pure fresh (λ t h. h)

      choose : (o : Option Text) → Does P (choose_id w workspace o) (λ _. P) E
      choose none = Does-allocate_id 100
      choose (some id) =
          Does-bind _ _ (Does-lift {Q = λ _. P} _ (λ t h a e. h) hp)
            (λ _. Does-bind _ _ (Does-claim_id id) (claimed id))
