-- ===== src/Audit/Rotation.antt =====
-- The rotation of crates/opticcode-policy/src/audit.rs keeps the newest events within its bounds.
use mathlib.Core.List.{Perm}
use mathlib.Core.List.Perm
use optic_code.Audit.{AuditFile, insert_file, sort_files, total_bytes}
use optic_code.Prelude.{
  List, Result, [], arith, false, length, nat_eq, ok, refl, suc, ℕ, ◌++◌, ◌+◌, ◌∷◌, ◌≡◌, ◌≤◌,
}
use optic_code.Text.{Text, text_lt}

insert_file-total :
    (f : AuditFile) (files : List AuditFile)
    → total_bytes (insert_file f files) ≡ f.byte_count + total_bytes files
unfolding insert_file
insert_file-total f [] = refl
insert_file-total f (g ∷ rest) = ground (arith, insert_file-total f rest)

insert_file-length :
    (f : AuditFile) (files : List AuditFile) → length (insert_file f files) ≡ suc (length files)
unfolding insert_file
insert_file-length f [] = refl
insert_file-length f (g ∷ rest) = ground (arith, insert_file-length f rest)

pub sort_files-total : (files : List AuditFile) → total_bytes (sort_files files) ≡ total_bytes files
unfolding sort_files
sort_files-total [] = refl
sort_files-total (f ∷ rest) =
    omega (arith, insert_file-total f (sort_files rest), sort_files-total rest)

pub sort_files-length : (files : List AuditFile) → length (sort_files files) ≡ length files
unfolding sort_files
sort_files-length [] = refl
sort_files-length (f ∷ rest) =
    omega (arith, insert_file-length f (sort_files rest), sort_files-length rest)

-- Sorted by name, which begins with the time: no file stands before one that is older.
abbrev pub IsSortedByName : List AuditFile → Type 0
IsSortedByName [] = Unit
IsSortedByName (f ∷ []) = Unit
IsSortedByName (f ∷ g ∷ rest) = (text_lt g.name f.name ≡ false) × IsSortedByName (g ∷ rest)

-- within the bounds on files and bytes
abbrev pub Fits : ℕ → ℕ → List AuditFile → Type 0
Fits max_events max_bytes files = (length files ≤ max_events) × (total_bytes files ≤ max_bytes)

-- each file went while what was left did not fit
abbrev pub Needed : ℕ → ℕ → List AuditFile → List AuditFile → Type 0
Needed max_events max_bytes [] kept = Unit
Needed max_events max_bytes (f ∷ dropped) kept =
    ¬ Fits max_events max_bytes (f ∷ dropped ++ kept) × Needed max_events max_bytes dropped kept

-- What a rotation leaves of the files in order: an end of them, each of the others was in excess, and
-- what is left fits if no removal failed.
pub record IsRotation (max_events max_bytes : ℕ) (files kept : List AuditFile)
    (answer : Result Text Unit) : Type 0 where
  pub dropped : List AuditFile
  pub parts : files ≡ dropped ++ kept
  pub needed : Needed max_events max_bytes dropped kept
  pub bounded : answer ≡ ok tt → Fits max_events max_bytes kept
