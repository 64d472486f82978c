-- ===== src/FilePath.antt =====
-- `std::path` on Unix, as far as the policy crate uses it: a path is the list of its components.
-- Spellings with the same components (`a//b`, `a/./b`) are one path here.
use optic_code.Prelude.{
  Bool, Eq, List, Option, [], false, if◌then◌else◌, none, some, true, ℕ_discrete, ◌&&◌, ◌++◌, ◌==◌,
  ◌∷◌,
}
use optic_code.Text.{Text, bytes}

pub data Component : Type 0 where
  root_dir cur_dir parent_dir : Component
  normal : Text → Component

abbrev pub FilePath : Type 0
FilePath = List Component

unfoldable pub Component-discrete : Discrete Component
Component-discrete = hlevel ℕ_discrete

unfoldable pub FilePath-discrete : Discrete FilePath
FilePath-discrete = hlevel ℕ_discrete

instance abbrev pub component_eq : Eq Component
component_eq = record { dec = Component-discrete }

instance abbrev pub path_eq : Eq FilePath
path_eq = record { dec = FilePath-discrete }

unfoldable pub OptionPath-discrete : Discrete (Option FilePath)
OptionPath-discrete = hlevel ℕ_discrete

instance abbrev pub option_path_eq : Eq (Option FilePath)
option_path_eq = record { dec = OptionPath-discrete }

abbrev pub is_absolute : FilePath → Bool
is_absolute (root_dir ∷ _) = true
is_absolute _ = false

abbrev pub is_normal : Component → Bool
is_normal (normal _) = true
is_normal _ = false

-- `Path::join`: an absolute path replaces the base; a leading `.` is lost behind a base.
unfoldable pub join : FilePath → FilePath → FilePath
join base (root_dir ∷ p) = root_dir ∷ p
join [] (cur_dir ∷ p) = cur_dir ∷ p
join base (cur_dir ∷ p) = base ++ p
join base p = base ++ p

-- `Path::starts_with`, by whole components
unfoldable pub starts_with : FilePath → FilePath → Bool
starts_with p [] = true
starts_with [] (b ∷ bs) = false
starts_with (c ∷ p) (b ∷ bs) = c == b && starts_with p bs

-- `Path::strip_prefix`
unfoldable pub strip_prefix : FilePath → FilePath → Option FilePath
strip_prefix p [] = some p
strip_prefix [] (b ∷ bs) = none
strip_prefix (c ∷ p) (b ∷ bs) = if c == b then strip_prefix p bs else none

-- `Path::file_name`: the last component, if it is a normal one
unfoldable pub file_name : FilePath → Option Text
file_name [] = none
file_name (normal n ∷ []) = some n
file_name (_ ∷ []) = none
file_name (_ ∷ c ∷ p) = file_name (c ∷ p)

-- `Path::parent`: all but the last component; the root and the empty path have none
unfoldable pub parent : FilePath → Option FilePath
parent [] = none
parent (root_dir ∷ []) = none
parent (_ ∷ []) = some []
parent (c ∷ d ∷ p) = elim (parent (d ∷ p)) [ some q ↦ some (c ∷ q) | none ↦ none ]

-- `Component::as_os_str`
abbrev pub as_os_str : Component → Text
as_os_str root_dir = bytes "/"
as_os_str cur_dir = bytes "."
as_os_str parent_dir = bytes ".."
as_os_str (normal n) = n

-- `to_string_lossy`: the spelling of a path
unfoldable pub to_text : FilePath → Text
to_text [] = []
to_text (root_dir ∷ p) = bytes "/" ++ to_text p
to_text (c ∷ []) = as_os_str c
to_text (c ∷ d ∷ p) = as_os_str c ++ bytes "/" ++ to_text (d ∷ p)
