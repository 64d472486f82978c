-- ===== src/Text.antt =====
-- Rust strings, as the list of their bytes, and the `str` methods that the policy crate calls. The
-- texts are taken to be UTF-8, so that `to_string_lossy` changes nothing.
use Prim.Native.Char.{code}
use optic_code.Prelude.{
  Bool, Eq, List, Option, String, [], false, if◌then◌else◌, leb, ltb, map, nat_eq, none, some, suc,
  true, zero, ℕ, ℕ_discrete, ◌&&◌, ◌+◌, ◌-◌, ◌==◌, ◌||◌, ◌∷◌,
}

abbrev pub Text : Type 0
Text = List ℕ

-- The bytes of an ASCII literal. Shut, so that a literal is one constant in a proof.
unfoldable pub bytes : String → Text
bytes String.[] = []
bytes (String.◌∷◌ c s) = code c ∷ bytes s

unfoldable pub Text-discrete : Discrete Text
Text-discrete = hlevel ℕ_discrete

instance abbrev pub text_eq : Eq Text
text_eq = record { dec = Text-discrete }

unfoldable pub OptionText-discrete : Discrete (Option Text)
OptionText-discrete = hlevel ℕ_discrete

instance abbrev pub option_text_eq : Eq (Option Text)
option_text_eq = record { dec = OptionText-discrete }

-- `u8::is_ascii_hexdigit` and its kin
abbrev pub is_ascii_digit : ℕ → Bool
is_ascii_digit c = leb b'0' c && leb c b'9'

abbrev pub is_ascii_lowercase : ℕ → Bool
is_ascii_lowercase c = leb b'a' c && leb c b'z'

abbrev pub is_ascii_uppercase : ℕ → Bool
is_ascii_uppercase c = leb b'A' c && leb c b'Z'

abbrev pub is_ascii_alphanumeric : ℕ → Bool
is_ascii_alphanumeric c = is_ascii_digit c || is_ascii_lowercase c || is_ascii_uppercase c

abbrev pub is_ascii_hexdigit : ℕ → Bool
is_ascii_hexdigit c = is_ascii_digit c || (leb b'a' c && leb c b'f') || (leb b'A' c && leb c b'F')

-- `char::is_whitespace` of a character of one byte
abbrev pub is_whitespace : ℕ → Bool
is_whitespace c = c == 32 || (leb 9 c && leb c 13)

-- `['\r', '\n', '\0']`, the characters that identifiers may not hold
abbrev pub is_control : ℕ → Bool
is_control c = c == 13 || c == 10 || c == 0

unfoldable pub lower_byte : ℕ → ℕ
lower_byte c = if is_ascii_uppercase c then c + 32 else c

unfoldable pub to_ascii_lowercase : Text → Text
unfolding lower_byte
to_ascii_lowercase = map lower_byte

unfoldable pub starts_with : Text → Text → Bool
starts_with s [] = true
starts_with [] (p ∷ ps) = false
starts_with (c ∷ s) (p ∷ ps) = c == p && starts_with s ps

unfoldable pub ends_with : Text → Text → Bool
ends_with [] p = [] == p
ends_with (c ∷ s) p = (c ∷ s) == p || ends_with s p

-- `str::contains` of a text
unfoldable pub contains_text : Text → Text → Bool
unfolding starts_with
contains_text [] p = starts_with [] p
contains_text (c ∷ s) p = starts_with (c ∷ s) p || contains_text s p

-- `<` on `str`, by bytes
unfoldable pub text_lt : Text → Text → Bool
text_lt s [] = false
text_lt [] (d ∷ t) = true
text_lt (c ∷ s) (d ∷ t) = ltb c d || (c == d && text_lt s t)

-- `replace('\\', "/")`
unfoldable pub forward_slashes : Text → Text
forward_slashes = map (λ c. if c == 92 then 47 else c)

-- `split_whitespace`: the current word, reversed by nothing since words are built from the right
abbrev push_byte : ℕ → List Text → List Text
push_byte c [] = (c ∷ []) ∷ []
push_byte c (w ∷ ws) = (c ∷ w) ∷ ws

abbrev drop_empty : List Text → List Text
drop_empty [] = []
drop_empty ([] ∷ ws) = drop_empty ws
drop_empty ((c ∷ w) ∷ ws) = (c ∷ w) ∷ drop_empty ws

unfoldable pub split_on : (ℕ → Bool) → Text → List Text
split_on p [] = [] ∷ []
split_on p (c ∷ s) = let rest = split_on p s in if p c then [] ∷ rest else push_byte c rest

-- the white space of two and of three bytes, behind its first byte
abbrev is_white_second : Text → Bool
is_white_second [] = false
is_white_second (d ∷ s) = d == 133 || d == 160

abbrev is_white_tail : ℕ → Text → Bool
is_white_tail c [] = false
is_white_tail c (d ∷ []) = false
is_white_tail c (d ∷ e ∷ s) =
    (c == 225 && d == 154 && e == 128)
    || (c == 226 && d == 128 && ((leb 128 e && leb e 138) || e == 168 || e == 169 || e == 175))
    || (c == 226 && d == 129 && e == 159)
    || (c == 227 && d == 128 && e == 128)

-- `char::is_whitespace` of the first character: its number of bytes, or zero
unfoldable pub white_bytes : Text → ℕ
white_bytes [] = 0
white_bytes (c ∷ s) =
    if is_whitespace c
    then 1
    else if c == 194 && is_white_second s
    then 2
    else if is_white_tail c s
    then 3
    else 0

-- the words behind a number of bytes of white space
unfoldable pub split_words : ℕ → Text → List Text
split_words k [] = [] ∷ []
split_words (suc k) (c ∷ s) = split_words k s
split_words zero (c ∷ s) =
    let rest = split_words (white_bytes (c ∷ s) - 1) s in
    if white_bytes (c ∷ s) == 0 then push_byte c rest else [] ∷ rest

unfoldable pub split_whitespace : Text → List Text
unfolding split_words
split_whitespace s = drop_empty (split_words 0 s)

-- the text behind a number of bytes, and behind the white space there
unfoldable pub trim_from : ℕ → Text → Text
trim_from k [] = []
trim_from (suc k) (c ∷ s) = trim_from k s
trim_from zero (c ∷ s) =
    let rest = trim_from (white_bytes (c ∷ s) - 1) s in
    if white_bytes (c ∷ s) == 0 then c ∷ s else rest

unfoldable pub trim_start : Text → Text
unfolding trim_from
trim_start s = trim_from 0 s

unfoldable pub trim_end : Text → Text
trim_end [] = []
trim_end (c ∷ s) = let rest = trim_end s in if trim_from 0 (c ∷ s) == [] then [] else c ∷ rest

unfoldable pub trim : Text → Text
unfolding trim_start trim_end
trim s = trim_end (trim_start s)

-- `strip_prefix` of a text
unfoldable pub strip_prefix : Text → Text → Option Text
strip_prefix s [] = some s
strip_prefix [] (p ∷ ps) = none
strip_prefix (c ∷ s) (p ∷ ps) = if c == p then strip_prefix s ps else none

-- `rsplit_once(separator)`, without the part after the last separator
unfoldable pub rsplit_head : ℕ → Text → Option Text
rsplit_head p [] = none
rsplit_head p (c ∷ s) = elim (rsplit_head p s) [
  | some t ↦ some (c ∷ t)
  | none ↦ if c == p then some [] else none
]
