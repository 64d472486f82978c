-- ===== src/Paths/Sensitive.antt =====
-- `is_sensitive_name` of crates/opticcode-policy/src/paths.rs: the names that no action may touch.
use optic_code.Prelude.{Bool, List, [], any, contains, none, some, ◌++◌, ◌==◌, ◌||◌, ◌∷◌}
use optic_code.Text.{Text, bytes, ends_with, rsplit_head, starts_with, text_eq}

abbrev secret_names : List Text
secret_names =
    bytes ".git"
    ∷ bytes ".npmrc"
    ∷ bytes ".pypirc"
    ∷ bytes ".netrc"
    ∷ bytes "_netrc"
    ∷ bytes "auth.json"
    ∷ bytes ".ssh"
    ∷ bytes ".gnupg"
    ∷ bytes ".aws"
    ∷ bytes ".azure"
    ∷ bytes ".kube"
    ∷ bytes "credentials"
    ∷ bytes "credentials.json"
    ∷ bytes "id_rsa"
    ∷ bytes "id_rsa.pub"
    ∷ bytes "id_dsa"
    ∷ bytes "id_dsa.pub"
    ∷ bytes "id_ecdsa"
    ∷ bytes "id_ecdsa.pub"
    ∷ bytes "id_ed25519"
    ∷ bytes "id_ed25519.pub"
    ∷ []

abbrev key_suffixes : List Text
key_suffixes =
    bytes ".pem"
    ∷ bytes ".key"
    ∷ bytes ".p12"
    ∷ bytes ".pfx"
    ∷ bytes ".jks"
    ∷ bytes ".keystore"
    ∷ bytes ".kdbx"
    ∷ []

abbrev secret_stems : List Text
secret_stems =
    bytes "credential"
    ∷ bytes "credentials"
    ∷ bytes "secret"
    ∷ bytes "secrets"
    ∷ bytes "token"
    ∷ bytes "tokens"
    ∷ []

-- `name.rsplit_once('.').map_or(name, |(stem, _)| stem)`
unfoldable pub stem_of : Text → Text
stem_of name = elim (rsplit_head b'.' name) [ some stem ↦ stem | none ↦ name ]

-- a stem that is one of the words, or that begins with one and `-` or `_`
unfoldable pub has_secret_stem : Text → Bool
has_secret_stem stem =
    any
      (λ prefix.
        stem == prefix
        || starts_with stem (prefix ++ bytes "-")
        || starts_with stem (prefix ++ bytes "_"))
      secret_stems

unfoldable pub is_sensitive_name : Text → Bool
unfolding stem_of has_secret_stem
is_sensitive_name name =
    (name == bytes ".env" || starts_with name (bytes ".env.") || starts_with name (bytes ".env-"))
    || contains secret_names name
    || any (λ suffix. ends_with name suffix) key_suffixes
    || has_secret_stem (stem_of name)
    || starts_with (stem_of name) (bytes "service-account")
    || starts_with (stem_of name) (bytes "service_account")
