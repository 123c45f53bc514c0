-- ===== src/Names.antt =====
-- crates/krit-capability/src/lib.rs: the canonical names of resources and of configuration keys. A
-- name is the list of its UTF-8 bytes.
pub mod Grammar
use krit.Base.{
  ℕ, Bool, true, false, not, ◌&&◌, ◌||◌, List, [], ◌∷◌, leb, ◌==◌, length, all, is_empty,
}
use krit.RequestTarget.{contains}

abbrev pub is_separator : ℕ → Bool
is_separator b = b == b'.' || b == b'-' || b == b'_'

abbrev pub starts_with_separator : List ℕ → Bool
starts_with_separator [] = false
starts_with_separator (b ∷ name) = is_separator b

unfoldable pub ends_with_separator : List ℕ → Bool
ends_with_separator [] = false
ends_with_separator (b ∷ []) = is_separator b
ends_with_separator (b ∷ c ∷ name) = ends_with_separator (c ∷ name)

abbrev pub is_name_byte : Bool → ℕ → Bool
is_name_byte allow_underscore b =
    (leb b'a' b && leb b b'z')
    || (leb b'0' b && leb b b'9')
    || b == b'.'
    || b == b'-'
    || (allow_underscore && b == b'_')

abbrev pub doubled : ℕ → List ℕ → Bool
doubled c name = contains (c ∷ c ∷ []) name

-- `is_canonical_name`
unfoldable pub is_canonical_name : List ℕ → Bool → Bool
unfolding contains ends_with_separator
is_canonical_name name allow_underscore =
    not (is_empty name)
    && leb (length name) 64
    && not (starts_with_separator name)
    && not (ends_with_separator name)
    && not (doubled b'.' name)
    && not (doubled b'-' name)
    && not (doubled b'_' name)
    && all (is_name_byte allow_underscore) name

unfoldable pub is_valid_resource_name : List ℕ → Bool
unfolding is_canonical_name
is_valid_resource_name name = is_canonical_name name false

unfoldable pub is_valid_config_key : List ℕ → Bool
unfolding is_canonical_name
is_valid_config_key name = is_canonical_name name true
