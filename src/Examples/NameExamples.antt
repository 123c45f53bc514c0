-- ===== src/Examples/NameExamples.antt =====
-- crates/krit-capability/src/lib.rs at concrete names.
use krit.Base.{ℕ, ◌≡◌, refl, true, false, ◌&&◌, leb, length, List, [], ◌∷◌}
use krit.RequestTarget.{starts_with}
use krit.Names.{is_canonical_name, is_valid_resource_name, is_valid_config_key}
use krit.Names.Grammar.{is_name, is_canonical_name-is_name}

abbrev region : List ℕ
region = b'e' ∷ b'u' ∷ b'_' ∷ b'1' ∷ []

config_only : is_valid_config_key region ≡ true
unfolding is_valid_config_key starts_with
config_only = refl

no_resource : is_valid_resource_name region ≡ false
unfolding is_valid_resource_name starts_with
no_resource = refl

is_canonical_name-is_name_example :
    is_canonical_name region true ≡ (leb (length region) 64 && is_name true region)
is_canonical_name-is_name_example = is_canonical_name-is_name region true
