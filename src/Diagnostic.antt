-- ===== src/Diagnostic.antt =====
-- crates/krit/src/diagnostic.rs: a diagnostic, by the fault that it reports; `code` gives the code
-- that the source writes for it. Message texts and source spans are left out.
use krit.Base.{◌≡◌, refl, Option, List}
use Prim.Native.String.{String}

-- crates/krit/src/patterns.rs: `Constructor`, in declaration order, and `Family`.
pub data Constructor : Type 0 where
  some none ok err empty cons : Constructor

pub data Family : Type 0 where
  option result list : Family

pub data Diagnostic : Type 0 where
  -- patterns.rs
  list_pattern_part none_with_payload variant_without_payload : Diagnostic
  duplicate_arm unreachable_arm covered_arm : Diagnostic
  mixed_families : Family → Family → Diagnostic
  overlapping_arms : List (List Constructor) → Diagnostic
  catch_all_arm : Option (List (List Constructor)) → Diagnostic
  non_exhaustive : List (List Constructor) → Diagnostic
  -- evaluator.rs
  wrong_kind no_match_arm wrong_payload_shape : Diagnostic
  integer_overflow division_by_zero not_comparable value_depth undefined_name : Diagnostic
  not_callable wrong_arity output_failed json_encoding json_decoding : Diagnostic
  evaluation_depth call_depth unavailable_builtin : Diagnostic
  question_at_top_level let_else_at_top_level : Diagnostic
  -- analysis.rs
  unknown_contract_field repeated_contract_field missing_contract_field : Diagnostic

unfoldable pub code : Diagnostic → String
code list_pattern_part = "K1003"
code none_with_payload = "K1003"
code variant_without_payload = "K1003"
code duplicate_arm = "K1003"
code unreachable_arm = "K1003"
code covered_arm = "K1003"
code (mixed_families f g) = "K1003"
code (overlapping_arms paths) = "K1003"
code (catch_all_arm paths) = "K3005"
code (non_exhaustive paths) = "K3005"
code wrong_kind = "K4001"
code no_match_arm = "K4001"
code wrong_payload_shape = "K4001"
code integer_overflow = "K4005"
code division_by_zero = "K4004"
code not_comparable = "K4006"
code value_depth = "K4010"
code undefined_name = "K2001"
code not_callable = "K4002"
code wrong_arity = "K4003"
code output_failed = "K4007"
code json_encoding = "K4008"
code json_decoding = "K4009"
code evaluation_depth = "K4010"
code call_depth = "K4010"
code unavailable_builtin = "K5003"
code question_at_top_level = "K3012"
code let_else_at_top_level = "K3014"
code unknown_contract_field = "K3016"
code repeated_contract_field = "K3016"
code missing_contract_field = "K3016"

-- `Result<A, Diagnostic>`
pub data Result {ℓ} (A : Type ℓ) : Type ℓ where
  ok : A → Result A
  err : Diagnostic → Result A

infixl 5 ◌>>=◌ ◌>>◌
abbrev pub ◌>>=◌ {ℓ κ} : {A : Type ℓ} {B : Type κ} → Result A → (A → Result B) → Result B
Result.ok a >>= f = f a
Result.err e >>= f = Result.err e

abbrev pub ◌>>◌ {ℓ} : {B : Type ℓ} → Result (Unit {0}) → Result B → Result B
m >> k = m >>= λ _. k

-- A successful chain, taken apart.
pub >>=-eq-ok {ℓ κ} :
    {A : Type ℓ} {B : Type κ} (m : Result A) (f : A → Result B) {b : B}
    → (m >>= f) ≡ Result.ok b
    → (a : A) × (m ≡ Result.ok a) × (f a ≡ Result.ok b)
>>=-eq-ok (Result.ok a) f h = (a, refl, h)
>>=-eq-ok (Result.err e) f h = cc

pub ok_unit : (m : Result (Unit {0})) {u : Unit {0}} → m ≡ Result.ok u → m ≡ Result.ok tt
ok_unit m h = h

pub ok_injective {ℓ} : {A : Type ℓ} {a b : A} → Result.ok a ≡ Result.ok b → a ≡ b
ok_injective h = cc
