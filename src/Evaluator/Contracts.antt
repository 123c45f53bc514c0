-- ===== src/Evaluator/Contracts.antt =====
-- crates/krit/src/ast.rs, analysis.rs and evaluator.rs: named construction of a contract record.
use krit.Base.{Bool, true, false, not, ◌&&◌, Option, none, some, List, [], ◌∷◌, if◌then◌else◌, any}
use Prim.Native.String.{String}
use krit.Diagnostic.{
  Result, ◌>>=◌, unknown_contract_field, repeated_contract_field, missing_contract_field,
}
use krit.Syntax.{ContractRecord, FieldValues, no_fields, written}
use krit.Value.{Value, nil, Fields, end, new_list, new_record, same_text}

pub data FieldDefault : Type 0 where
  empty_string empty_list : FieldDefault

pub record ContractField : Type 0 where
  pub name : String
  pub default : Option FieldDefault

abbrev required : String → ContractField
required name = record { name = name; default = none }

abbrev defaulted : String → FieldDefault → ContractField
defaulted name default = record { name = name; default = some default }

-- `ContractRecord::fields`
unfoldable pub contract_fields : ContractRecord → List ContractField
contract_fields ContractRecord.http_request =
    required "method"
    ∷ required "path"
    ∷ defaulted "query" FieldDefault.empty_string
    ∷ defaulted "headers" FieldDefault.empty_list
    ∷ defaulted "body" FieldDefault.empty_string
    ∷ []
contract_fields ContractRecord.http_response =
    required "status"
    ∷ defaulted "headers" FieldDefault.empty_list
    ∷ defaulted "body" FieldDefault.empty_string
    ∷ []
contract_fields _ = required "name" ∷ required "value" ∷ []

abbrev pub names : String → List String → Bool
names name seen = any (same_text name) seen

-- The loop of `check_construction_fields`, with the names already written.
unfoldable pub check_written : List ContractField → FieldValues → List String → Result (List String)
check_written fields no_fields seen = Result.ok seen
check_written fields (written name e more) seen =
    let rest = check_written fields more (name ∷ seen) in
    if not (any (λ field. same_text field.name name) fields)
    then Result.err unknown_contract_field
    else if names name seen
    then Result.err repeated_contract_field
    else rest

abbrev is_required : ContractField → Bool
is_required field = elim field.default [ none ↦ true | some default ↦ false ]

unfoldable pub check_construction_fields : ContractRecord → FieldValues → Result (Unit {0})
unfolding contract_fields check_written
check_construction_fields contract fs = check_written (contract_fields contract) fs [] >>= λ seen.
    if any (λ field. is_required field && not (names field.name seen)) (contract_fields contract)
    then Result.err missing_contract_field
    else Result.ok tt

-- The first written value of a field.
unfoldable pub written_value : String → Fields → Option Value
written_value name end = none
written_value name (Fields.field other v fs) =
    let rest = written_value name fs in if same_text other name then some v else rest

-- A required field has been written: the source cannot reach the last case.
abbrev pub value_or_default : Option Value → Option FieldDefault → Result Value
value_or_default (some v) default = Result.ok v
value_or_default none (some FieldDefault.empty_string) = Result.ok (Value.str [])
value_or_default none (some FieldDefault.empty_list) = new_list nil
value_or_default none none = Result.err missing_contract_field

unfoldable pub field_or_default : ContractField → Fields → Result Value
unfolding written_value new_list
field_or_default field fs = value_or_default (written_value field.name fs) field.default

-- The fields in the order of the contract.
unfoldable pub contract_values : List ContractField → Fields → Result Fields
unfolding field_or_default
contract_values [] fs = Result.ok end
contract_values (field ∷ fields) fs = field_or_default field fs >>= λ v.
    contract_values fields fs >>= λ rest. Result.ok (Fields.field field.name v rest)

unfoldable pub constructed : ContractRecord → Fields → Result Value
unfolding contract_values contract_fields new_record
constructed contract fs = contract_values (contract_fields contract) fs >>= new_record
