-- ===== src/Value.antt =====
-- crates/krit/src/evaluator.rs: the values of the direct evaluator, with the nesting depth that a
-- container records when it is built. A string is the list of its UTF-8 bytes.
pub mod Depth
use krit.Syntax.{Block}
use krit.Base.{◌^◌, ℕ, suc, ◌+◌, Bool, true, false, ◌||◌, Option, List, [], ◌∷◌, ltb, if◌then◌else◌}
use krit.Base.Int.{ℤ, pos, negsuc}
use Prim.Native.String.{String}
use Prim.Native.Nat.{max}
use text.Mathlib.Text.{◌==◌}
use krit.Diagnostic.{Result, value_depth}
use krit.Patterns.{VariantName}

pub data BuiltinFunction : Type 0 where
  print println some ok err json_encode json_decode : BuiltinFunction
  int_to_string url_path_segment url_query : BuiltinFunction
  string_byte_len string_is_empty string_contains string_starts_with string_ends_with :
      BuiltinFunction
  ai_invoke config_string secret http_request log_info log_error : BuiltinFunction
  state_get state_put state_delete checkpoint_get checkpoint_put replay_http replay_ai :
      BuiltinFunction
  queue_publish cache_get cache_put cache_delete search_query vector_search : BuiltinFunction
  object_get object_put object_delete : BuiltinFunction
  database_begin_read database_begin_write database_query database_execute : BuiltinFunction
  database_commit database_rollback : BuiltinFunction

-- `i64::MIN ..= i64::MAX`
unfoldable pub in_i64 : ℤ → Bool
in_i64 (pos n) = ltb n (2 ^ 63)
in_i64 (negsuc n) = ltb n (2 ^ 63)

-- The payload of a variant is an `Option`: one constructor for each case.
mutual
  pub data Value : Type 0 where
    integer : ℤ → Value
    boolean : Bool → Value
    str : List ℕ → Value
    unit : Value
    list : Values → (depth : ℕ) → Value
    record_of : Fields → (depth : ℕ) → Value
    bare : VariantName → Value
    variant : VariantName → Value → (depth : ℕ) → Value
    function : Option String → List String → Block → Environment → Value
    builtin : BuiltinFunction → Value

  pub data Values : Type 0 where
    nil : Values
    cons : Value → Values → Values

  pub data Fields : Type 0 where
    end : Fields
    field : String → Value → Fields → Fields

  -- `Environment`: the innermost binding first.
  pub data Environment : Type 0 where
    empty : Environment
    extend : String → Value → Environment → Environment

abbrev pub same_text : String → String → Bool
same_text s t = s == t

abbrev pub max_value_depth : ℕ
max_value_depth = 10000

-- `Value::depth`
unfoldable pub depth : Value → ℕ
depth (list vs d) = d
depth (record_of fs d) = d
depth (bare name) = 1
depth (variant name payload d) = d
depth _ = 0

-- `children.map(Value::depth).max().unwrap_or(0)`
unfoldable pub values_depth : Values → ℕ
unfolding depth
values_depth nil = 0
values_depth (cons v vs) = max (depth v) (values_depth vs)

unfoldable pub fields_depth : Fields → ℕ
unfolding depth
fields_depth end = 0
fields_depth (field name v fs) = max (depth v) (fields_depth fs)

unfoldable pub container_depth : ℕ → Result ℕ
container_depth deepest =
    if ltb max_value_depth (1 + deepest) then Result.err value_depth else Result.ok (1 + deepest)

abbrev pub at_depth : Result ℕ → (ℕ → Value) → Result Value
at_depth (Result.ok d) build = Result.ok (build d)
at_depth (Result.err e) build = Result.err e

-- `Value::list`, `Value::record` and `Value::variant`
unfoldable pub new_list : Values → Result Value
unfolding container_depth values_depth
new_list vs = at_depth (container_depth (values_depth vs)) (list vs)

unfoldable pub new_record : Fields → Result Value
unfolding container_depth fields_depth
new_record fs = at_depth (container_depth (fields_depth fs)) (record_of fs)

unfoldable pub new_variant : VariantName → Value → Result Value
unfolding container_depth depth
new_variant name payload = at_depth (container_depth (depth payload)) (variant name payload)

unfoldable mutual
  pub contains_function : Value → Bool
  contains_function (function name parameters body env) = true
  contains_function (builtin f) = true
  contains_function (list vs d) = values_contain_function vs
  contains_function (record_of fs d) = fields_contain_function fs
  contains_function (variant name payload d) = contains_function payload
  contains_function _ = false

  pub values_contain_function : Values → Bool
  values_contain_function nil = false
  values_contain_function (cons v vs) = contains_function v || values_contain_function vs

  pub fields_contain_function : Fields → Bool
  fields_contain_function end = false
  fields_contain_function (field name v fs) = contains_function v || fields_contain_function fs
