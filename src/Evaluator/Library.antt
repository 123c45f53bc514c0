-- ===== src/Evaluator/Library.antt =====
-- crates/krit/src/evaluator.rs: the built-in functions.
use krit.Base.{
  ℕ, Bool, true, false, ◌&&◌, ◌||◌, Option, none, some, List, [], ◌∷◌, ◌==◌, if◌then◌else◌, length,
  is_empty, as_bytes,
}
use krit.Base.Int.{pos}
use Prim.Native.String.{String}
use krit.Diagnostic.{
  Diagnostic, Result, ◌>>=◌, undefined_name, json_encoding, json_decoding, unavailable_builtin,
}
use krit.Patterns.{VariantName}
use krit.Value.{
  Value, Values, nil, Environment, empty, extend, BuiltinFunction, same_text, str, boolean,
  new_variant,
}
use krit.RequestTarget.Encoding.{PathSegmentError, Encoded, encode_path_segment}
use krit.Evaluator.Operators.{expect_string, expect_integer, checked, or_overflow}
use krit.Evaluator.Builtins.{url_query}
use krit.Evaluator.Render.{integer_text}
use krit.Evaluator.Json.{Json, value_to_json, json_to_value}
use krit.Evaluator.Machine.{Outside}

unfoldable pub builtin_table : List (String × BuiltinFunction)
builtin_table =
    ("ai_invoke", BuiltinFunction.ai_invoke)
    ∷ ("print", BuiltinFunction.print)
    ∷ ("println", BuiltinFunction.println)
    ∷ ("Some", BuiltinFunction.some)
    ∷ ("Ok", BuiltinFunction.ok)
    ∷ ("Err", BuiltinFunction.err)
    ∷ ("json_encode", BuiltinFunction.json_encode)
    ∷ ("json_decode", BuiltinFunction.json_decode)
    ∷ ("config_string", BuiltinFunction.config_string)
    ∷ ("secret", BuiltinFunction.secret)
    ∷ ("http_request", BuiltinFunction.http_request)
    ∷ ("log_info", BuiltinFunction.log_info)
    ∷ ("log_error", BuiltinFunction.log_error)
    ∷ ("state_get", BuiltinFunction.state_get)
    ∷ ("state_put", BuiltinFunction.state_put)
    ∷ ("state_delete", BuiltinFunction.state_delete)
    ∷ ("checkpoint_get", BuiltinFunction.checkpoint_get)
    ∷ ("checkpoint_put", BuiltinFunction.checkpoint_put)
    ∷ ("replay_http", BuiltinFunction.replay_http)
    ∷ ("replay_ai", BuiltinFunction.replay_ai)
    ∷ ("queue_publish", BuiltinFunction.queue_publish)
    ∷ ("cache_get", BuiltinFunction.cache_get)
    ∷ ("cache_put", BuiltinFunction.cache_put)
    ∷ ("cache_delete", BuiltinFunction.cache_delete)
    ∷ ("search_query", BuiltinFunction.search_query)
    ∷ ("vector_search", BuiltinFunction.vector_search)
    ∷ ("object_get", BuiltinFunction.object_get)
    ∷ ("object_put", BuiltinFunction.object_put)
    ∷ ("object_delete", BuiltinFunction.object_delete)
    ∷ ("db_begin_read", BuiltinFunction.database_begin_read)
    ∷ ("db_begin_write", BuiltinFunction.database_begin_write)
    ∷ ("db_query", BuiltinFunction.database_query)
    ∷ ("db_execute", BuiltinFunction.database_execute)
    ∷ ("db_commit", BuiltinFunction.database_commit)
    ∷ ("db_rollback", BuiltinFunction.database_rollback)
    ∷ ("int_to_string", BuiltinFunction.int_to_string)
    ∷ ("url_path_segment", BuiltinFunction.url_path_segment)
    ∷ ("url_query", BuiltinFunction.url_query)
    ∷ ("string_byte_len", BuiltinFunction.string_byte_len)
    ∷ ("string_is_empty", BuiltinFunction.string_is_empty)
    ∷ ("string_contains", BuiltinFunction.string_contains)
    ∷ ("string_starts_with", BuiltinFunction.string_starts_with)
    ∷ ("string_ends_with", BuiltinFunction.string_ends_with)
    ∷ []

unfoldable pub find_builtin : String → List (String × BuiltinFunction) → Option BuiltinFunction
find_builtin name [] = none
find_builtin name ((other, f) ∷ more) =
    let rest = find_builtin name more in if same_text name other then some f else rest

abbrev pub function_of : Option BuiltinFunction → Option Value
function_of none = none
function_of (some f) = some (Value.builtin f)

-- `builtin_value`: `None` is a value, and every other reserved name a function.
unfoldable pub builtin_value : String → Option Value
unfolding builtin_table find_builtin
builtin_value name =
    if same_text name "None"
    then some (Value.bare VariantName.none)
    else function_of (find_builtin name builtin_table)

-- `Environment::lookup`
unfoldable pub environment_lookup : String → Environment → Option Value
environment_lookup name empty = none
environment_lookup name (extend other v env) =
    let rest = environment_lookup name env in if same_text other name then some v else rest

-- The innermost binding wins, and a built-in is what is left.
abbrev pub bound_or_builtin : Option Value → Option Value → Result Value
bound_or_builtin (some v) builtin = Result.ok v
bound_or_builtin none (some v) = Result.ok v
bound_or_builtin none none = Result.err undefined_name

-- `variable`
unfoldable pub variable_value : String → Environment → Result Value
unfolding environment_lookup builtin_value
variable_value name env = bound_or_builtin (environment_lookup name env) (builtin_value name)

unfoldable pub builtin_arity : BuiltinFunction → ℕ
builtin_arity BuiltinFunction.replay_http = 4
builtin_arity BuiltinFunction.replay_ai = 4
builtin_arity BuiltinFunction.cache_put = 4
builtin_arity BuiltinFunction.http_request = 3
builtin_arity BuiltinFunction.state_put = 3
builtin_arity BuiltinFunction.checkpoint_put = 3
builtin_arity BuiltinFunction.object_put = 3
builtin_arity BuiltinFunction.search_query = 3
builtin_arity BuiltinFunction.vector_search = 3
builtin_arity BuiltinFunction.database_query = 3
builtin_arity BuiltinFunction.database_execute = 3
builtin_arity BuiltinFunction.ai_invoke = 2
builtin_arity BuiltinFunction.log_info = 2
builtin_arity BuiltinFunction.log_error = 2
builtin_arity BuiltinFunction.state_get = 2
builtin_arity BuiltinFunction.state_delete = 2
builtin_arity BuiltinFunction.checkpoint_get = 2
builtin_arity BuiltinFunction.queue_publish = 2
builtin_arity BuiltinFunction.object_get = 2
builtin_arity BuiltinFunction.cache_get = 2
builtin_arity BuiltinFunction.cache_delete = 2
builtin_arity BuiltinFunction.object_delete = 2
builtin_arity BuiltinFunction.string_contains = 2
builtin_arity BuiltinFunction.string_starts_with = 2
builtin_arity BuiltinFunction.string_ends_with = 2
builtin_arity _ = 1

-- `unavailable_builtin_message`, without the message
unfoldable pub is_available : BuiltinFunction → Bool
is_available BuiltinFunction.print = true
is_available BuiltinFunction.println = true
is_available BuiltinFunction.some = true
is_available BuiltinFunction.ok = true
is_available BuiltinFunction.err = true
is_available BuiltinFunction.json_encode = true
is_available BuiltinFunction.json_decode = true
is_available BuiltinFunction.int_to_string = true
is_available BuiltinFunction.url_path_segment = true
is_available BuiltinFunction.url_query = true
is_available BuiltinFunction.string_byte_len = true
is_available BuiltinFunction.string_is_empty = true
is_available BuiltinFunction.string_contains = true
is_available BuiltinFunction.string_starts_with = true
is_available BuiltinFunction.string_ends_with = true
is_available _ = false

-- `PathSegmentError::message`
unfoldable pub segment_message : PathSegmentError → List ℕ
unfolding as_bytes
segment_message PathSegmentError.empty = as_bytes "path segment is empty"
segment_message PathSegmentError.forbidden_byte =
    as_bytes "path segment contains `/`, `\\`, or an ASCII control character"
segment_message PathSegmentError.escape_like =
    as_bytes "path segment contains `%` followed by a hex digit, `u`, or `U`"
segment_message PathSegmentError.dot_segment = as_bytes "path segment reads as `.` or `..`"

unfoldable pub starts_with : List ℕ → List ℕ → Bool
starts_with s [] = true
starts_with [] (b ∷ part) = false
starts_with (a ∷ s) (b ∷ part) = a == b && starts_with s part

unfoldable pub contains_part : List ℕ → List ℕ → Bool
unfolding starts_with
contains_part [] part = is_empty part
contains_part (a ∷ s) part = starts_with (a ∷ s) part || contains_part s part

abbrev same_length : List ℕ → List ℕ → Bool
same_length s part = length s == length part

-- `str::ends_with`: one of the tails is the part.
unfoldable pub ends_with : List ℕ → List ℕ → Bool
unfolding starts_with
ends_with [] part = is_empty part
ends_with (a ∷ s) part = (same_length (a ∷ s) part && starts_with (a ∷ s) part) || ends_with s part

-- The arguments of a built-in, whose number has been checked.
abbrev pub first : Values → Value
first nil = Value.unit
first (Values.cons v vs) = v

abbrev pub second : Values → Value
second nil = Value.unit
second (Values.cons v vs) = first vs

abbrev pub text_test : (List ℕ → List ℕ → Bool) → Values → Result Value
text_test test vs = expect_string (first vs) >>= λ s.
    expect_string (second vs) >>= λ part. Result.ok (boolean (test s part))

abbrev pub text_or : Diagnostic → Option (List ℕ) → Result Value
text_or e none = Result.err e
text_or e (some s) = Result.ok (str s)

unfoldable pub decoded_json : Option Json → Result Value
unfolding json_to_value
decoded_json none = Result.err json_decoding
decoded_json (some j) = json_to_value j

-- The encoded segment, or the reason against it, as a variant.
unfoldable pub segment_value : Encoded → Result Value
unfolding segment_message new_variant
segment_value (Encoded.ok segment) = new_variant VariantName.ok (str segment)
segment_value (Encoded.err e) = new_variant VariantName.err (str (segment_message e))

unfoldable pub url_path_segment : Value → Result Value
unfolding expect_string encode_path_segment segment_value
url_path_segment v = expect_string v >>= λ s. segment_value (encode_path_segment s)

module _ (outside : Outside) where
  unfoldable pub json_encode : Value → Result Value
  unfolding value_to_json
  json_encode v = value_to_json v >>= λ j. text_or json_encoding (outside.json_text j)

  unfoldable pub json_decode : Value → Result Value
  unfolding decoded_json expect_string
  json_decode v = expect_string v >>= λ s. decoded_json (outside.json_read s)

  -- `apply_builtin` on the built-ins that answer with a value; `call_builtin` refuses those of the host
  -- before.
  unfoldable pub pure_builtin : BuiltinFunction → Values → Result Value
  unfolding json_encode json_decode expect_integer expect_string integer_text url_path_segment
      url_query checked starts_with contains_part ends_with new_variant
  pure_builtin BuiltinFunction.some vs = new_variant VariantName.some (first vs)
  pure_builtin BuiltinFunction.ok vs = new_variant VariantName.ok (first vs)
  pure_builtin BuiltinFunction.err vs = new_variant VariantName.err (first vs)
  pure_builtin BuiltinFunction.json_encode vs = json_encode (first vs)
  pure_builtin BuiltinFunction.json_decode vs = json_decode (first vs)
  pure_builtin BuiltinFunction.int_to_string vs =
      expect_integer (first vs) >>= λ n. Result.ok (str (integer_text n))
  pure_builtin BuiltinFunction.url_path_segment vs = url_path_segment (first vs)
  pure_builtin BuiltinFunction.url_query vs = url_query (first vs)
  pure_builtin BuiltinFunction.string_byte_len vs =
      expect_string (first vs) >>= λ s. or_overflow (checked (pos (length s)))
  pure_builtin BuiltinFunction.string_is_empty vs =
      expect_string (first vs) >>= λ s. Result.ok (boolean (is_empty s))
  pure_builtin BuiltinFunction.string_contains vs = text_test contains_part vs
  pure_builtin BuiltinFunction.string_starts_with vs = text_test starts_with vs
  pure_builtin BuiltinFunction.string_ends_with vs = text_test ends_with vs
  pure_builtin f vs = Result.err unavailable_builtin
