-- ===== src/Evaluator/Render.antt =====
-- crates/krit/src/evaluator.rs: `Value::render`. The debug form of a text, which nested texts have,
-- rests on Unicode's tables and is an argument.
use krit.Base.{
  ℕ, zero, suc, ◌+◌, ◌/◌, ◌%◌, true, false, none, some, List, [], ◌∷◌, ◌++◌, ltb, if◌then◌else◌,
  as_bytes,
}
use krit.Base.Int.{ℤ, pos, negsuc}
use krit.Patterns.{VariantName}
use krit.Value.{Value, Values, nil, Fields, end, BuiltinFunction}

-- `VariantName::as_str`
unfoldable pub variant_text : VariantName → List ℕ
unfolding as_bytes
variant_text VariantName.some = as_bytes "Some"
variant_text VariantName.none = as_bytes "None"
variant_text VariantName.ok = as_bytes "Ok"
variant_text VariantName.err = as_bytes "Err"

-- The digits of a number, before those of `rest`; `u64` has at most 20.
unfoldable pub digits : ℕ → ℕ → List ℕ → List ℕ
digits zero n rest = rest
digits (suc rounds) n rest =
    let more = digits rounds (n / 10) ((b'0' + n % 10) ∷ rest) in
    if ltb n 10 then (b'0' + n) ∷ rest else more

-- `i64::to_string`
unfoldable pub integer_text : ℤ → List ℕ
unfolding digits
integer_text (pos n) = digits 20 n []
integer_text (negsuc n) = b'-' ∷ digits 20 (n + 1) []

unfoldable pub builtin_text : BuiltinFunction → List ℕ
unfolding as_bytes
builtin_text BuiltinFunction.print = as_bytes "print"
builtin_text BuiltinFunction.println = as_bytes "println"
builtin_text BuiltinFunction.some = as_bytes "Some"
builtin_text BuiltinFunction.ok = as_bytes "Ok"
builtin_text BuiltinFunction.err = as_bytes "Err"
builtin_text BuiltinFunction.json_encode = as_bytes "json_encode"
builtin_text BuiltinFunction.json_decode = as_bytes "json_decode"
builtin_text BuiltinFunction.int_to_string = as_bytes "int_to_string"
builtin_text BuiltinFunction.url_path_segment = as_bytes "url_path_segment"
builtin_text BuiltinFunction.url_query = as_bytes "url_query"
builtin_text BuiltinFunction.string_byte_len = as_bytes "string_byte_len"
builtin_text BuiltinFunction.string_is_empty = as_bytes "string_is_empty"
builtin_text BuiltinFunction.string_contains = as_bytes "string_contains"
builtin_text BuiltinFunction.string_starts_with = as_bytes "string_starts_with"
builtin_text BuiltinFunction.string_ends_with = as_bytes "string_ends_with"
builtin_text BuiltinFunction.ai_invoke = as_bytes "ai_invoke"
builtin_text BuiltinFunction.config_string = as_bytes "config_string"
builtin_text BuiltinFunction.secret = as_bytes "secret"
builtin_text BuiltinFunction.http_request = as_bytes "http_request"
builtin_text BuiltinFunction.log_info = as_bytes "log_info"
builtin_text BuiltinFunction.log_error = as_bytes "log_error"
builtin_text BuiltinFunction.state_get = as_bytes "state_get"
builtin_text BuiltinFunction.state_put = as_bytes "state_put"
builtin_text BuiltinFunction.state_delete = as_bytes "state_delete"
builtin_text BuiltinFunction.checkpoint_get = as_bytes "checkpoint_get"
builtin_text BuiltinFunction.checkpoint_put = as_bytes "checkpoint_put"
builtin_text BuiltinFunction.replay_http = as_bytes "replay_http"
builtin_text BuiltinFunction.replay_ai = as_bytes "replay_ai"
builtin_text BuiltinFunction.queue_publish = as_bytes "queue_publish"
builtin_text BuiltinFunction.cache_get = as_bytes "cache_get"
builtin_text BuiltinFunction.cache_put = as_bytes "cache_put"
builtin_text BuiltinFunction.cache_delete = as_bytes "cache_delete"
builtin_text BuiltinFunction.search_query = as_bytes "search_query"
builtin_text BuiltinFunction.vector_search = as_bytes "vector_search"
builtin_text BuiltinFunction.object_get = as_bytes "object_get"
builtin_text BuiltinFunction.object_put = as_bytes "object_put"
builtin_text BuiltinFunction.object_delete = as_bytes "object_delete"
builtin_text BuiltinFunction.database_begin_read = as_bytes "db_begin_read"
builtin_text BuiltinFunction.database_begin_write = as_bytes "db_begin_write"
builtin_text BuiltinFunction.database_query = as_bytes "db_query"
builtin_text BuiltinFunction.database_execute = as_bytes "db_execute"
builtin_text BuiltinFunction.database_commit = as_bytes "db_commit"
builtin_text BuiltinFunction.database_rollback = as_bytes "db_rollback"

abbrev function_text : List ℕ → List ℕ
function_text name = as_bytes "<function " ++ (name ++ as_bytes ">")

module _ (quoted : List ℕ → List ℕ) where
  -- A text is quoted below the top.
  abbrev nested : Value → List ℕ → List ℕ
  nested (Value.str s) rendered = quoted s
  nested v rendered = rendered

  unfoldable mutual
    unfolding variant_text integer_text builtin_text as_bytes

    pub render : Value → List ℕ
    render (Value.integer n) = integer_text n
    render (Value.boolean true) = as_bytes "true"
    render (Value.boolean false) = as_bytes "false"
    render (Value.str s) = s
    render Value.unit = as_bytes "()"
    render (Value.list vs d) = b'[' ∷ (render_items vs ++ as_bytes "]")
    render (Value.record_of end d) = as_bytes "record {}"
    render (Value.record_of (Fields.field name v fs) d) =
        as_bytes "record { " ++ (render_fields (Fields.field name v fs) ++ as_bytes " }")
    render (Value.bare name) = variant_text name
    render (Value.variant name v d) =
        variant_text name ++ (b'(' ∷ (nested v (render v) ++ as_bytes ")"))
    render (Value.function none parameters body env) = as_bytes "<function>"
    render (Value.function (some name) parameters body env) = function_text (as_bytes name)
    render (Value.builtin f) = function_text (builtin_text f)

    pub render_items : Values → List ℕ
    render_items nil = []
    render_items (Values.cons v nil) = nested v (render v)
    render_items (Values.cons v (Values.cons w vs)) =
        nested v (render v) ++ (as_bytes ", " ++ render_items (Values.cons w vs))

    pub render_fields : Fields → List ℕ
    render_fields end = []
    render_fields (Fields.field name v end) =
        as_bytes name ++ (as_bytes ": " ++ nested v (render v))
    render_fields (Fields.field name v (Fields.field other w fs)) =
        as_bytes name
        ++ (as_bytes ": "
            ++ (nested v (render v) ++ (as_bytes ", " ++ render_fields (Fields.field other w fs))))
