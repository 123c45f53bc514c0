-- ===== src/Evaluator/Builtins.antt =====
-- crates/krit/src/evaluator.rs: `url_query`, and the negation of an integer literal.
pub mod Texts
use krit.Base.{ℕ, List, [], ◌∷◌}
use krit.Base.Int.{ℤ, pos, ◌-ℤ◌}
use krit.Diagnostic.{Result, ◌>>=◌, wrong_kind}
use krit.Value.{Value, Values, nil, str}
use krit.RequestTarget.Encoding.{encode_query}
use krit.Evaluator.Equality.{field_value}
use krit.Evaluator.Operators.{expect_string, checked, or_overflow}

-- The loop of `url_query` over the records.
unfoldable pub url_pairs : Values → Result (List (List ℕ × List ℕ))
unfolding field_value expect_string
url_pairs nil = Result.ok []
url_pairs (Values.cons entry entries) = field_value entry "name" >>= λ named.
    expect_string named >>= λ name. field_value entry "value" >>= λ valued.
    expect_string valued >>= λ value.
    url_pairs entries >>= λ pairs. Result.ok ((name, value) ∷ pairs)

unfoldable pub url_query : Value → Result Value
unfolding url_pairs encode_query
url_query (Value.list entries d) =
    url_pairs entries >>= λ pairs. Result.ok (str (encode_query pairs))
url_query v = Result.err wrong_kind

-- `negate_literal`: an `i128` that is not its least negates exactly, and the least one does not fit an
-- `i64` either.
unfoldable pub negate_literal : ℤ → Result Value
unfolding checked ◌-ℤ◌
negate_literal a = or_overflow (checked (pos 0 -ℤ a))
