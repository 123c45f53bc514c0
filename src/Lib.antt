-- ===== src/Lib.antt =====
-- Verification library of the Krit repository: the parts of the compiler and the host that decide
-- what a program may do, modelled function by function, with the theorems that make them correct.
--
-- Parts, and the file that models each (paths from the repository's root):
--
--   RequestTarget, RequestTarget/Encoding    crates/krit-capability/src/request_target.rs
--     The host's rule for request paths and queries (`is_origin_form_path`, `has_traversal_form`,
--     `is_valid_query`), and the builders `encode_path_segment` and `encode_query` that the standard
--     functions `url_path_segment` and `url_query` call. A text is the list of its UTF-8 bytes;
--     RequestTarget/Utf8 states what a Rust `str` guarantees of them.
--   Patterns, Patterns/Check                 crates/krit/src/patterns.rs, crates/krit/src/ast.rs
--     The rules for the arms of a `match`: `path`, `missing`, `check_arms`, `check_exhaustive`.
--   Syntax                                   crates/krit/src/ast.rs
--     Expressions, statements and blocks, without spans, doc comments and type annotations.
--   Value, Evaluator                         crates/krit/src/evaluator.rs
--     Values with the nesting depth that containers record, `match_pattern`, `select_match_arm`.
--     Analysis calls the rules of Patterns before the evaluator runs; Evaluator/Selection and
--     Evaluator/MatchValue join them.
--   Evaluator/Operators, Evaluator/Equality  crates/krit/src/evaluator.rs
--     The operators on evaluated operands (`apply_binary`, `apply_unary`), with checked `i64`
--     arithmetic, and the structural equality of values; Operators/Division and Overflow are about `/`
--     and `%`. Evaluator/Builtins is `url_query`.
--   Evaluator/Library, Render, Json          crates/krit/src/evaluator.rs
--     The built-in functions, `Value::render`, and the passage between values and JSON.
--   Evaluator/Contracts                      crates/krit/src/analysis.rs, ast.rs, evaluator.rs
--     `check_construction_fields` and the construction of a contract record.
--   Evaluator/Machine, Calls, Expressions, Program   crates/krit/src/evaluator.rs
--     The evaluator itself: Machine has `Interrupt`, `enter` and the state (the evaluation depth and
--     what has been written), Calls has `call_function`, `call_builtin`, `propagate` and `let_else`,
--     Expressions has `expression` and `block`, and Program `execute`. Evaluator/Good, Results,
--     Matching, LibraryResults, CallsGood and Soundness build up to what every run keeps
--     (Evaluator/Outcome); Evaluator/Limited and MoreCalls are about the limit on nested calls.
--     Evaluator/Stays, Contained and ContainedRuns are about where a `?` or a let-else can end.
--   Diagnostic                               crates/krit/src/diagnostic.rs
--     The faults that the above report, with their codes.
--   Cache and its children                   crates/krit-cache/src/config.rs, store.rs, error.rs
--     The validation of a configuration, namespaces with their two indexes, and the operations
--     `get`, `put`, `seed` and `delete`. One call holds the lock throughout, so a call is a function
--     from the state to its answer and the new state. Cache/Reachable follows the state through any
--     sequence of calls from `Cache::new` on.
--   Names                                    crates/krit-capability/src/lib.rs
--     `is_valid_resource_name` and `is_valid_config_key`.
--   Policy and its children                  crates/krit-runtime/src/policy.rs
--     `RetryPolicy::delay`, and `AgentHost::check_rate` with the entries that it tracks. A `Duration`
--     and an `Instant` are nanoseconds, and the times that a call reads are its arguments.
--
-- Choices. Maps are lists of entries in which no key stands twice; the first entry of a `BTreeMap` is
-- the one with the least key. Machine integers keep the source's saturating, checked and wrapping
-- operations. The eviction loop of a cache write takes fuel, and `none` means that it ran out;
-- each round takes one entry out, so the entries bound the rounds.
-- Message texts and source spans are left out, and so are the texts' capacities. A poisoned lock is
-- left out. A function value holds its body and its scope. The evaluator recurses on the syntax, and on
-- the number of calls that are left, which is the source's own limit of 10000 nested calls: a body at
-- the limit fails with K4010, as in the source. The debug form of a text, serde_json's writer and
-- reader and the output are arguments (`Outside`). What a failed write leaves is not modelled.
--
-- Not modelled: lexing, parsing, type and effect inference, the core language, formatting, the
-- WebAssembly compiler, durable state, the rest of the host, the language server, the assistant and the
-- command line.
pub mod Base
pub mod RequestTarget
pub mod Diagnostic
pub mod Patterns
pub mod Syntax
pub mod Value
pub mod Evaluator
pub mod Cache
pub mod Policy
pub mod Names
mod Examples
