-- ===== src/Evaluator/Machine.antt =====
-- crates/krit/src/evaluator.rs: `Interrupt`, `Flow`, and the state that `Evaluator` carries. The number
-- of active calls is kept as the number of calls that are left (Evaluator/Program). The writer and
-- other libraries are arguments.
use krit.Base.{ℕ, ◌+◌, ◌-◌, Bool, Option, List, ◌++◌, leb, if◌then◌else◌}
use krit.Diagnostic.{Diagnostic, Result, evaluation_depth, output_failed}
use krit.Value.{Value}
use krit.Evaluator.Json.{Json}

-- What lies outside the repository: the debug form of a text, serde_json's writing and reading, and
-- whether the writer takes some bytes after those it has.
pub record Outside : Type 0 where
  pub quoted : List ℕ → List ℕ
  pub json_text : Json → Option (List ℕ)
  pub json_read : List ℕ → Option Json
  pub writes : List ℕ → List ℕ → Bool

pub data Exit : Type 0 where
  question let_else : Exit

pub data Flow (A : Type 0) : Type 0 where
  value : A → Flow A
  error : Diagnostic → Flow A
  exit : Value → Exit → Flow A

pub record Run : Type 0 where
  pub depth : ℕ
  pub output : List ℕ

abbrev pub M : Type 0 → Type 0
M A = Run → Flow A × Run

abbrev pub pure : {A : Type 0} → A → M A
pure a s = (Flow.value a, s)

abbrev pub fail : {A : Type 0} → Diagnostic → M A
fail e s = (Flow.error e, s)

-- The rest of a step, after the answer of its first part.
abbrev pub continue_with : {A B : Type 0} → Flow A × Run → (A → M B) → Flow B × Run
continue_with (Flow.value a, s) f = f a s
continue_with (Flow.error e, s) f = (Flow.error e, s)
continue_with (Flow.exit v x, s) f = (Flow.exit v x, s)

infixl 5 ◌>>=◌ ◌>>◌
abbrev pub ◌>>=◌ : {A B : Type 0} → M A → (A → M B) → M B
◌>>=◌ m f s = continue_with (m s) f

abbrev pub ◌>>◌ : {B : Type 0} → M (Unit {0}) → M B → M B
m >> k = m >>= λ _. k

-- `?` on a `Result<A, Diagnostic>`
abbrev pub lift : {A : Type 0} → Result A → M A
lift (Result.ok a) = pure a
lift (Result.err e) = fail e

abbrev pub max_evaluation_depth : ℕ
max_evaluation_depth = 100000

abbrev leave : {A : Type 0} → Flow A × Run → Flow A × Run
leave (answer, s) = (answer, record s { depth = s.depth - 1 })

-- `enter`, an evaluation, and the step back, on errors too.
unfoldable pub entered : {A : Type 0} → M A → M A
entered m s =
    if leb max_evaluation_depth s.depth
    then (Flow.error evaluation_depth, s)
    else leave (m (record s { depth = s.depth + 1 }))

-- `write_all`; what a failed write leaves is not modelled.
unfoldable pub write_all : Outside → List ℕ → M (Unit {0})
write_all outside bytes s =
    if outside.writes s.output bytes
    then (Flow.value tt, record s { output = s.output ++ bytes })
    else (Flow.error output_failed, s)

-- A call returns what its body's `?` or let-else gives up with.
abbrev pub returned_flow : Flow Value × Run → Flow Value × Run
returned_flow (Flow.exit v x, s) = (Flow.value v, s)
returned_flow (Flow.value v, s) = (Flow.value v, s)
returned_flow (Flow.error e, s) = (Flow.error e, s)

unfoldable pub returned : M Value → M Value
returned m s = returned_flow (m s)

unfoldable pub exit_with : {A : Type 0} → Value → Exit → M A
exit_with v x s = (Flow.exit v x, s)
