-- ===== src/Evaluator/Outcome.antt =====
-- crates/krit/src/evaluator.rs: what `execute` and a call come to, whatever the program.
use krit.Base.{
  ℕ, zero, suc, ◌≡◌, refl, List, [], Option, ◌==◌, length, ◌≢◌, Bool-cases, inl, ◌⊎◌, ◌↔◌, ==_iff,
  sym, inr, subst, ◌∙◌,
}
use mathlib.Core.Bool.{true≢false}
use krit.Diagnostic.{call_depth, Diagnostic, wrong_arity}
use krit.Syntax.{Block, Statements}
use krit.Value.{Value, Values, Environment, empty}
use krit.Value.Depth.{IsSound, ScopeIsSound}
use krit.Evaluator.{String}
use krit.Evaluator.Machine.{
  Outside, M, Flow, Exit, Run, returned, returned_flow, continue_with, fail,
}
use krit.Evaluator.Calls.{call_function, bind_parameters, bind_self, closure}
use krit.Evaluator.Expressions.{block_contents}
use krit.Evaluator.Program.{body_of, run_program}
use krit.Evaluator.Good.{Good, Leaves, fail-Good, entered-Good}
use krit.Evaluator.Soundness.{block_contents-Good, environment_after-Good}

abbrev pub start : Run
start = record { depth = 0; output = [] }

-- What a call's body is evaluated with: the arguments' values, and the function itself under its
-- own name.
abbrev pub called_with : Option String → List String → Block → Environment → Values → Environment
called_with name parameters b env vs =
    bind_parameters parameters vs (bind_self (closure name parameters b env) name env)

-- A run of a call's body that ends in a value, its last expression's or the one that a `?` or a
-- let-else gives up with.
abbrev pub Ends : Flow Value × Run → Value → Run → Type 0
Ends ended v after =
    (ended ≡ (Flow.value v, after)) ⊎ ((x : Exit) × (ended ≡ (Flow.exit v x, after)))

module _ (outside : Outside) where
  pub body_of-Good :
      (calls : ℕ) (b : Block) (env : Environment)
      → ScopeIsSound env
      → Good IsSound (body_of outside calls b env)
  unfolding body_of
  body_of-Good zero b env h = fail-Good IsSound call_depth
  body_of-Good (suc left) b env h =
      entered-Good IsSound (block_contents outside (body_of outside left) b env)
        (block_contents-Good outside (body_of outside left) (body_of-Good left) b env h)

  -- Whatever the statements and the number of calls allowed, a run ends with the evaluation depth back
  -- at 0; when it ends with an environment, every value in it is sound, which is to say that each list,
  -- record and variant records its true nesting within the limit and each integer fits in an i64; and
  -- when a `?` or a let-else reaches the top level, the value it carries is sound.
  pub run_program-Leaves :
      (calls : ℕ) (statements : Statements)
      → Leaves ScopeIsSound start (run_program outside calls statements)
  unfolding run_program IsSound
  run_program-Leaves calls statements =
      environment_after-Good outside (body_of outside calls) (body_of-Good calls) statements empty
        tt start

  returned_flow-never_exits :
      (first : Flow Value × Run) (after : Run) (v : Value) (x : Exit)
      → returned_flow first ≢ (Flow.exit v x, after)
  returned_flow-never_exits (Flow.value w, s) after v x h = cc
  returned_flow-never_exits (Flow.error e, s) after v x h = cc
  returned_flow-never_exits (Flow.exit w y, s) after v x h = cc

  module _ (body : Block → Environment → M Value) where
    returned_flow-Ends :
        (ended : Flow Value × Run) (after : Run) (v : Value)
        → (returned_flow ended ≡ (Flow.value v, after)) ↔ Ends ended v after
    returned_flow-Ends (Flow.value w, s) after v =
        (λ h. inl h, elim [ inl h ↦ h | inr (x, h) ↦ absurd cc ])
    returned_flow-Ends (Flow.error e, s) after v =
        (λ h. absurd cc, elim [ inl h ↦ absurd cc | inr (x, h) ↦ absurd cc ])
    returned_flow-Ends (Flow.exit w y, s) after v =
        (λ h. inr (y, cc), elim [ inl h ↦ absurd cc | inr (x, h) ↦ cc ])

    abbrev Entering : Flow Values × Run → (Values → M Value) → Value → Run → Type 0
    Entering first f v after =
        (vs : Values) × (mid : Run) × (first ≡ (Flow.value vs, mid)) × Ends (f vs mid) v after

    continue_with-exits :
        (first : Flow Values × Run) (f : Values → M Value) (after : Run) (v : Value) (x : Exit)
        → (continue_with first (λ vs. returned (f vs)) ≡ (Flow.exit v x, after))
          ↔ (first ≡ (Flow.exit v x, after))
    unfolding returned
    continue_with-exits (Flow.value vs, s) f after v x =
        (λ h. absurd (returned_flow-never_exits (f vs s) after v x h), λ h. cc)
    continue_with-exits (Flow.error e, s) f after v x = (λ h. cc, λ h. cc)
    continue_with-exits (Flow.exit w y, s) f after v x = (λ h. cc, λ h. cc)

    abbrev Ended : Flow Values × Run → (Values → M Value) → Value → Run → Type 0
    Ended (Flow.value vs, s) f v after = Ends (f vs s) v after
    Ended _ f v after = ⊥

    continue_with-answers :
        (first : Flow Values × Run) (f : Values → M Value) (after : Run) (v : Value)
        → (continue_with first (λ vs. returned (f vs)) ≡ (Flow.value v, after))
          ↔ Entering first f v after
    unfolding returned
    continue_with-answers (Flow.value vs, s) f after v = (
      λ h. (vs, s, refl, (returned_flow-Ends (f vs s) after v).0 h),
      λ (us, mid, h, ends).
          (returned_flow-Ends (f vs s) after v).1
            (subst (λ first. Ended first f v after) (sym h) ends),
    )
    continue_with-answers (Flow.error e, s) f after v =
        (λ h. absurd cc, λ (us, mid, h, ends). absurd cc)
    continue_with-answers (Flow.exit w y, s) f after v =
        (λ h. absurd cc, λ (us, mid, h, ends). absurd cc)

    failed_exits :
        (e : Diagnostic) (s after : Run) (v : Value) (x : Exit)
        → fail {A = Value} e s ≡ (Flow.exit v x, after)
        → ⊥
    failed_exits e s after v x h = cc

    failed_answers :
        (e : Diagnostic) (s after : Run) (v : Value)
        → fail {A = Value} e s ≡ (Flow.value v, after)
        → ⊥
    failed_answers e s after v h = cc

    -- A call of a function gives up with a `?` or a let-else exactly when it has as many arguments as
    -- parameters and their evaluation gives up with the same. It answers with a value exactly when it
    -- has as many arguments as parameters, the arguments evaluate to values, and the body, where the
    -- parameters are bound to them, ends with that value or gives up with it.
    pub call_function-outcomes :
        (name : Option String) (parameters : List String) (b : Block) (env : Environment)
        (count : ℕ) (arguments : M Values) (s after : Run) (v : Value) (x : Exit)
        → ((call_function outside body name parameters b env count arguments s
              ≡ (Flow.exit v x, after))
            ↔ ((count ≡ length parameters) × (arguments s ≡ (Flow.exit v x, after))))
          × ((call_function outside body name parameters b env count arguments s
                ≡ (Flow.value v, after))
              ↔ ((count ≡ length parameters)
                  × (vs : Values) × (mid : Run) × (arguments s ≡ (Flow.value vs, mid))
                  × Ends (body b (called_with name parameters b env vs) mid) v after))
    unfolding call_function
    call_function-outcomes name parameters b env count arguments s after v x =
        elim (Bool-cases (count == length parameters)) [
          | inl same ↦
              let equal = (==_iff count (length parameters)).0 same in
              let exits =
                continue_with-exits (arguments s)
                  (λ vs. body b (called_with name parameters b env vs)) after v x in
              let answers =
                continue_with-answers (arguments s)
                  (λ vs. body b (called_with name parameters b env vs)) after v in
              (
                (λ h. (equal, exits.0 (rw same at h)), λ (e, h). rw same (exits.1 h)),
                (
                  λ h.
                      let (vs, mid, evaluated, ends) = answers.0 (rw same at h) in
                      (equal, vs, mid, evaluated, ends),
                  λ (e, vs, mid, evaluated, ends). rw same (answers.1 (vs, mid, evaluated, ends)),
                ),
              )
          | inr other ↦
              let differ : count ≢ length parameters =
                λ e. true≢false (sym ((==_iff count (length parameters)).1 e) ∙ other) in
              (
                (
                  λ h. absurd (failed_exits wrong_arity s after v x (rw other at h)),
                  λ (e, h). absurd (differ e),
                ),
                (
                  λ h. absurd (failed_answers wrong_arity s after v (rw other at h)),
                  λ (e, vs, mid, evaluated, ends). absurd (differ e),
                ),
              )
        ]
