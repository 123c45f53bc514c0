-- ===== src/Evaluator/MatchValue.antt =====
-- crates/krit/src/evaluator.rs and patterns.rs: the value of a `match` that analysis accepts.
use krit.Base.{◌≡◌, ◌≢◌, ◌∙◌, refl, ap, List, [], ◌∷◌, Option, none, some, All}
use krit.Diagnostic.{Result, Family}
use krit.Patterns.{Pattern}
use krit.Patterns.Check.{check_arms, check_exhaustive}
use krit.Patterns.Meaning.{Ty, Fits}
use krit.Syntax.{Arms, Expression, Block}
use krit.Value.{Value, Environment}
use krit.Value.Depth.{IsSound}
use krit.Evaluator.{match_pattern, select_match_arm}
use krit.Evaluator.Arms.{TypedPattern, patterns}
use krit.Evaluator.Machine.{Outside, M, Run, ◌>>=◌, lift, entered, Flow, continue_with}
use krit.Evaluator.Expressions.{contents, arm_value}
use krit.Evaluator.Selection.{Selects, select_match_arm-Selects}

abbrev pub arms_list : Arms → List (Pattern × Expression)
arms_list Arms.no_arms = []
arms_list (Arms.arm p e arms) = (p, e) ∷ arms_list arms

module _ (outside : Outside) (body : Block → Environment → M Value) where
  abbrev chosen_value : Expression × Environment → M Value
  chosen_value (e, bound) = entered (contents outside body e bound)

  abbrev LaterAgree : Arms → Value → Environment → Run → Type 0
  LaterAgree arms v env s =
      arm_value outside body arms v env s
      ≡ (lift (select_match_arm v (arms_list arms) env) >>= chosen_value) s

  arm_value-arm :
      (p : Pattern) (e : Expression) (arms : Arms) (v : Value) (env : Environment) (s : Run)
      (found : Result (Option Environment))
      → match_pattern p v env ≡ found
      → LaterAgree arms v env s
      → LaterAgree (Arms.arm p e arms) v env s
  unfolding arm_value select_match_arm
  arm_value-arm p e arms v env s (Result.err d) h later = rw h refl
  arm_value-arm p e arms v env s (Result.ok none) h later = rw h later
  arm_value-arm p e arms v env s (Result.ok (some bound)) h later = rw h refl

  arm_value-select_match_arm :
      (arms : Arms) (v : Value) (env : Environment) (s : Run)
      → arm_value outside body arms v env s
        ≡ (lift (select_match_arm v (arms_list arms) env) >>= chosen_value) s
  unfolding arm_value select_match_arm
  arm_value-select_match_arm Arms.no_arms v env s = refl
  arm_value-select_match_arm (Arms.arm p e arms) v env s =
      arm_value-arm p e arms v env s (match_pattern p v env) refl
        (arm_value-select_match_arm arms v env s)

  -- A `match` whose subject comes to the value, in the given state, evaluates as one of its arms does:
  -- exactly one arm's pattern matches the value, and the answer, the depth and the output are those
  -- of that arm's expression where the names of its pattern are bound.
  pub record EvaluatesOne (asked : Expression) (arms : Arms) (v : Value) (env : Environment)
      (s mid : Run) : Type 0 where
    pub chosen : Selects v env (arms_list arms)
    pub evaluated :
        contents outside body (Expression.match_on asked arms) env s
        ≡ entered (contents outside body chosen.expression chosen.bound) mid

  -- If analysis accepts the arms of a `match`, which has an arm, and types their patterns against the
  -- subject, and the subject evaluates to a sound value of its type, then exactly one arm's pattern
  -- matches that value, and the evaluation of the `match` is the evaluation of that arm's expression
  -- where the names of its pattern are bound, from the state that the subject's evaluation leaves.
  pub match_on-EvaluatesOne :
      (asked : Expression) (arms : Arms) (subject : Option Family) (t : Ty) (v : Value)
      (env : Environment) (s mid : Run)
      → check_arms (patterns (arms_list arms)) subject ≡ Result.ok tt
      → check_exhaustive (patterns (arms_list arms)) ≡ Result.ok tt
      → arms_list arms ≢ []
      → All (λ arm. TypedPattern t arm.0) (arms_list arms)
      → entered (contents outside body asked env) s ≡ (Flow.value v, mid)
      → Fits t v
      → IsSound v
      → EvaluatesOne asked arms v env s mid
  unfolding contents
  match_on-EvaluatesOne asked arms subject t v env s mid accepted exhaustive some_arm ty comes fits
        sound =
      let chosen =
        select_match_arm-Selects (arms_list arms) subject t v env accepted exhaustive some_arm ty
          fits sound in
      record {
        chosen = chosen;
        evaluated =
            ap (λ first. continue_with first (λ w. arm_value outside body arms w env)) comes
            ∙ arm_value-select_match_arm arms v env mid
            ∙ ap (λ selected. (lift selected >>= chosen_value) mid) chosen.selected;
      }
