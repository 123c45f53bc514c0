-- ===== src/Evaluator/Soundness.antt =====
-- crates/krit/src/evaluator.rs: every evaluation leaves the depth as it was, only adds to the output,
-- and answers with a sound value, whatever the program.
use krit.Base.{ℕ, Bool, true, false, Option, none, some, List, [], ◌++◌}
use krit.Base.Int.{ℤ}
use krit.Diagnostic.{Diagnostic, Result}
use krit.Syntax.{
  Expression, Expressions, Parts, Entries, FieldValues, Arms, Block, Statements, Statement,
  UnaryOperator, expressions_count, is_conditional, is_binary, integer_literal,
}
use krit.Value.{Value, Values, Fields, Environment, extend, new_list, new_record, str}
use krit.Value.Depth.{IsSound, AreSound, FieldsAreSound, ScopeIsSound}
use krit.Evaluator.{match_pattern}
use krit.Evaluator.Equality.{field_value}
use krit.Evaluator.Operators.{apply_unary, expect_boolean}
use krit.Evaluator.Builtins.{negate_literal}
use krit.Evaluator.Contracts.{check_construction_fields, constructed}
use krit.Evaluator.Library.{variable_value}
use krit.Evaluator.Machine.{Outside, M, lift, entered}
use krit.Evaluator.Calls.{closure, literal_value, propagate, variant_parts}
use krit.Evaluator.Expressions.{
  unless_chained, entry_value, hole_text, negated, arm_or, contents, values_of, text_of, entries_of,
  fields_of, arm_value, block_contents, environment_after, statement,
}
use krit.Evaluator.Good.{Good, pure-Good, fail-Good, then-Good, entered-Good}
use krit.Evaluator.Results.{
  new_list-Sound, new_record-Sound, apply_unary-Sound, negate_literal-Sound, literal_value-Sound,
  field_value-Sound, variable_value-Sound,
}
use krit.Evaluator.Matching.{BindsSound, match_pattern-BindsSound}
use krit.Evaluator.LibraryResults.{constructed-Sound}
use krit.Evaluator.CallsGood.{
  Sound-Good, look-Good, choose-Good, propagate-Good, variant_parts-AreSound, let_else-Good,
  binary-Good, call_value-Good,
}

unless_chained-Good : (b : Bool) (m : M Value) → Good IsSound m → Good IsSound (unless_chained b m)
unless_chained-Good true m h = h
unless_chained-Good false m h = entered-Good IsSound m h

negated-Good :
    (operator : UnaryOperator) (literal : Option ℤ) (operand : M Value)
    → Good IsSound operand
    → Good IsSound (negated operator literal operand)
negated-Good UnaryOperator.negate (some n) operand h =
    Sound-Good (negate_literal n) (negate_literal-Sound n)
negated-Good UnaryOperator.negate none operand h = then-Good IsSound IsSound operand _ h (λ v hv.
    Sound-Good (apply_unary UnaryOperator.negate v) (apply_unary-Sound UnaryOperator.negate v))
negated-Good UnaryOperator.negation literal operand h =
    then-Good IsSound IsSound operand _ h (λ v hv.
      Sound-Good (apply_unary UnaryOperator.negation v)
        (apply_unary-Sound UnaryOperator.negation v))

arm_or-Good :
    (found : Result (Option Environment)) (value_in : Environment → M Value) (otherwise : M Value)
    → BindsSound found
    → ((bound : Environment) → ScopeIsSound bound → Good IsSound (value_in bound))
    → Good IsSound otherwise
    → Good IsSound (arm_or found value_in otherwise)
arm_or-Good (Result.err e) value_in otherwise hf hv ho = fail-Good IsSound e
arm_or-Good (Result.ok none) value_in otherwise hf hv ho = ho
arm_or-Good (Result.ok (some bound)) value_in otherwise hf hv ho = hv bound hf

module _ (outside : Outside) (call_body : Block → Environment → M Value)
    (call_body-Good : (b : Block) (env : Environment)
      → ScopeIsSound env
      → Good IsSound (call_body b env)) where
  mutual
    unfolding contents IsSound

    contents-Good :
        (e : Expression) (env : Environment)
        → ScopeIsSound env
        → Good IsSound (contents outside call_body e env)
    contents-Good (Expression.literal l) env h =
        Sound-Good (literal_value l) (literal_value-Sound l)
    contents-Good (Expression.interpolation parts) env h =
        then-Good (λ _. Unit) IsSound (text_of outside call_body parts env) _
          (text_of-Good parts env h) (λ s _. pure-Good IsSound (str s) tt)
    contents-Good Expression.unit env h = pure-Good IsSound Value.unit tt
    contents-Good (Expression.variable name) env h =
        Sound-Good (variable_value name env) (variable_value-Sound name env h)
    contents-Good (Expression.list es) env h =
        then-Good AreSound IsSound (values_of outside call_body es env) _ (values_of-Good es env h)
          (λ vs hv. Sound-Good (new_list vs) (new_list-Sound vs hv))
    contents-Good (Expression.entry_list entries) env h =
        then-Good AreSound IsSound (entries_of outside call_body entries env) _
          (entries_of-Good entries env h) (λ vs hv. Sound-Good (new_list vs) (new_list-Sound vs hv))
    contents-Good (Expression.record_of fs) env h =
        then-Good FieldsAreSound IsSound (fields_of outside call_body fs env) _
          (fields_of-Good fs env h) (λ vs hv. Sound-Good (new_record vs) (new_record-Sound vs hv))
    contents-Good (Expression.construct contract fs) env h =
        look-Good IsSound (check_construction_fields contract fs) _ λ _.
          then-Good FieldsAreSound IsSound (fields_of outside call_body fs env) _
            (fields_of-Good fs env h)
            (λ vs hv. Sound-Good (constructed contract vs) (constructed-Sound contract vs hv))
    contents-Good (Expression.field_access e name) env h =
        then-Good IsSound IsSound (entered (contents outside call_body e env)) _
          (entered-Good IsSound _ (contents-Good e env h))
          (λ v hv. Sound-Good (field_value v name) (field_value-Sound v name hv))
    contents-Good (Expression.block_of b) env h =
        entered-Good IsSound (block_contents outside call_body b env) (block_contents-Good b env h)
    contents-Good (Expression.conditional condition consequent alternative) env h =
        let taken =
          entered-Good IsSound (block_contents outside call_body consequent env)
            (block_contents-Good consequent env h) in
        let other =
          unless_chained-Good (is_conditional alternative)
            (contents outside call_body alternative env) (contents-Good alternative env h) in
        then-Good IsSound IsSound (entered (contents outside call_body condition env)) _
          (entered-Good IsSound _ (contents-Good condition env h))
          (λ v hv.
            look-Good IsSound (expect_boolean v) _ (λ b. choose-Good IsSound b _ _ taken other))
    contents-Good (Expression.function parameters body) env h =
        pure-Good IsSound (closure none parameters body env) h
    contents-Good (Expression.call callee arguments) env h =
        let operands = values_of-Good arguments env h in
        then-Good IsSound IsSound (entered (contents outside call_body callee env)) _
          (entered-Good IsSound _ (contents-Good callee env h))
          (λ v hv.
            call_value-Good outside call_body call_body-Good v (expressions_count arguments)
              (values_of outside call_body arguments env) hv operands)
    contents-Good (Expression.propagate operand) env h =
        then-Good IsSound IsSound (entered (contents outside call_body operand env)) propagate
          (entered-Good IsSound _ (contents-Good operand env h)) propagate-Good
    contents-Good (Expression.match_on subject arms) env h =
        let choice = λ (v : Value) (hv : IsSound v). arm_value-Good arms v env hv h in
        then-Good IsSound IsSound (entered (contents outside call_body subject env)) _
          (entered-Good IsSound _ (contents-Good subject env h)) choice
    contents-Good (Expression.unary operator operand) env h =
        negated-Good operator (integer_literal operand)
          (entered (contents outside call_body operand env))
          (entered-Good IsSound _ (contents-Good operand env h))
    contents-Good (Expression.binary left operator right) env h =
        let operand = entered-Good IsSound _ (contents-Good right env h) in
        then-Good IsSound IsSound
          (unless_chained (is_binary left) (contents outside call_body left env)) _
          (unless_chained-Good (is_binary left) (contents outside call_body left env)
            (contents-Good left env h))
          (λ v hv.
            binary-Good operator v (entered (contents outside call_body right env)) hv operand)

    values_of-Good :
        (es : Expressions) (env : Environment)
        → ScopeIsSound env
        → Good AreSound (values_of outside call_body es env)
    values_of-Good Expressions.nil env h = pure-Good AreSound Values.nil tt
    values_of-Good (Expressions.cons e es) env h =
        let rest = values_of-Good es env h in
        then-Good IsSound AreSound (entered (contents outside call_body e env)) _
          (entered-Good IsSound _ (contents-Good e env h))
          (λ v hv.
            then-Good AreSound AreSound (values_of outside call_body es env) _ rest
              (λ vs hvs. pure-Good AreSound (Values.cons v vs) (hv, hvs)))

    text_of-Good :
        (parts : Parts) (env : Environment)
        → ScopeIsSound env
        → Good (λ _. Unit) (text_of outside call_body parts env)
    text_of-Good Parts.no_parts env h = pure-Good {A = List ℕ} (λ _. Unit) [] tt
    text_of-Good (Parts.text s parts) env h =
        then-Good (λ _. Unit) (λ _. Unit) (text_of outside call_body parts env) _
          (text_of-Good parts env h) (λ rest _. pure-Good (λ _. Unit) (s ++ rest) tt)
    text_of-Good (Parts.hole e parts) env h =
        let rest = text_of-Good parts env h in
        then-Good IsSound (λ _. Unit) (entered (contents outside call_body e env)) _
          (entered-Good IsSound _ (contents-Good e env h))
          (λ v hv.
            look-Good (λ _. Unit) (hole_text v) _
              (λ s.
                then-Good (λ _. Unit) (λ _. Unit) (text_of outside call_body parts env) _ rest
                  (λ t _. pure-Good (λ _. Unit) (s ++ t) tt)))

    entries_of-Good :
        (entries : Entries) (env : Environment)
        → ScopeIsSound env
        → Good AreSound (entries_of outside call_body entries env)
    entries_of-Good Entries.no_entries env h = pure-Good AreSound Values.nil tt
    entries_of-Good (Entries.entry k e entries) env h =
        let value_is = entered-Good IsSound _ (contents-Good e env h) in
        let rest = entries_of-Good entries env h in
        then-Good IsSound AreSound (entered (contents outside call_body k env)) _
          (entered-Good IsSound _ (contents-Good k env h))
          (λ name hn.
            then-Good IsSound AreSound (entered (contents outside call_body e env)) _ value_is
              (λ v hv.
                then-Good IsSound AreSound (lift (entry_value name v)) _
                  (Sound-Good (entry_value name v) (
                    new_record-Sound (Fields.field "name" name (Fields.field "value" v Fields.end))
                      (hn, (hv, tt))))
                  (λ made hm.
                    then-Good AreSound AreSound (entries_of outside call_body entries env) _ rest
                      (λ vs hvs. pure-Good AreSound (Values.cons made vs) (hm, hvs)))))

    fields_of-Good :
        (fs : FieldValues) (env : Environment)
        → ScopeIsSound env
        → Good FieldsAreSound (fields_of outside call_body fs env)
    fields_of-Good FieldValues.no_fields env h = pure-Good FieldsAreSound Fields.end tt
    fields_of-Good (FieldValues.written name e fs) env h =
        let rest = fields_of-Good fs env h in
        then-Good IsSound FieldsAreSound (entered (contents outside call_body e env)) _
          (entered-Good IsSound _ (contents-Good e env h))
          (λ v hv.
            then-Good FieldsAreSound FieldsAreSound (fields_of outside call_body fs env) _ rest
              (λ vs hvs. pure-Good FieldsAreSound (Fields.field name v vs) (hv, hvs)))

    arm_value-Good :
        (arms : Arms) (v : Value) (env : Environment)
        → IsSound v
        → ScopeIsSound env
        → Good IsSound (arm_value outside call_body arms v env)
    arm_value-Good Arms.no_arms v env hv h = fail-Good IsSound Diagnostic.no_match_arm
    arm_value-Good (Arms.arm p e arms) v env hv h =
        arm_or-Good (match_pattern p v env) (λ bound. entered (contents outside call_body e bound))
          (arm_value outside call_body arms v env) (match_pattern-BindsSound p v env hv h)
          (λ bound hb. entered-Good IsSound _ (contents-Good e bound hb))
          (arm_value-Good arms v env hv h)

    pub block_contents-Good :
        (b : Block) (env : Environment)
        → ScopeIsSound env
        → Good IsSound (block_contents outside call_body b env)
    block_contents-Good (Block.only statements) env h =
        then-Good ScopeIsSound IsSound (environment_after outside call_body statements env) _
          (environment_after-Good statements env h) (λ local _. pure-Good IsSound Value.unit tt)
    block_contents-Good (Block.ending statements tail) env h =
        then-Good ScopeIsSound IsSound (environment_after outside call_body statements env) _
          (environment_after-Good statements env h)
          (λ local hl. entered-Good IsSound _ (contents-Good tail local hl))

    pub environment_after-Good :
        (statements : Statements) (env : Environment)
        → ScopeIsSound env
        → Good ScopeIsSound (environment_after outside call_body statements env)
    environment_after-Good Statements.done env h = pure-Good ScopeIsSound env h
    environment_after-Good (Statements.then_next s statements) env h =
        then-Good ScopeIsSound ScopeIsSound (statement outside call_body s env) _
          (statement-Good s env h) (λ local hl. environment_after-Good statements local hl)

    statement-Good :
        (s : Statement) (env : Environment)
        → ScopeIsSound env
        → Good ScopeIsSound (statement outside call_body s env)
    statement-Good (Statement.let_in name e) env h =
        then-Good IsSound ScopeIsSound (entered (contents outside call_body e env)) _
          (entered-Good IsSound _ (contents-Good e env h))
          (λ v hv. pure-Good ScopeIsSound (extend name v env) (hv, h))
    statement-Good (Statement.let_else pattern e arm value) env h =
        let arm_is = λ (bound : Environment) (hb : ScopeIsSound bound).
          entered-Good IsSound _ (contents-Good value bound hb) in
        then-Good IsSound ScopeIsSound (entered (contents outside call_body e env)) _
          (entered-Good IsSound _ (contents-Good e env h))
          (λ v hv.
            let_else-Good pattern arm (variant_parts v) env _ (variant_parts-AreSound v hv) h
              arm_is)
    statement-Good (Statement.declare kind name parameters body) env h =
        pure-Good ScopeIsSound (extend name (closure (some name) parameters body env) env) (h, h)
    statement-Good (Statement.expression e) env h =
        then-Good IsSound ScopeIsSound (entered (contents outside call_body e env)) _
          (entered-Good IsSound _ (contents-Good e env h)) (λ v _. pure-Good ScopeIsSound env h)
