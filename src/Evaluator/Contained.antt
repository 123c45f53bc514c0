-- ===== src/Evaluator/Contained.antt =====
-- crates/krit/src/ast.rs: programs in which every `?` and every let-else stands in a function.
use krit.Syntax.{
  Expression, Expressions, Parts, Entries, FieldValues, Arms, Block, Statements, Statement,
}

-- Every `?` and every let-else stands in the body of a function.
unfoldable mutual
  pub Contained : Expression → Type 0
  Contained (Expression.interpolation parts) = PartsContained parts
  Contained (Expression.list es) = AllContained es
  Contained (Expression.entry_list entries) = EntriesContained entries
  Contained (Expression.record_of fs) = FieldsContained fs
  Contained (Expression.construct contract fs) = FieldsContained fs
  Contained (Expression.field_access e name) = Contained e
  Contained (Expression.block_of b) = BlockContained b
  Contained (Expression.conditional condition consequent alternative) =
      Contained condition × BlockContained consequent × Contained alternative
  Contained (Expression.call callee arguments) = Contained callee × AllContained arguments
  Contained (Expression.propagate operand) = ⊥
  Contained (Expression.match_on subject arms) = Contained subject × ArmsContained arms
  Contained (Expression.unary operator operand) = Contained operand
  Contained (Expression.binary left operator right) = Contained left × Contained right
  Contained e = Unit

  pub AllContained : Expressions → Type 0
  AllContained Expressions.nil = Unit
  AllContained (Expressions.cons e es) = Contained e × AllContained es

  pub PartsContained : Parts → Type 0
  PartsContained Parts.no_parts = Unit
  PartsContained (Parts.text s parts) = PartsContained parts
  PartsContained (Parts.hole e parts) = Contained e × PartsContained parts

  pub EntriesContained : Entries → Type 0
  EntriesContained Entries.no_entries = Unit
  EntriesContained (Entries.entry k e entries) =
      Contained k × Contained e × EntriesContained entries

  pub FieldsContained : FieldValues → Type 0
  FieldsContained FieldValues.no_fields = Unit
  FieldsContained (FieldValues.written name e fs) = Contained e × FieldsContained fs

  pub ArmsContained : Arms → Type 0
  ArmsContained Arms.no_arms = Unit
  ArmsContained (Arms.arm p e arms) = Contained e × ArmsContained arms

  pub BlockContained : Block → Type 0
  BlockContained (Block.only statements) = StatementsContained statements
  BlockContained (Block.ending statements tail) = StatementsContained statements × Contained tail

  pub StatementsContained : Statements → Type 0
  StatementsContained Statements.done = Unit
  StatementsContained (Statements.then_next s statements) =
      StatementContained s × StatementsContained statements

  pub StatementContained : Statement → Type 0
  StatementContained (Statement.let_in name e) = Contained e
  StatementContained (Statement.let_else pattern e arm value) = ⊥
  StatementContained (Statement.declare kind name parameters body) = Unit
  StatementContained (Statement.expression e) = Contained e
