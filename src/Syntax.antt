-- ===== src/Syntax.antt =====
-- crates/krit/src/ast.rs: the syntax of expressions, statements and blocks. Spans, annotations and doc
-- comments are left out: evaluation only copies spans into diagnostics.
use krit.Base.{ℕ, suc, Bool, true, false, Option, none, some, List}
use krit.Base.Int.{ℤ}
use Prim.Native.String.{String}
use krit.Patterns.{Pattern, VariantName}

pub data UnaryOperator : Type 0 where
  negation negate : UnaryOperator

-- The operators that evaluate both operands.
pub data StrictOperator : Type 0 where
  add subtract multiply divide remainder : StrictOperator
  equal not_equal less less_equal greater greater_equal : StrictOperator

-- `BinaryOperator`
pub data BinaryOperator : Type 0 where
  strict : StrictOperator → BinaryOperator
  logical_and logical_or : BinaryOperator

-- `ValueLiteral`: an integer is an `i128`, and a string is its UTF-8 bytes.
pub data ValueLiteral : Type 0 where
  integer : ℤ → ValueLiteral
  boolean : Bool → ValueLiteral
  str : List ℕ → ValueLiteral

pub data ContractRecord : Type 0 where
  http_request http_response http_header log_field : ContractRecord

-- The statements that declare a function: they evaluate alike.
pub data Declaration : Type 0 where
  function webhook queue_consumer schedule_handler : Declaration

-- The pattern of a let-else, and the head of its arm.
pub record VariantPattern : Type 0 where
  pub variant : VariantName
  pub binding : Option String

mutual
  pub data Expression : Type 0 where
    literal : ValueLiteral → Expression
    interpolation : Parts → Expression
    unit : Expression
    variable : String → Expression
    list : Expressions → Expression
    entry_list : Entries → Expression
    record_of : FieldValues → Expression
    construct : ContractRecord → FieldValues → Expression
    field_access : Expression → String → Expression
    block_of : Block → Expression
    conditional : Expression → Block → Expression → Expression
    function : List String → Block → Expression
    call : Expression → Expressions → Expression
    propagate : Expression → Expression
    match_on : Expression → Arms → Expression
    unary : UnaryOperator → Expression → Expression
    binary : Expression → BinaryOperator → Expression → Expression

  pub data Expressions : Type 0 where
    nil : Expressions
    cons : Expression → Expressions → Expressions

  -- `StringPart`
  pub data Parts : Type 0 where
    no_parts : Parts
    text : List ℕ → Parts → Parts
    hole : Expression → Parts → Parts

  -- `ListEntry`: a key and a value.
  pub data Entries : Type 0 where
    no_entries : Entries
    entry : Expression → Expression → Entries → Entries

  -- `RecordField` and `ConstructField`
  pub data FieldValues : Type 0 where
    no_fields : FieldValues
    written : String → Expression → FieldValues → FieldValues

  -- `MatchArm`
  pub data Arms : Type 0 where
    no_arms : Arms
    arm : Pattern → Expression → Arms → Arms

  -- A block with or without a tail.
  pub data Block : Type 0 where
    only : Statements → Block
    ending : Statements → Expression → Block

  pub data Statements : Type 0 where
    done : Statements
    then_next : Statement → Statements → Statements

  pub data Statement : Type 0 where
    let_in : String → Expression → Statement
    let_else : VariantPattern → Expression → VariantPattern → Expression → Statement
    declare : Declaration → String → List String → Block → Statement
    expression : Expression → Statement

unfoldable pub expressions_count : Expressions → ℕ
expressions_count nil = 0
expressions_count (cons e es) = suc (expressions_count es)

unfoldable pub is_conditional : Expression → Bool
is_conditional (conditional condition consequent alternative) = true
is_conditional e = false

unfoldable pub is_binary : Expression → Bool
is_binary (binary left operator right) = true
is_binary e = false

-- The literal that a negation folds.
unfoldable pub integer_literal : Expression → Option ℤ
integer_literal (literal (ValueLiteral.integer n)) = some n
integer_literal e = none
