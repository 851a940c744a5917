-- ===== src/Tests/ParserTests.antt =====
-- Runs of the parser, and its theorems at concrete inputs.
use ycpl.Base.{Option, none, true, ◌≡◌, refl, ◌<◌, ◌≤◌, some, List, [], ◌∷◌, arith, ◌>>=◌}
use ycpl.Ast.{ℤ, pos, enum_decl, AstType, named_type, array_type, pointer_type, vec_type}
use ycpl.Parser.Statements.{parse_stmt}
use ycpl.Parser.Statements.Assigned.{assigned, parse_stmt-assigned}
use ycpl.Parser.Declarations.{enum_loop, struct_loop, parse_enum_decl, enum_value, next_value}
use ycpl.Parser.Declarations.Stuck.{IsWrong, enum_loop-IsWrong}
use ycpl.Parser.Declarations.Fields.{StartsNone, struct_loop-StartsNone}
use ycpl.Text.{Bytes, codes}
use ycpl.Token.{TokenType, Token}
use ycpl.Parser.Cursor.{Parser, advance, skip_tokens}
use ycpl.Parser.Types.{
  pointer_prefix, parse_type, parse_base, array_depth, wrap_arrays, wrap_pointers,
}
use ycpl.Parser.Types.Reads.{Shows, pieces}
use ycpl.Parser.Types.Spelled.{spell, name_kind, IsWritten, size, Read}
use ycpl.Parser.Types.Whole.{parse_type-spell}
use ycpl.Parser.Expressions.{parse_expression}
use ycpl.Parser.Expressions.Grammar.{
  Tree, value_at, name_at, group_at, infix_at, tokens, meaning, height, nodes, operators, Stops,
  IsSentence, Sees,
}
use ycpl.Parser.Expressions.Whole.{parse_expression-tokens}

abbrev token : TokenType → Bytes → Token
token type lexeme = record {
  type = type;
  lexeme = lexeme;
  start = record { line = 1; column = 1 };
  end = record { line = 1; column = 1 };
}

abbrev state : Token → List Token → Parser
state cur left = record { cur = cur; left = left; errors = []; suppress_struct_literal_depth = 0 }

abbrev newline : Token
newline = token TokenType.newline (codes "")

-- `Vec<Vec<int>>` with its brackets closed by one token.
abbrev nested : AstType
nested = vec_type (vec_type (named_type (codes "int")))

abbrev nested_state : Parser
nested_state = state (token TokenType.ident (codes "Vec")) (
    token TokenType.lt (codes "<")
    ∷ token TokenType.ident (codes "Vec")
    ∷ token TokenType.lt (codes "<")
    ∷ token TokenType.ident (codes "int")
    ∷ token TokenType.shr (codes ">>")
    ∷ newline
    ∷ [])

nested-IsWritten : IsWritten nested
unfolding IsWritten
nested-IsWritten = (refl, refl, refl)

nested_size : size nested < 3
unfolding size
nested_size = omega arith

nested-Shows : Shows nested_state (spell nested ((TokenType.newline, codes "") ∷ []))
unfolding spell name_kind pieces
nested-Shows = record { shown = refl }

parse_type-spell_example :
    Read (parse_type 3 nested_state) nested ((TokenType.newline, codes "") ∷ [])
parse_type-spell_example =
    parse_type-spell nested 3 nested_state (TokenType.newline, codes "") [] nested-IsWritten
      nested_size nested-Shows

abbrev number : Bytes → Tree
number text = value_at (token TokenType.int text)

abbrev minus : Token
minus = token TokenType.minus (codes "-")

-- `1 + 2 * (a - 3)`
abbrev sum : Tree
sum = infix_at 1 (token TokenType.plus (codes "+")) (number (codes "1")) (
    infix_at 0 (token TokenType.star (codes "*")) (number (codes "2")) (
      group_at (token TokenType.lparen (codes "("))
        (infix_at 1 minus (name_at (token TokenType.ident (codes "a"))) (number (codes "3")))
        (token TokenType.rparen (codes ")"))))

abbrev sum_state : Parser
sum_state = state (token TokenType.int (codes "1")) (
    token TokenType.plus (codes "+")
    ∷ token TokenType.int (codes "2")
    ∷ token TokenType.star (codes "*")
    ∷ token TokenType.lparen (codes "(")
    ∷ token TokenType.ident (codes "a")
    ∷ minus
    ∷ token TokenType.int (codes "3")
    ∷ token TokenType.rparen (codes ")")
    ∷ newline
    ∷ [])

sum-IsSentence : IsSentence sum
unfolding IsSentence operators Stops height
sum-IsSentence = (
  refl,
  (refl, refl),
  omega arith,
  omega arith,
  refl,
  (
    refl,
    refl,
    omega arith,
    omega arith,
    refl,
    (refl, refl, omega arith, (refl, (refl, refl), omega arith, omega arith, (refl, refl), refl)),
  ),
)

height-sum : height sum ≤ 10
unfolding height
height-sum = omega arith

nodes-sum : nodes sum < 9
unfolding nodes
nodes-sum = omega arith

sum-Sees : Sees sum_state (tokens sum (newline ∷ []))
unfolding tokens
sum-Sees = record { seen = refl }

newline-Stops : Stops 10 newline
unfolding Stops operators
newline-Stops = (refl, (refl, (refl, (refl, (refl, (refl, (refl, (refl, (refl, (refl, refl))))))))))

parse_expression-tokens_example :
    (u : Parser) × (parse_expression 10 sum_state ≡ some (meaning sum, u)) × Sees u (newline ∷ [])
parse_expression-tokens_example =
    parse_expression-tokens sum 9 sum_state newline [] sum-IsSentence height-sum nodes-sum sum-Sees
      newline-Stops

-- `[]*byte` is an array of pointers.
pointers :
    (parse_type 4 (
        state (token TokenType.lbrack (codes "[")) (
          token TokenType.rbrack (codes "]")
          ∷ token TokenType.deref (codes "*")
          ∷ token TokenType.kw_byte (codes "byte")
          ∷ newline
          ∷ []))
      >>= λ r. some (r.0))
    ≡ some (array_type (pointer_type (named_type (codes "byte"))) true 0)
unfolding parse_type parse_base advance skip_tokens array_depth wrap_arrays wrap_pointers
    pointer_prefix
pointers = refl

abbrev name : Token
name = token TokenType.ident (codes "x")

abbrev plus_assign : Token
plus_assign = token TokenType.plus_assign (codes "+=")

abbrev end_token : Token
end_token = token TokenType.eof_token (codes "")

-- `x += 1 + 2 * (a - 3)`
abbrev assign_state : Parser
assign_state = state name (
    plus_assign
    ∷ token TokenType.int (codes "1")
    ∷ token TokenType.plus (codes "+")
    ∷ token TokenType.int (codes "2")
    ∷ token TokenType.star (codes "*")
    ∷ token TokenType.lparen (codes "(")
    ∷ token TokenType.ident (codes "a")
    ∷ minus
    ∷ token TokenType.int (codes "3")
    ∷ token TokenType.rparen (codes ")")
    ∷ newline
    ∷ end_token
    ∷ [])

assign-Sees : Sees assign_state (name ∷ plus_assign ∷ tokens sum (newline ∷ end_token ∷ []))
unfolding tokens
assign-Sees = record { seen = refl }

parse_stmt-assigned_example :
    (u : Parser) × (parse_stmt 11 assign_state
      ≡ some (some (assigned (codes "x") (codes "+=") (meaning sum)), u))
    × Sees u (end_token ∷ [])
parse_stmt-assigned_example =
    parse_stmt-assigned name plus_assign newline end_token sum [] 9 assign_state refl refl refl refl
      sum-IsSentence height-sum nodes-sum assign-Sees

abbrev no_value : Bytes → Option ℤ
no_value text = none

-- `1` stands where a variant or a field is expected.
abbrev stuck_state : Parser
stuck_state = state (token TokenType.int (codes "1")) (end_token ∷ [])

stuck-IsWrong : IsWrong stuck_state.cur
stuck-IsWrong = record {
  no_name = refl;
  no_close = refl;
  no_end = refl;
  no_comma = refl;
  no_break = refl;
  no_assign = refl;
}

enum_loop-IsWrong_example : enum_loop no_value 100 [] (pos 0) stuck_state ≡ none
enum_loop-IsWrong_example = enum_loop-IsWrong no_value 100 [] (pos 0) stuck_state stuck-IsWrong

-- `pub` stands before a field.
abbrev pub_state : Parser
pub_state = state (token TokenType.kw_pub (codes "pub")) (name ∷ end_token ∷ [])

pub-StartsNone : StartsNone pub_state.cur
pub-StartsNone = record {
  no_name = refl;
  no_byte = refl;
  no_star = refl;
  no_amp = refl;
  no_bracket = refl;
  no_struct = refl;
  no_break = refl;
  no_close = refl;
  no_end = refl;
}

struct_loop-StartsNone_example : struct_loop 10 100 [] pub_state ≡ none
struct_loop-StartsNone_example = struct_loop-StartsNone 10 100 [] pub_state pub-StartsNone

-- `enum E { A = 2 B }`
abbrev read_two : Bytes → Option ℤ
read_two text = some (pos 2)

enumeration :
    (parse_enum_decl read_two true 4 (
        state (token TokenType.kw_enum (codes "enum")) (
          token TokenType.ident (codes "E")
          ∷ token TokenType.lbrace (codes "{")
          ∷ token TokenType.ident (codes "A")
          ∷ token TokenType.assign (codes "=")
          ∷ token TokenType.int (codes "2")
          ∷ newline
          ∷ token TokenType.ident (codes "B")
          ∷ token TokenType.rbrace (codes "}")
          ∷ end_token
          ∷ []))
      >>= λ r. some (r.0))
    ≡ some (enum_decl (codes "E") ((codes "A", some (pos 2)) ∷ (codes "B", none) ∷ []) true)
unfolding parse_enum_decl enum_loop enum_value next_value advance skip_tokens
enumeration = refl
