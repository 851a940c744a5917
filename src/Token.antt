-- ===== src/Token.antt =====
-- The lexer's tokens: the enumeration, positions and printed names (bootstrap/cpp/src/lexer/token.h).
use ycpl.Base.{ℕ, Bool, true, false}
use ycpl.Text.{Bytes, codes}

pub data TokenType : Type 0 where
  illegal eof_token ident int float char string bool none kw_module kw_package : TokenType
  kw_import kw_pub kw_extern kw_intrinsic kw_fn kw_struct kw_enum kw_const kw_if : TokenType
  kw_else kw_for kw_in kw_return kw_break kw_continue kw_as kw_switch kw_true kw_false : TokenType
  kw_none kw_type kw_defer lparen rparen lbrace rbrace lbrack rbrack comma dot colon : TokenType
  semicolon arrow question plus minus star slash percent caret amp pipe bang tilde : TokenType
  assign plus_assign minus_assign mul_assign div_assign mod_assign eq neq lt gt le ge : TokenType
  and or bit_and bit_or bit_xor shl shr arrow_r newline plusplus minusminus deref : TokenType
  address_of kw_byte ellipsis : TokenType

pub record Position : Type 0 where
  pub line : ℕ
  pub column : ℕ

-- `type` holds the token's kind.
pub record Token : Type 0 where
  pub type : TokenType
  pub lexeme : Bytes
  pub start : Position
  pub end : Position

unfoldable pub token_type_to_string : TokenType → Bytes
token_type_to_string TokenType.illegal = codes "ILLEGAL"
token_type_to_string TokenType.eof_token = codes "EOF"
token_type_to_string TokenType.ident = codes "IDENT"
token_type_to_string TokenType.int = codes "INT"
token_type_to_string TokenType.float = codes "FLOAT"
token_type_to_string TokenType.char = codes "CHAR"
token_type_to_string TokenType.string = codes "STRING"
token_type_to_string TokenType.bool = codes "BOOL"
token_type_to_string TokenType.none = codes "NONE"
token_type_to_string TokenType.kw_module = codes "module"
token_type_to_string TokenType.kw_package = codes "package"
token_type_to_string TokenType.kw_import = codes "import"
token_type_to_string TokenType.kw_pub = codes "pub"
token_type_to_string TokenType.kw_extern = codes "extern"
token_type_to_string TokenType.kw_intrinsic = codes "intrinsic"
token_type_to_string TokenType.kw_fn = codes "fn"
token_type_to_string TokenType.kw_struct = codes "struct"
token_type_to_string TokenType.kw_enum = codes "enum"
token_type_to_string TokenType.kw_const = codes "const"
token_type_to_string TokenType.kw_if = codes "if"
token_type_to_string TokenType.kw_else = codes "else"
token_type_to_string TokenType.kw_for = codes "for"
token_type_to_string TokenType.kw_in = codes "in"
token_type_to_string TokenType.kw_return = codes "return"
token_type_to_string TokenType.kw_break = codes "break"
token_type_to_string TokenType.kw_continue = codes "continue"
token_type_to_string TokenType.kw_as = codes "as"
token_type_to_string TokenType.kw_switch = codes "switch"
token_type_to_string TokenType.kw_true = codes "true"
token_type_to_string TokenType.kw_false = codes "false"
token_type_to_string TokenType.kw_none = codes "none"
token_type_to_string TokenType.kw_type = codes "type"
token_type_to_string TokenType.kw_defer = codes "defer"
token_type_to_string TokenType.lparen = codes "("
token_type_to_string TokenType.rparen = codes ")"
token_type_to_string TokenType.lbrace = codes "{"
token_type_to_string TokenType.rbrace = codes "}"
token_type_to_string TokenType.lbrack = codes "["
token_type_to_string TokenType.rbrack = codes "]"
token_type_to_string TokenType.comma = codes ","
token_type_to_string TokenType.dot = codes "."
token_type_to_string TokenType.colon = codes ":"
token_type_to_string TokenType.semicolon = codes ";"
token_type_to_string TokenType.arrow = codes "->"
token_type_to_string TokenType.question = codes "?"
token_type_to_string TokenType.plus = codes "+"
token_type_to_string TokenType.minus = codes "-"
token_type_to_string TokenType.star = codes "*"
token_type_to_string TokenType.slash = codes "/"
token_type_to_string TokenType.percent = codes "%"
token_type_to_string TokenType.caret = codes "^"
token_type_to_string TokenType.amp = codes "&"
token_type_to_string TokenType.pipe = codes "|"
token_type_to_string TokenType.bang = codes "!"
token_type_to_string TokenType.tilde = codes "~"
token_type_to_string TokenType.assign = codes "="
token_type_to_string TokenType.plus_assign = codes "+="
token_type_to_string TokenType.minus_assign = codes "-="
token_type_to_string TokenType.mul_assign = codes "*="
token_type_to_string TokenType.div_assign = codes "/="
token_type_to_string TokenType.mod_assign = codes "%="
token_type_to_string TokenType.eq = codes "=="
token_type_to_string TokenType.neq = codes "!="
token_type_to_string TokenType.lt = codes "<"
token_type_to_string TokenType.gt = codes ">"
token_type_to_string TokenType.le = codes "<="
token_type_to_string TokenType.ge = codes ">="
token_type_to_string TokenType.and = codes "&&"
token_type_to_string TokenType.or = codes "||"
token_type_to_string TokenType.bit_and = codes "&"
token_type_to_string TokenType.bit_or = codes "|"
token_type_to_string TokenType.bit_xor = codes "^"
token_type_to_string TokenType.shl = codes "<<"
token_type_to_string TokenType.shr = codes ">>"
token_type_to_string TokenType.arrow_r = codes "=>"
token_type_to_string TokenType.newline = codes "NEWLINE"
token_type_to_string TokenType.plusplus = codes "++"
token_type_to_string TokenType.minusminus = codes "--"
token_type_to_string TokenType.deref = codes "*"
token_type_to_string TokenType.address_of = codes "&"
token_type_to_string TokenType.kw_byte = codes "byte"
token_type_to_string TokenType.ellipsis = codes "..."

abbrev pub is_eof : TokenType → Bool
is_eof TokenType.eof_token = true
is_eof _ = false

-- The number of the enumerator, for `==`.
abbrev pub enumerator : TokenType → ℕ
enumerator TokenType.illegal = 0
enumerator TokenType.eof_token = 1
enumerator TokenType.ident = 2
enumerator TokenType.int = 3
enumerator TokenType.float = 4
enumerator TokenType.char = 5
enumerator TokenType.string = 6
enumerator TokenType.bool = 7
enumerator TokenType.none = 8
enumerator TokenType.kw_module = 9
enumerator TokenType.kw_package = 10
enumerator TokenType.kw_import = 11
enumerator TokenType.kw_pub = 12
enumerator TokenType.kw_extern = 13
enumerator TokenType.kw_intrinsic = 14
enumerator TokenType.kw_fn = 15
enumerator TokenType.kw_struct = 16
enumerator TokenType.kw_enum = 17
enumerator TokenType.kw_const = 18
enumerator TokenType.kw_if = 19
enumerator TokenType.kw_else = 20
enumerator TokenType.kw_for = 21
enumerator TokenType.kw_in = 22
enumerator TokenType.kw_return = 23
enumerator TokenType.kw_break = 24
enumerator TokenType.kw_continue = 25
enumerator TokenType.kw_as = 26
enumerator TokenType.kw_switch = 27
enumerator TokenType.kw_true = 28
enumerator TokenType.kw_false = 29
enumerator TokenType.kw_none = 30
enumerator TokenType.kw_type = 31
enumerator TokenType.kw_defer = 32
enumerator TokenType.lparen = 33
enumerator TokenType.rparen = 34
enumerator TokenType.lbrace = 35
enumerator TokenType.rbrace = 36
enumerator TokenType.lbrack = 37
enumerator TokenType.rbrack = 38
enumerator TokenType.comma = 39
enumerator TokenType.dot = 40
enumerator TokenType.colon = 41
enumerator TokenType.semicolon = 42
enumerator TokenType.arrow = 43
enumerator TokenType.question = 44
enumerator TokenType.plus = 45
enumerator TokenType.minus = 46
enumerator TokenType.star = 47
enumerator TokenType.slash = 48
enumerator TokenType.percent = 49
enumerator TokenType.caret = 50
enumerator TokenType.amp = 51
enumerator TokenType.pipe = 52
enumerator TokenType.bang = 53
enumerator TokenType.tilde = 54
enumerator TokenType.assign = 55
enumerator TokenType.plus_assign = 56
enumerator TokenType.minus_assign = 57
enumerator TokenType.mul_assign = 58
enumerator TokenType.div_assign = 59
enumerator TokenType.mod_assign = 60
enumerator TokenType.eq = 61
enumerator TokenType.neq = 62
enumerator TokenType.lt = 63
enumerator TokenType.gt = 64
enumerator TokenType.le = 65
enumerator TokenType.ge = 66
enumerator TokenType.and = 67
enumerator TokenType.or = 68
enumerator TokenType.bit_and = 69
enumerator TokenType.bit_or = 70
enumerator TokenType.bit_xor = 71
enumerator TokenType.shl = 72
enumerator TokenType.shr = 73
enumerator TokenType.arrow_r = 74
enumerator TokenType.newline = 75
enumerator TokenType.plusplus = 76
enumerator TokenType.minusminus = 77
enumerator TokenType.deref = 78
enumerator TokenType.address_of = 79
enumerator TokenType.kw_byte = 80
enumerator TokenType.ellipsis = 81
