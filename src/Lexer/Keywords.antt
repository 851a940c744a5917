-- ===== src/Lexer/Keywords.antt =====
-- The table of keywords (bootstrap/cpp/src/lexer/lexer.cpp).
use ycpl.Base.{Option, none, some, List, [], ◌∷◌, if◌then◌else◌}
use ycpl.Text.{Bytes, codes, str_eq}
use ycpl.Token.{TokenType}

abbrev pub keywords : List (Bytes × TokenType)
keywords =
    (codes "module", TokenType.kw_module)
    ∷ (codes "package", TokenType.kw_package)
    ∷ (codes "import", TokenType.kw_import)
    ∷ (codes "pub", TokenType.kw_pub)
    ∷ (codes "extern", TokenType.kw_extern)
    ∷ (codes "intrinsic", TokenType.kw_intrinsic)
    ∷ (codes "fn", TokenType.kw_fn)
    ∷ (codes "struct", TokenType.kw_struct)
    ∷ (codes "enum", TokenType.kw_enum)
    ∷ (codes "const", TokenType.kw_const)
    ∷ (codes "if", TokenType.kw_if)
    ∷ (codes "else", TokenType.kw_else)
    ∷ (codes "for", TokenType.kw_for)
    ∷ (codes "in", TokenType.kw_in)
    ∷ (codes "return", TokenType.kw_return)
    ∷ (codes "break", TokenType.kw_break)
    ∷ (codes "continue", TokenType.kw_continue)
    ∷ (codes "as", TokenType.kw_as)
    ∷ (codes "switch", TokenType.kw_switch)
    ∷ (codes "true", TokenType.kw_true)
    ∷ (codes "false", TokenType.kw_false)
    ∷ (codes "none", TokenType.kw_none)
    ∷ (codes "type", TokenType.kw_type)
    ∷ (codes "defer", TokenType.kw_defer)
    ∷ (codes "byte", TokenType.kw_byte)
    ∷ []

-- `find` on the table.
unfoldable pub find : List (Bytes × TokenType) → Bytes → Option TokenType
find [] name = none
find ((word, type) ∷ rest) name = if str_eq name word then some type else find rest name
