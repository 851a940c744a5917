-- ===== src/Lexer/Skip.antt =====
-- `skip_whitespace_and_comments` (bootstrap/cpp/src/lexer/lexer.cpp). Its loop runs on fuel; more than
-- the bytes that are left is enough, since each round reads one.
pub mod Gaps
pub mod Rounds
pub mod Whole
pub mod Nested
use ycpl.Base.{
  ℕ, zero, suc, ◌+◌, Bool, true, false, not, ◌&&◌, ◌||◌, Option, none, some, List, [], ◌∷◌, ◌++◌,
  ◌==◌, if◌then◌else◌, length,
}
use ycpl.Text.{Bytes, codes}
use ycpl.Token.{TokenType, Token}
use ycpl.Lexer.Cursor.{Lexer, position, advance, peek_char, emit_error, make_token, advance_while}

abbrev pub is_blank : ℕ → Bool
is_blank c = c == b' ' || c == b'\t' || c == b'\r'

abbrev pub no_newline : ℕ → Bool
no_newline c = not (c == b'\n')

abbrev pub opens : ℕ → ℕ → Bool
opens c d = c == b'/' && d == b'*'

abbrev pub closes : ℕ → ℕ → Bool
closes c d = c == b'*' && d == b'/'

-- The loop over a block comment, with the text at `current` and the depth.
unfoldable pub block : Bytes → ℕ → Lexer → Lexer × ℕ
block cs zero s = (s, 0)
block [] (suc depth) s = (s, suc depth)
block (c ∷ []) (suc depth) s = (advance s, suc depth)
block (c ∷ d ∷ cs) (suc depth) s =
    let deeper = block cs (suc (suc depth)) (advance (advance s)) in
    let back = block cs depth (advance (advance s)) in
    let rest = block (d ∷ cs) (suc depth) (advance s) in
    if opens c d then deeper else if closes c d then back else rest

abbrev pub end_block : Lexer × ℕ → Lexer
end_block (s, zero) = s
end_block (s, suc depth) = emit_error s (codes "unclosed block comment")

abbrev pub line_comment : Lexer → Lexer
line_comment s = let body = advance (advance s) in advance_while no_newline body.left body

abbrev pub block_comment : Lexer → Lexer
block_comment s = let body = advance (advance s) in end_block (block body.left 1 body)

abbrev pub newline_token : Lexer → Token
newline_token s = make_token TokenType.newline (codes "\n") (position s) (position (advance s))

-- One round: `none` is the `break`, otherwise the tokens that it pushes.
unfoldable pub round : Bool → Lexer → Option (Lexer × List Token)
round emit_newline s =
    let c = peek_char s 0 in
    if is_blank c
    then some (advance s, [])
    else if c == b'\n'
    then some (advance s, if emit_newline then newline_token s ∷ [] else [])
    else if c == b'/' && peek_char s 1 == b'/'
    then some (line_comment s, [])
    else if c == b'/' && peek_char s 1 == b'*'
    then some (block_comment s, [])
    else none

abbrev pub resume :
    (Lexer → List Token → Option (Lexer × List Token))
    → Option (Lexer × List Token)
    → Lexer
    → List Token
    → Option (Lexer × List Token)
resume again none s out = some (s, out)
resume again (some (t, pushed)) s out = again t (out ++ pushed)

unfoldable pub skip : ℕ → Bool → Lexer → List Token → Option (Lexer × List Token)
skip zero emit_newline s out = none
skip (suc fuel) emit_newline s out = resume (skip fuel emit_newline) (round emit_newline s) s out

abbrev pub skip_whitespace_and_comments : Lexer → List Token → Bool → Option (Lexer × List Token)
skip_whitespace_and_comments s out emit_newline = skip (suc (length s.left)) emit_newline s out
