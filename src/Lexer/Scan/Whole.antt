-- ===== src/Lexer/Scan/Whole.antt =====
-- The tokens of a source of words and blanks (bootstrap/cpp/src/lexer/lexer.cpp).
use ycpl.Base.{ℕ, ◌≤◌, ◌≡◌, ◌⊎◌, true, false, some, List, [], ◌∷◌, ◌++◌}
use ycpl.Text.{Bytes}
use ycpl.Token.{Token, is_eof}
use ycpl.Lexer.Cursor.{Lexer}
use ycpl.Lexer.Scan.{next_token, tokenize}
use ycpl.Lexer.Scan.Words.{IsWord, Kind, Lexed}

-- The text is next, or stands behind one blank.
Ready : Lexer → Bytes → Type 0
Ready s text = (s.left ≡ text) ⊎ (s.left ≡ b' ' ∷ text)

Picked : Lexer → (w rest : Bytes) → IsWord w → Token × Lexer → Type 0
Picked s w rest word r =
    (next_token s ≡ some r)
    × Lexed w (b' ' ∷ rest) word r
    × (is_eof r.0.type ≡ false)
    × (1 ≤ r.1.column)

-- Words with a blank behind each.
unfoldable pub render : List Bytes → Bytes
render [] = []
render (w ∷ ws) = w ++ b' ' ∷ render ws

abbrev pub AreWords : List Bytes → Type 0
AreWords [] = Unit
AreWords (w ∷ ws) = IsWord w × AreWords ws

-- One token for each word, and one for the end.
abbrev pub Spells : (ws : List Bytes) → AreWords ws → List Token → Type 0
Spells [] words [] = ⊥
Spells [] words (token ∷ []) = is_eof token.type ≡ true
Spells [] words (token ∷ u ∷ tokens) = ⊥
Spells (w ∷ ws) words [] = ⊥
Spells (w ∷ ws) words (token ∷ tokens) =
    (token.lexeme ≡ w) × Kind w (words.0) token.type × Spells ws (words.1) tokens

Spelled : (ws : List Bytes) → AreWords ws → Lexer → ℕ → Type 0
Spelled ws words s fuel =
    (tokens : List Token) × (t : Lexer) × (tokenize fuel s ≡ some (tokens, t))
    × Spells ws words tokens
