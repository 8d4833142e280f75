-- ===== src/Parsing/Tiles.antt =====
-- What a list of tokens says of a text, independently of the scanner.
use atlas_db_agent.Prelude.{ℕ, ◌≡◌, true, false, List, [], ◌∷◌, ◌++◌, ◌==◌, All, ◌≤◌, length}
use atlas_db_agent.Parsing.Lexer.{
  Chars, TokenKind, Position, Token, advance, newline, minus, slash, star, single_quote,
  double_quote, is_word_start, is_word_part, is_number_part, upper_of,
}

-- Where one stands after a text.
abbrev pub travel : List ℕ → Position → Position
travel [] p = p
travel (c ∷ w) p = travel w (advance c p)

-- What follows an opening quote `q`: a doubled quote stands for one, and the text may end early.
pub data Quoted (q : ℕ) : List ℕ → Type 0 where
  cut : Quoted q []
  closed : (c : ℕ) → (c == q) ≡ true → Quoted q (c ∷ [])
  doubled :
      (c d : ℕ) (w : List ℕ) → (c == q) ≡ true → (d == q) ≡ true → Quoted q w → Quoted q (c ∷ d ∷ w)
  plain : (c : ℕ) (w : List ℕ) → (c == q) ≡ false → Quoted q w → Quoted q (c ∷ w)

module _ (chars : Chars) where
  abbrev pub IsLexeme : TokenKind → List ℕ → Type 0
  IsLexeme kind [] = ⊥
  IsLexeme TokenKind.string (c ∷ w) = ((c == single_quote) ≡ true) × Quoted single_quote w
  IsLexeme TokenKind.quoted_identifier (c ∷ w) =
      ((c == double_quote) ≡ true) × Quoted double_quote w
  IsLexeme TokenKind.word (c ∷ w) =
      (is_word_start chars c ≡ true) × All (λ d. is_word_part chars d ≡ true) w
  IsLexeme TokenKind.number (c ∷ w) =
      (chars.isdigit c ≡ true) × All (λ d. is_number_part chars d ≡ true) w
  IsLexeme TokenKind.symbol (c ∷ w) = length w ≤ 1

  -- The text from `p` on is a sequence of spaces, comments and exactly these tokens, and each token
  -- holds its own characters and the place where they stand.
  pub data Tiles : Position → List ℕ → List Token → Type 0 where
    finished : (p : Position) → Tiles p [] []
    space :
        (p : Position) (c : ℕ) (r : List ℕ) (ts : List Token)
        → chars.isspace c ≡ true
        → Tiles (advance c p) r ts
        → Tiles p (c ∷ r) ts
    line_comment :
        (p : Position) (text w r : List ℕ) (ts : List Token)
        → text ≡ (minus ∷ minus ∷ w) ++ r
        → All (λ c. (c == newline) ≡ false) w
        → Tiles (travel (minus ∷ minus ∷ w) p) r ts
        → Tiles p text ts
    block_comment :
        (p : Position) (text w r : List ℕ) (ts : List Token)
        → text ≡ (slash ∷ star ∷ w) ++ r
        → Tiles (travel (slash ∷ star ∷ w) p) r ts
        → Tiles p text ts
    token :
        (t : Token) (text r : List ℕ) (ts : List Token)
        → text ≡ t.value ++ r
        → IsLexeme t.kind t.value
        → t.upper ≡ upper_of chars t.kind t.value
        → Tiles (travel t.value t.start) r ts
        → Tiles t.start text (t ∷ ts)
