-- ===== src/Parsing/Examples.antt =====
-- Runs of the scanner.
use mathlib.Core.Path.{◌≡◌, refl}
use mathlib.Core.Bool.{false, ◌||◌, ◌&&◌}
use mathlib.Core.List.{List, [], ◌∷◌, map}
use mathlib.Core.Option.{some}
use mathlib.Core.Option.{map as option_map}
use atlas_db_agent.Prelude.{ℕ, leb, ◌==◌}
use atlas_db_agent.Parsing.Lexer.{Chars, advance, scan, codes, LexResult, Token, TokenKind}
use atlas_db_agent.Parsing.Tiles.{Tiles}
use atlas_db_agent.Parsing.Marks.{IsMarked}
use atlas_db_agent.Parsing.Rounds.{scan-Tiles}
use atlas_db_agent.Parsing.Bounds.{Lies, scan_bounds}

-- The characters of ASCII.
abbrev ascii : Chars
ascii = record {
  isspace = λ c. (c == 32) || (leb 9 c && leb c 13);
  isalpha = λ c. leb b'a' c && leb c b'z' || leb b'A' c && leb c b'Z';
  isalnum = λ c. leb b'a' c && leb c b'z' || leb b'A' c && leb c b'Z' || leb b'0' c && leb c b'9';
  isdigit = λ c. leb b'0' c && leb c b'9';
  upper = λ s. s;
}

-- The rule for numbers takes the two dashes of the comment, so its text is read as code.
scan_example :
    option_map
      (λ (r : LexResult). map (λ (t : Token). t.value) r.tokens)
      (scan ascii (codes "IF a<=1-- x' y"))
    ≡ some (codes "IF" ∷ codes "a" ∷ codes "<=" ∷ codes "1--" ∷ codes "x" ∷ codes "' y" ∷ [])
unfolding scan
scan_example = refl

abbrev source : List ℕ
source = codes "/* a */ b\n= 'c'"

abbrev found : LexResult
found = record {
  tokens =
      (record {
        kind = TokenKind.word;
        value = codes "b";
        upper = codes "b";
        start = record { line = 1; col = 9; offset = 8 };
      })
      ∷ (record {
        kind = TokenKind.symbol;
        value = codes "=";
        upper = codes "=";
        start = record { line = 2; col = 1; offset = 10 };
      })
      ∷ (record {
        kind = TokenKind.string;
        value = codes "'c'";
        upper = codes "'c'";
        start = record { line = 2; col = 3; offset = 12 };
      })
      ∷ [];
  code_lines = 2 ∷ 1 ∷ [];
  unterminated_string = false;
  unterminated_comment = false;
}

scan-source : scan ascii source ≡ some found
unfolding scan advance
scan-source = refl

scan-Tiles_example :
    (out : LexResult) × (scan ascii source ≡ some out)
    × Tiles ascii (record { line = 1; col = 1; offset = 0 }) source out.tokens
    × IsMarked out
scan-Tiles_example = scan-Tiles ascii source

scan_bounds_example : Lies source 0 found.tokens
scan_bounds_example = scan_bounds ascii source found scan-source
