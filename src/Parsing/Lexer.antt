-- ===== src/Parsing/Lexer.antt =====
-- The lexical scanner: parsing/lexer.py. A text is the list of its code points; `text[i:]` is
-- carried along with the index. What Python knows about a character is a parameter.
use Prim.Native.Nat.{ℕ, zero, suc, ◌+◌}
use Prim.Native.Char.{code}
use Prim.Native.String.{String}
use mathlib.Core.Bool.{Bool, true, false, ◌&&◌, ◌||◌}
use mathlib.Core.List.{List, [], ◌∷◌, ◌++◌}
use mathlib.Core.Option.{Option, none, some}
use atlas_db_agent.Prelude.{◌==◌, if◌then◌else◌}
use atlas_db_agent.Prelude.{length}

-- The code points of a text.
abbrev pub codes : String → List ℕ
codes String.[] = []
codes (String.◌∷◌ c s) = code c ∷ codes s

abbrev pub newline : ℕ
newline = 10

abbrev pub minus : ℕ
minus = b'-'

abbrev pub slash : ℕ
slash = b'/'

abbrev pub star : ℕ
star = b'*'

abbrev pub single_quote : ℕ
single_quote = 39

abbrev pub double_quote : ℕ
double_quote = 34

-- The methods of `str` that the scanner calls.
pub record Chars : Type 0 where
  pub isspace : ℕ → Bool
  pub isalpha : ℕ → Bool
  pub isalnum : ℕ → Bool
  pub isdigit : ℕ → Bool
  pub upper : List ℕ → List ℕ

pub data TokenKind : Type 0 where
  word string quoted_identifier number symbol : TokenKind

-- The locals `line`, `col` and `i`.
pub record Position : Type 0 where
  pub line : ℕ
  pub col : ℕ
  pub offset : ℕ

pub record Token : Type 0 where
  pub kind : TokenKind
  pub value : List ℕ
  pub upper : List ℕ
  pub start : Position

pub record LexResult : Type 0 where
  pub tokens : List Token
  pub code_lines : List ℕ
  pub unterminated_string : Bool
  pub unterminated_comment : Bool

-- `advance_char(ch); i += 1`
unfoldable pub advance : ℕ → Position → Position
advance ch p =
    if ch == newline
    then record { line = p.line + 1; col = 1; offset = p.offset + 1 }
    else record { line = p.line; col = p.col + 1; offset = p.offset + 1 }

-- `x in xs`, on code points.
abbrev pub one_of : ℕ → List ℕ → Bool
one_of ch [] = false
one_of ch (c ∷ cs) = (ch == c) || one_of ch cs

-- The text from `i` on, and where `i` stands.
pub record Cursor : Type 0 where
  pub rest : List ℕ
  pub pos : Position

-- The rest of a line comment: `while i < n and text[i] != "\n"`.
unfoldable pub skip_line : List ℕ → Position → Cursor
skip_line [] p = record { rest = []; pos = p }
skip_line (ch ∷ r) p =
    let later = skip_line r (advance ch p) in
    if ch == newline then record { rest = ch ∷ r; pos = p } else later

pub record Block : Type 0 where
  pub depth : ℕ
  pub after : Cursor

-- The rest of a block comment: `while i < n and depth`.
unfoldable pub skip_block : ℕ → List ℕ → Position → Block
skip_block zero r p = record { depth = 0; after = record { rest = r; pos = p } }
skip_block (suc d) [] p = record { depth = suc d; after = record { rest = []; pos = p } }
skip_block (suc d) (cur ∷ []) p = record {
  depth = suc d;
  after = record { rest = []; pos = advance cur p };
}
skip_block (suc d) (cur ∷ look ∷ r) p =
    let opened = skip_block (suc (suc d)) r (advance look (advance cur p)) in
    let closed = skip_block d r (advance look (advance cur p)) in
    let other = skip_block (suc d) (look ∷ r) (advance cur p) in
    if (cur == slash) && (look == star)
    then opened
    else if (cur == star) && (look == slash)
    then closed
    else other

-- The characters read, and where the reading stopped.
pub record Reading : Type 0 where
  pub value : List ℕ
  pub after : Cursor
  pub closed : Bool

abbrev pub then_read : ℕ → Reading → Reading
then_read ch r = record { value = ch ∷ r.value; after = r.after; closed = r.closed }

-- The rest of a quoted text, in which a doubled quote stands for one.
unfoldable pub read_quoted : ℕ → List ℕ → Position → Reading
read_quoted q [] p = record { value = []; after = record { rest = []; pos = p }; closed = false }
read_quoted q (cur ∷ []) p = record {
  value = cur ∷ [];
  after = record { rest = []; pos = advance cur p };
  closed = cur == q;
}
read_quoted q (cur ∷ look ∷ r) p =
    let doubled = read_quoted q r (advance look (advance cur p)) in
    let other = read_quoted q (look ∷ r) (advance cur p) in
    if cur == q
    then if look == q then then_read cur (then_read look doubled) else record {
      value = cur ∷ [];
      after = record { rest = look ∷ r; pos = advance cur p };
      closed = true;
    }
    else then_read cur other

-- `while i < n and more(text[i])`
unfoldable pub read_while : (ℕ → Bool) → List ℕ → Position → Reading
read_while more [] p = record { value = []; after = record { rest = []; pos = p }; closed = true }
read_while more (ch ∷ r) p =
    let later = then_read ch (read_while more r (advance ch p)) in
    if more ch
    then later
    else record { value = []; after = record { rest = ch ∷ r; pos = p }; closed = true }

abbrev pub is_two_char : ℕ → ℕ → Bool
is_two_char a b =
    ((a == b'<') && ((b == b'=') || (b == b'>')))
    || ((a == b'>') && (b == b'='))
    || ((a == b'!') && (b == b'='))
    || ((a == b'|') && (b == b'|'))
    || ((a == b':') && (b == b'='))
    || ((a == b'=') && (b == b'>'))

-- The state of `scan`: the results so far, and the text from `i` on.
pub record Scan : Type 0 where
  pub found : LexResult
  pub at : Cursor

-- `code_lines.add(line)`
unfoldable pub add_line : ℕ → List ℕ → List ℕ
add_line n lines = if one_of n lines then lines else n ∷ lines

-- `if depth: unterminated_comment = True; code_lines.add(start_line)`
unfoldable pub note_open : ℕ → Position → LexResult → LexResult
unfolding add_line
note_open zero start found = found
note_open (suc depth) start found = record found {
  unterminated_comment = true;
  code_lines = add_line start.line found.code_lines;
}

module _ (chars : Chars) where
  abbrev pub is_word_start : ℕ → Bool
  is_word_start ch = chars.isalpha ch || one_of ch (codes "_#$@")

  abbrev pub is_word_part : ℕ → Bool
  is_word_part ch = chars.isalnum ch || one_of ch (codes "_#$@")

  abbrev pub is_number_part : ℕ → Bool
  is_number_part ch = chars.isdigit ch || one_of ch (codes ".Ee+-")

  -- `raw`, and what `upper` is for each kind of token.
  abbrev pub upper_of : TokenKind → List ℕ → List ℕ
  upper_of TokenKind.string raw = raw
  upper_of TokenKind.symbol raw = raw
  upper_of kind raw = chars.upper raw

  -- `tokens.append(Token(kind, …)); code_lines.add(start_line)`
  unfoldable pub emit : TokenKind → List ℕ → Position → Cursor → LexResult → Scan
  unfolding add_line
  emit kind raw start after found = record {
    found = (record found {
      tokens =
          found.tokens
          ++ (record { kind = kind; value = raw; upper = upper_of kind raw; start = start } ∷ []);
      code_lines = add_line start.line found.code_lines;
    });
    at = after;
  }

  -- The branch for `'…'` and for `"…"`, after the opening quote `q`.
  unfoldable pub scan_quoted : TokenKind → ℕ → List ℕ → Position → LexResult → Scan
  unfolding read_quoted emit
  scan_quoted kind q r p found =
      let read = read_quoted q r (advance q p) in
      emit kind (q ∷ read.value) p read.after (record found {
        unterminated_string = if read.closed then found.unterminated_string else true;
      })

  -- The branch for a word and for a number, from its first character on.
  unfoldable pub scan_run : TokenKind → (ℕ → Bool) → ℕ → List ℕ → Position → LexResult → Scan
  unfolding read_while emit
  scan_run kind more ch r p found =
      let read = read_while more r (advance ch p) in emit kind (ch ∷ read.value) p read.after found

  -- The branch for a block comment, after its `/*`.
  unfoldable pub scan_block : List ℕ → Position → Position → LexResult → Scan
  unfolding skip_block note_open
  scan_block r start p found =
      let block = skip_block 1 r p in
      record { found = note_open block.depth start found; at = block.after }

  -- The branch of two characters or of one.
  unfoldable pub scan_symbol : ℕ → List ℕ → Position → LexResult → Scan
  unfolding emit
  scan_symbol ch [] p found =
      emit TokenKind.symbol (ch ∷ []) p (record { rest = []; pos = advance ch p }) found
  scan_symbol ch (nxt ∷ r) p found =
      if is_two_char ch nxt
      then emit TokenKind.symbol (ch ∷ nxt ∷ []) p
          (record { rest = r; pos = advance nxt (advance ch p) }) found
      else emit TokenKind.symbol (ch ∷ []) p (record { rest = nxt ∷ r; pos = advance ch p }) found

  -- The branches from the quotes on.
  unfoldable pub scan_code : ℕ → List ℕ → Position → LexResult → Scan
  unfolding scan_quoted scan_run scan_symbol
  scan_code ch r p found =
      if ch == single_quote
      then scan_quoted TokenKind.string single_quote r p found
      else if ch == double_quote
      then scan_quoted TokenKind.quoted_identifier double_quote r p found
      else if is_word_start ch
      then scan_run TokenKind.word is_word_part ch r p found
      else if chars.isdigit ch
      then scan_run TokenKind.number is_number_part ch r p found
      else scan_symbol ch r p found

  -- One round of the outer loop at a character `ch` that is followed by `r`.
  unfoldable pub scan_one : ℕ → List ℕ → Position → LexResult → Scan
  unfolding skip_line scan_block scan_code
  scan_one ch [] p found =
      if chars.isspace ch
      then record { found = found; at = record { rest = []; pos = advance ch p } }
      else scan_code ch [] p found
  scan_one ch (nxt ∷ r) p found =
      if chars.isspace ch
      then record { found = found; at = record { rest = nxt ∷ r; pos = advance ch p } }
      else if (ch == minus) && (nxt == minus)
      then record { found = found; at = skip_line (ch ∷ nxt ∷ r) p }
      else if (ch == slash) && (nxt == star)
      then scan_block r p (advance nxt (advance ch p)) found
      else scan_code ch (nxt ∷ r) p found

  -- `while i < n`; `none` means that the fuel ran out.
  unfoldable pub scan_loop : ℕ → List ℕ → Position → LexResult → Option LexResult
  unfolding scan_one
  scan_loop fuel [] p found = some found
  scan_loop zero (ch ∷ r) p found = none
  scan_loop (suc fuel) (ch ∷ r) p found =
      let next = scan_one ch r p found in scan_loop fuel next.at.rest next.at.pos next.found

  -- `scan`; a round consumes a character, so their number is enough fuel.
  unfoldable pub scan : List ℕ → Option LexResult
  unfolding scan_loop
  scan text =
      scan_loop (length text) text (record { line = 1; col = 1; offset = 0 })
        (record {
          tokens = [];
          code_lines = [];
          unterminated_string = false;
          unterminated_comment = false;
        })
