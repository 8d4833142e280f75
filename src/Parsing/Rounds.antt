-- ===== src/Parsing/Rounds.antt =====
-- The rounds of the scanner tile the text: each consumes a part of it and emits at most one token.
use atlas_db_agent.Prelude.{
  ℕ, zero, suc, ◌≡◌, ◌≤◌, ◌<◌, refl, ap, sym, ◌∙◌, subst, Bool, true, List, [], ◌∷◌, ◌++◌, ◌==◌,
  All, inl, inr, Bool-cases, ◌&&◌, arith, length, length-append, append_assoc, append-nil, some,
  ==_iff,
}
use atlas_db_agent.Parsing.Lexer.{
  Chars, TokenKind, Position, Token, LexResult, Scan, Cursor, advance, minus, slash, star,
  single_quote, double_quote, is_word_start, is_word_part, is_number_part, upper_of, emit,
  scan_quoted, scan_run, scan_block, scan_symbol, scan_code, scan_one, scan_loop, scan, note_open,
  add_line, one_of, skip_line, read_quoted, is_two_char,
}
use atlas_db_agent.Parsing.Tiles.{
  travel, Quoted, Tiles, IsLexeme, finished, space, line_comment, block_comment, token,
}
use atlas_db_agent.Parsing.Reads.{
  Passes, Passes-one, skip_line-Passes, skip_block-Passes, read_quoted-Passes, read_while-Passes,
}
use atlas_db_agent.Parsing.Marks.{IsMarked, one_of-add_line, All-one_of-add_line, All-concat}

module _ (chars : Chars) where
  -- From the text at `p` the state `s` is reached: the tokens that follow it complete a tiling.
  record Covers (text : List ℕ) (p : Position) (found : LexResult) (s : Scan) : Type 0 where
    new : List Token
    grown : s.found.tokens ≡ found.tokens ++ new
    tiled : (ts : List Token) → Tiles chars s.at.pos s.at.rest ts → Tiles chars p text (new ++ ts)
    fewer : length s.at.rest < length text
    marked : IsMarked found → IsMarked s.found

  shorter :
      (kind : TokenKind) (text raw r : List ℕ)
      → text ≡ raw ++ r
      → IsLexeme chars kind raw
      → length r < length text
  shorter kind text [] r e l = absurd l
  shorter kind text (c ∷ w) r e l = omega (arith, ap length e, length-append w r)

  emit-Covers :
      (kind : TokenKind) (raw text : List ℕ) (p : Position) (after : Cursor) (old found : LexResult)
      → Passes text p after raw
      → IsLexeme chars kind raw
      → found.tokens ≡ old.tokens
      → found.code_lines ≡ old.code_lines
      → Covers text p old (emit chars kind raw p after found)
  unfolding emit
  emit-Covers kind raw text p after old found h l same lines =
      let new =
        (record { kind = kind; value = raw; upper = upper_of chars kind raw; start = p }) ∷ [] in
      record {
        new = new;
        grown = ap (λ ts. ts ++ new) same;
        tiled = λ ts later.
            token _ text after.rest ts h.split l refl
              (subst (λ q. Tiles chars q after.rest ts) h.moved later);
        fewer = shorter kind text raw after.rest h.split l;
        marked = λ a.
            rw (same, lines)
              (All-concat (λ t. one_of t.start.line (add_line p.line old.code_lines) ≡ true)
                old.tokens _ (All-one_of-add_line p.line old.code_lines old.tokens a)
                ((one_of-add_line p.line p.line old.code_lines).1 (inl refl)));
      }

  scan_symbol-Covers :
      (ch : ℕ) (r : List ℕ) (p : Position) (found : LexResult)
      → Covers (ch ∷ r) p found (scan_symbol chars ch r p found)
  unfolding scan_symbol
  scan_symbol-Covers ch [] p found =
      emit-Covers TokenKind.symbol (ch ∷ []) _ p _ found found
        (record { split = refl; moved = refl }) (omega arith) refl refl
  scan_symbol-Covers ch (nxt ∷ r) p found = elim (Bool-cases (is_two_char ch nxt)) [
    | inl e ↦ rw e (
        emit-Covers TokenKind.symbol (ch ∷ nxt ∷ []) _ p _ found found
          (record { split = refl; moved = refl }) (omega arith) refl refl)
    | inr e ↦ rw e (
        emit-Covers TokenKind.symbol (ch ∷ []) _ p _ found found
          (record { split = refl; moved = refl }) (omega arith) refl refl)
  ]

  -- A step over `w`, which is not a token.
  skip-Covers :
      (text w : List ℕ) (p : Position) (at : Cursor) (found seen : LexResult)
      → seen.tokens ≡ found.tokens
      → (IsMarked found → IsMarked seen)
      → Passes text p at w
      → length at.rest < length text
      → ((ts : List Token) → Tiles chars (travel w p) at.rest ts → Tiles chars p text ts)
      → Covers text p found (record { found = seen; at = at })
  skip-Covers text w p at found seen same keep h less tile = record {
    new = [];
    grown = same ∙ sym (append-nil found.tokens);
    tiled = λ ts later. tile ts (subst (λ q. Tiles chars q at.rest ts) h.moved later);
    fewer = less;
    marked = keep;
  }

  scan_quoted-Covers :
      (kind : TokenKind) (q ch : ℕ) (r : List ℕ) (p : Position) (found : LexResult)
      → ch ≡ q
      → ((w : List ℕ) → Quoted q w → IsLexeme chars kind (q ∷ w))
      → Covers (ch ∷ r) p found (scan_quoted chars kind q r p found)
  unfolding scan_quoted
  scan_quoted-Covers kind q ch r p found same lexeme =
      let (h, w) = read_quoted-Passes q r (advance q p) in
      emit-Covers kind (q ∷ (read_quoted q r (advance q p)).value) (ch ∷ r) p _ found _
        (record { split = rw (same, sym h.split) refl; moved = h.moved }) (lexeme _ w) refl refl

  scan_run-Covers :
      (kind : TokenKind) (more : ℕ → Bool) (ch : ℕ) (r : List ℕ) (p : Position) (found : LexResult)
      → ((w : List ℕ) → All (λ c. more c ≡ true) w → IsLexeme chars kind (ch ∷ w))
      → Covers (ch ∷ r) p found (scan_run chars kind more ch r p found)
  unfolding scan_run
  scan_run-Covers kind more ch r p found lexeme =
      let (h, a) = read_while-Passes more r (advance ch p) in
      emit-Covers kind _ (ch ∷ r) p _ found found (Passes-one ch h) (lexeme _ a) refl refl

  scan_code-Covers :
      (ch : ℕ) (r : List ℕ) (p : Position) (found : LexResult)
      → Covers (ch ∷ r) p found (scan_code chars ch r p found)
  unfolding scan_code
  scan_code-Covers ch r p found = elim (Bool-cases (ch == single_quote)) [
    | inl e ↦ rw e (
        scan_quoted-Covers TokenKind.string single_quote ch r p found ((==_iff ch single_quote).0 e)
          (λ w h. (refl, h)))
    | inr e ↦ elim (Bool-cases (ch == double_quote)) [
      | inl f ↦
          rw (e, f)
            (scan_quoted-Covers TokenKind.quoted_identifier double_quote ch r p found
              ((==_iff ch double_quote).0 f) (λ w h. (refl, h)))
      | inr f ↦ elim (Bool-cases (is_word_start chars ch)) [
        | inl g ↦
            rw (e, f, g)
              (scan_run-Covers TokenKind.word (is_word_part chars) ch r p found (λ w a. (g, a)))
        | inr g ↦ elim (Bool-cases (chars.isdigit ch)) [
          | inl d ↦
              rw (e, f, g, d)
                (scan_run-Covers TokenKind.number (is_number_part chars) ch r p found
                  (λ w a. (d, a)))
          | inr d ↦ rw (e, f, g, d) (scan_symbol-Covers ch r p found)
        ]
      ]
    ]
  ]

  space-Covers :
      (ch : ℕ) (r : List ℕ) (p : Position) (found : LexResult)
      → chars.isspace ch ≡ true
      → Covers
          (ch ∷ r)
          p
          found
          (record { found = found; at = record { rest = r; pos = advance ch p } })
  space-Covers ch r p found e =
      skip-Covers _ (ch ∷ []) p _ found found refl (λ a. a) (record { split = refl; moved = refl })
        (omega arith) (λ ts. space p ch r ts e)

  scan_comment-Covers :
      (r : List ℕ) (p : Position) (found : LexResult)
      → Covers
          (minus ∷ minus ∷ r)
          p
          found
          (record { found = found; at = skip_line (minus ∷ minus ∷ r) p })
  unfolding skip_line
  scan_comment-Covers r p found =
      let (w, h, a) = skip_line-Passes r (advance minus (advance minus p)) in
      skip-Covers _ (minus ∷ minus ∷ w) p _ found found refl (λ a. a)
        (Passes-one minus (Passes-one minus h))
        (omega (arith, ap length h.split, length-append w _))
        (λ ts. line_comment p _ w _ ts (Passes-one minus (Passes-one minus h)).split a)

  note_open-tokens :
      (d : ℕ) (start : Position) (found : LexResult)
      → (note_open d start found).tokens ≡ found.tokens
  unfolding note_open
  note_open-tokens zero start found = refl
  note_open-tokens (suc d) start found = refl

  note_open-IsMarked :
      (d : ℕ) (start : Position) (found : LexResult)
      → IsMarked found
      → IsMarked (note_open d start found)
  unfolding note_open
  note_open-IsMarked zero start found a = a
  note_open-IsMarked (suc d) start found a =
      All-one_of-add_line start.line found.code_lines found.tokens a

  scan_block-Covers :
      (r : List ℕ) (p : Position) (found : LexResult)
      → Covers
          (slash ∷ star ∷ r)
          p
          found
          (scan_block chars r p (advance star (advance slash p)) found)
  unfolding scan_block
  scan_block-Covers r p found =
      let (w, h) = skip_block-Passes 1 r (advance star (advance slash p)) in
      let all = Passes-one slash (Passes-one star h) in
      skip-Covers _ (slash ∷ star ∷ w) p _ found _ (note_open-tokens _ p found)
        (note_open-IsMarked _ p found) all (omega (arith, ap length h.split, length-append w _))
        (λ ts. block_comment p _ w _ ts all.split)

  both : (a b c d : ℕ) → ((a == b) && (c == d)) ≡ true → (a ≡ b) × (c ≡ d)
  both a b c d e = ground arith

  scan_one-Covers :
      (ch : ℕ) (r : List ℕ) (p : Position) (found : LexResult)
      → Covers (ch ∷ r) p found (scan_one chars ch r p found)
  unfolding scan_one
  scan_one-Covers ch [] p found = elim (Bool-cases (chars.isspace ch)) [
    | inl e ↦ rw e (space-Covers ch [] p found e)
    | inr e ↦ rw e (scan_code-Covers ch [] p found)
  ]
  scan_one-Covers ch (nxt ∷ r) p found = elim (Bool-cases (chars.isspace ch)) [
    | inl e ↦ rw e (space-Covers ch (nxt ∷ r) p found e)
    | inr e ↦ elim (Bool-cases ((ch == minus) && (nxt == minus))) [
      | inl f ↦
          let (a, b) = both ch minus nxt minus f in
          rw (e, f) (rw (a, b) (scan_comment-Covers r p found))
      | inr f ↦ elim (Bool-cases ((ch == slash) && (nxt == star))) [
        | inl g ↦
            let (a, b) = both ch slash nxt star g in
            rw (e, f, g) (rw (a, b) (scan_block-Covers r p found))
        | inr g ↦ rw (e, f, g) (scan_code-Covers ch (nxt ∷ r) p found)
      ]
    ]
  ]

  scan_loop-Tiles :
      (fuel : ℕ) (text : List ℕ) (p : Position) (found : LexResult)
      → length text ≤ fuel
      → (out : LexResult) × (ts : List Token) × (scan_loop chars fuel text p found ≡ some out)
        × (out.tokens ≡ found.tokens ++ ts)
        × Tiles chars p text ts
        × (IsMarked found → IsMarked out)
  unfolding scan_loop
  scan_loop-Tiles fuel [] p found h =
      (found, [], refl, sym (append-nil found.tokens), finished p, λ a. a)
  scan_loop-Tiles zero (ch ∷ r) p found h = absurd (omega arith)
  scan_loop-Tiles (suc fuel) (ch ∷ r) p found h =
      let s = scan_one chars ch r p found in
      let c = scan_one-Covers ch r p found in
      let less = c.fewer in
      let (out, ts, runs, grown, tiled, keep) =
        scan_loop-Tiles fuel s.at.rest s.at.pos s.found (omega arith) in
      (
        out,
        c.new ++ ts,
        runs,
        grown ∙ ap (λ xs. xs ++ ts) c.grown ∙ append_assoc found.tokens c.new ts,
        c.tiled ts tiled,
        λ a. keep (c.marked a),
      )

-- `scan` always ends, and its tokens tile the text from line 1, column 1: between spaces and
-- comments each token holds the characters at its offset, its line and its column. The line of each
-- token is among the code lines.
pub scan-Tiles :
    (chars : Chars) (text : List ℕ)
    → (out : LexResult) × (scan chars text ≡ some out)
      × Tiles chars (record { line = 1; col = 1; offset = 0 }) text out.tokens
      × IsMarked out
unfolding scan
scan-Tiles chars text =
    let (out, ts, runs, grown, tiled, keep) =
      scan_loop-Tiles chars (length text) text _ _ (omega arith) in
    (out, runs, subst (Tiles chars _ text) (sym grown) tiled, keep tt)
