-- ===== src/Parsing/Bounds.antt =====
-- What a tiling says of the single tokens.
use atlas_db_agent.Prelude.{
  ℕ, ◌+◌, ◌≤◌, ◌≡◌, refl, ap, sym, ◌∙◌, subst, List, [], ◌∷◌, ◌++◌, arith, length, take, drop,
  length-append, some, append_assoc,
}
use atlas_db_agent.Parsing.Lexer.{
  Chars, Position, Token, LexResult, advance, scan, minus, slash, star, TokenKind,
}
use atlas_db_agent.Parsing.Tiles.{
  travel, Tiles, IsLexeme, finished, space, line_comment, block_comment, token,
}
use atlas_db_agent.Parsing.Rounds.{scan-Tiles}

offset-advance : (c : ℕ) (p : Position) → (advance c p).offset ≡ p.offset + 1
unfolding advance
offset-advance c p = ground arith

offset-travel : (w : List ℕ) (p : Position) → (travel w p).offset ≡ p.offset + length w
offset-travel [] p = omega arith
offset-travel (c ∷ w) p = omega (arith, offset-travel w (advance c p), offset-advance c p)

piece : (before w r : List ℕ) → take (length w) (drop (length before) (before ++ (w ++ r))) ≡ w
piece [] [] r = refl
piece [] (c ∷ w) r = ap (λ s. c ∷ s) (piece [] w r)
piece (c ∷ before) w r = piece before w r

-- The tokens lie in the text one after the other, and each holds the characters at its offset.
abbrev pub Lies : List ℕ → ℕ → List Token → Type 0
Lies text low [] = low ≤ length text
Lies text low (t ∷ ts) =
    (low ≤ t.start.offset)
    × (1 ≤ length t.value)
    × (take (length t.value) (drop t.start.offset text) ≡ t.value)
    × Lies text (t.start.offset + length t.value) ts

Lies-lower :
    (text : List ℕ) (low high : ℕ) (ts : List Token)
    → low ≤ high
    → Lies text high ts
    → Lies text low ts
Lies-lower text low high [] l h = omega arith
Lies-lower text low high (t ∷ ts) l (h, one, read, rest) = (omega arith, one, read, rest)

lexeme-nonempty :
    (chars : Chars) (kind : TokenKind) (w : List ℕ) → IsLexeme chars kind w → 1 ≤ length w
lexeme-nonempty chars kind [] h = absurd h
lexeme-nonempty chars kind (c ∷ w) h = omega arith

module _ (chars : Chars) where
  -- One goes on after `w`, which stands behind `before`.
  onward :
      (before w r : List ℕ) (p : Position) (ts : List Token)
      → p.offset ≡ length before
      → ((travel w p).offset ≡ length (before ++ w)
          → Lies ((before ++ w) ++ r) (travel w p).offset ts)
      → Lies (before ++ (w ++ r)) (p.offset + length w) ts
  onward before w r p ts e later =
      subst (λ n. Lies (before ++ (w ++ r)) n ts) (offset-travel w p)
        (subst (λ text. Lies text (travel w p).offset ts) (append_assoc before w r)
          (later (omega (arith, offset-travel w p, length-append before w))))

  Tiles-Lies :
      (before text : List ℕ) (p : Position) (ts : List Token)
      → p.offset ≡ length before
      → Tiles chars p text ts
      → Lies (before ++ text) p.offset ts
  Tiles-Lies before text p ts e (finished _) = omega (arith, length-append before [])
  Tiles-Lies before text p ts e (space _ c r _ s h) =
      Lies-lower _ p.offset (p.offset + 1) ts (omega arith)
        (onward before (c ∷ []) r p ts e λ f. Tiles-Lies (before ++ c ∷ []) r (advance c p) ts f h)
  Tiles-Lies before text p ts e (line_comment _ _ w r _ s a h) =
      subst (λ x. Lies (before ++ x) p.offset ts) (sym s)
        (Lies-lower _ p.offset (p.offset + length (minus ∷ minus ∷ w)) ts (omega arith)
          (onward before (minus ∷ minus ∷ w) r p ts e λ f. Tiles-Lies _ r _ ts f h))
  Tiles-Lies before text p ts e (block_comment _ _ w r _ s h) =
      subst (λ x. Lies (before ++ x) p.offset ts) (sym s)
        (Lies-lower _ p.offset (p.offset + length (slash ∷ star ∷ w)) ts (omega arith)
          (onward before (slash ∷ star ∷ w) r p ts e λ f. Tiles-Lies _ r _ ts f h))
  Tiles-Lies before text _ _ e (token t _ r ts s l u h) =
      subst (λ x. Lies (before ++ x) t.start.offset (t ∷ ts)) (sym s)
        (
          omega arith,
          lexeme-nonempty chars t.kind t.value l,
          rw e (piece before t.value r),
          onward before t.value r t.start ts e λ f. Tiles-Lies _ r _ ts f h,
        )

-- The tokens of `scan` stand one after the other within the text, none is empty, and each is the
-- part of the text at its offset.
pub scan_bounds :
    (chars : Chars) (text : List ℕ) (out : LexResult)
    → scan chars text ≡ some out
    → Lies text 0 out.tokens
scan_bounds chars text out e =
    let (run, same, tiled, marks) = scan-Tiles chars text in
    let both : some run ≡ some out = sym same ∙ e in
    let p : run ≡ out = cc both in
    Tiles-Lies chars [] text _ out.tokens refl
      (subst (λ o. Tiles chars (record { line = 1; col = 1; offset = 0 }) text o.tokens) p tiled)
