-- ===== src/Parsing/Reads.antt =====
-- The inner loops of the scanner: what they consume, and where they stop.
use atlas_db_agent.Prelude.{
  ℕ, zero, suc, ◌≡◌, refl, ap, Bool, true, false, List, [], ◌∷◌, ◌++◌, ◌==◌, All, inl, inr,
  Bool-cases, ◌&&◌,
}
use atlas_db_agent.Parsing.Lexer.{
  Position, Cursor, advance, newline, slash, star, skip_line, skip_block, read_quoted, read_while,
}
use atlas_db_agent.Parsing.Tiles.{travel, Quoted, cut, closed, doubled, plain}

-- The text `w` was consumed.
pub record Passes (r : List ℕ) (p : Position) (c : Cursor) (w : List ℕ) : Type 0 where
  pub split : r ≡ w ++ c.rest
  pub moved : c.pos ≡ travel w p

Passes-none : (r : List ℕ) (p : Position) → Passes r p (record { rest = r; pos = p }) []
Passes-none r p = record { split = refl; moved = refl }

pub Passes-one :
    (ch : ℕ) {r w : List ℕ} {p : Position} {c : Cursor}
    → Passes r (advance ch p) c w
    → Passes (ch ∷ r) p c (ch ∷ w)
Passes-one ch h = record { split = ap (λ s. ch ∷ s) h.split; moved = h.moved }

pub skip_line-Passes :
    (r : List ℕ) (p : Position)
    → (w : List ℕ) × Passes r p (skip_line r p) w × All (λ c. (c == newline) ≡ false) w
unfolding skip_line
skip_line-Passes [] p = ([], Passes-none [] p, tt)
skip_line-Passes (ch ∷ r) p = elim (Bool-cases (ch == newline)) [
  | inl e ↦ rw e ([], Passes-none (ch ∷ r) p, tt)
  | inr e ↦
      let (w, h, a) = skip_line-Passes r (advance ch p) in rw e (ch ∷ w, Passes-one ch h, (e, a))
]

pub skip_block-Passes :
    (d : ℕ) (r : List ℕ) (p : Position) → (w : List ℕ) × Passes r p (skip_block d r p).after w
unfolding skip_block
skip_block-Passes zero r p = ([], Passes-none r p)
skip_block-Passes (suc d) [] p = ([], Passes-none [] p)
skip_block-Passes (suc d) (cur ∷ []) p = (cur ∷ [], Passes-one cur (Passes-none [] _))
skip_block-Passes (suc d) (cur ∷ look ∷ r) p =
    let (u, opened) = skip_block-Passes (suc (suc d)) r (advance look (advance cur p)) in
    let (v, shut) = skip_block-Passes d r (advance look (advance cur p)) in
    let (w, other) = skip_block-Passes (suc d) (look ∷ r) (advance cur p) in
    elim (Bool-cases ((cur == slash) && (look == star))) [
      | inl e ↦ rw e (cur ∷ look ∷ u, Passes-one cur (Passes-one look opened))
      | inr e ↦ elim (Bool-cases ((cur == star) && (look == slash))) [
        | inl f ↦ rw (e, f) (cur ∷ look ∷ v, Passes-one cur (Passes-one look shut))
        | inr f ↦ rw (e, f) (cur ∷ w, Passes-one cur other)
      ]
    ]

pub read_quoted-Passes :
    (q : ℕ) (r : List ℕ) (p : Position)
    → Passes r p (read_quoted q r p).after (read_quoted q r p).value
      × Quoted q (read_quoted q r p).value
unfolding read_quoted
read_quoted-Passes q [] p = (Passes-none [] p, cut)
read_quoted-Passes q (cur ∷ []) p = elim (Bool-cases (cur == q)) [
  | inl e ↦ (Passes-one cur (Passes-none [] _), closed cur e)
  | inr e ↦ (Passes-one cur (Passes-none [] _), plain cur [] e cut)
]
read_quoted-Passes q (cur ∷ look ∷ r) p =
    let (pair, u) = read_quoted-Passes q r (advance look (advance cur p)) in
    let (one, v) = read_quoted-Passes q (look ∷ r) (advance cur p) in
    elim (Bool-cases (cur == q)) [
      | inl e ↦ elim (Bool-cases (look == q)) [
        | inl f ↦ rw (e, f) (Passes-one cur (Passes-one look pair), doubled cur look _ e f u)
        | inr f ↦ rw (e, f) (Passes-one cur (Passes-none (look ∷ r) _), closed cur e)
      ]
      | inr e ↦ rw e (Passes-one cur one, plain cur _ e v)
    ]

pub read_while-Passes :
    (more : ℕ → Bool) (r : List ℕ) (p : Position)
    → Passes r p (read_while more r p).after (read_while more r p).value
      × All (λ c. more c ≡ true) (read_while more r p).value
unfolding read_while
read_while-Passes more [] p = (Passes-none [] p, tt)
read_while-Passes more (ch ∷ r) p = elim (Bool-cases (more ch)) [
  | inl e ↦ let (h, a) = read_while-Passes more r (advance ch p) in rw e (Passes-one ch h, (e, a))
  | inr e ↦ rw e (Passes-none (ch ∷ r) p, tt)
]
