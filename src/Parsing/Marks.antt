-- ===== src/Parsing/Marks.antt =====
-- The lines that the scanner notes as code.
use atlas_db_agent.Prelude.{ℕ, ◌≡◌, ◌↔◌, ◌⊎◌, inr, true, List, [], ◌∷◌, ◌++◌, All, arith, ==_iff}
use atlas_db_agent.Parsing.Lexer.{Token, LexResult, add_line, one_of}

-- The line of each token is a code line.
abbrev pub IsMarked : LexResult → Type 0
IsMarked found = All (λ t. one_of t.start.line found.code_lines ≡ true) found.tokens

pub one_of-add_line :
    (n m : ℕ) (lines : List ℕ)
    → (one_of m (add_line n lines) ≡ true) ↔ ((m ≡ n) ⊎ (one_of m lines ≡ true))
unfolding add_line
one_of-add_line n m lines = ground (arith, ==_iff m n)

pub All-one_of-add_line :
    (n : ℕ) (lines : List ℕ) (ts : List Token)
    → All (λ t. one_of t.start.line lines ≡ true) ts
    → All (λ t. one_of t.start.line (add_line n lines) ≡ true) ts
All-one_of-add_line n lines [] a = tt
All-one_of-add_line n lines (t ∷ ts) (h, a) =
    ((one_of-add_line n t.start.line lines).1 (inr h), All-one_of-add_line n lines ts a)

pub All-concat {ℓ κ} :
    {A : Type ℓ} (P : A → Type κ) (xs : List A) (y : A) → All P xs → P y → All P (xs ++ y ∷ [])
All-concat P [] y a h = (h, tt)
All-concat P (x ∷ xs) y (k, a) h = (k, All-concat P xs y a h)
