-- ===== src/Analysis/Depth.antt =====
-- A node has fewer nodes below its depth than its parent.
use atlas_db_agent.Prelude.{
  ℕ, suc, ◌≤◌, ◌<◌, ◌≡◌, ◌∙◌, sym, subst, inl, inr, Bool, true, false, String, some, List, [], ◌∷◌,
  Has, arith, length, str_eq, eq_iff, ltb, Bool-cases, Option-cases, if◌then◌else◌,
}
use atlas_db_agent.Prelude.Texts.{last_with}
use atlas_db_agent.Analysis.Records.{AstNode}
use atlas_db_agent.Analysis.Boundaries.{node_by_id}

-- How many elements pass a test.
unfoldable pub count_of : {A : Type 0} → (A → Bool) → List A → ℕ
count_of p [] = 0
count_of p (x ∷ xs) = let rest = count_of p xs in if p x then suc rest else rest

length-count_of : {A : Type 0} (p : A → Bool) (xs : List A) → count_of p xs ≤ length xs
unfolding count_of
length-count_of p [] = omega arith
length-count_of p (x ∷ xs) = ground (arith, length-count_of p xs)

module _ {A : Type 0} (p q : A → Bool) (wider : (x : A) → p x ≡ true → q x ≡ true) where
  count_of-wider : (xs : List A) → count_of p xs ≤ count_of q xs
  unfolding count_of
  count_of-wider [] = omega arith
  count_of-wider (x ∷ xs) = ground (arith, wider x, count_of-wider xs)

  count_of-more :
      (x : A) (xs : List A) → Has x xs → p x ≡ false → q x ≡ true → count_of p xs < count_of q xs
  unfolding count_of
  count_of-more x [] h n t = absurd h
  count_of-more x (y ∷ ys) h n t = elim h [
    | inl e ↦
        let n' = subst (λ z. p z ≡ false) (sym e) n in
        let t' = subst (λ z. q z ≡ true) (sym e) t in ground (arith, n', t', count_of-wider ys)
    | inr m ↦ let more = count_of-more x ys m n t in ground (arith, wider y, more)
  ]

Has-node_by_id :
    (ref : String) (nodes : List AstNode) (n : AstNode)
    → node_by_id ref nodes ≡ some n
    → Has n nodes × (n.node_id ≡ ref)
unfolding last_with
Has-node_by_id ref [] n e = absurd (ground (arith, e))
Has-node_by_id ref (x ∷ xs) n e = elim (Option-cases (node_by_id ref xs)) [
  | inr (m, f) ↦
      let (h, same) = Has-node_by_id ref xs n (f ∙ (rw (f, last_with) at e)) in (inr h, same)
  | inl none_later ↦ elim (Bool-cases (str_eq x.node_id ref)) [
    | inl t ↦
        let q : some x ≡ some n = rw (none_later, t, last_with) at e in
        let same : x ≡ n = cc q in
        (inl same, subst (λ (y : AstNode). y.node_id ≡ ref) same ((eq_iff x.node_id ref).0 t))
    | inr f ↦ absurd (ground (arith, rw (none_later, f, last_with) at e))
  ]
]

module _ (depth : String → ℕ) (nodes : List AstNode) where
  -- The nodes that are less deep.
  abbrev pub rank_of : String → ℕ
  rank_of ref = count_of (λ (n : AstNode). ltb (depth n.node_id) (depth ref)) nodes

  pub length-rank_of : (ref : String) → rank_of ref ≤ length nodes
  length-rank_of ref = length-count_of (λ (n : AstNode). ltb (depth n.node_id) (depth ref)) nodes

  pub rank_of-less :
      (ref child : String) (m : AstNode)
      → node_by_id child nodes ≡ some m
      → depth child < depth ref
      → rank_of child < rank_of ref
  rank_of-less ref child m e less =
      let (h, same) = Has-node_by_id child nodes m e in
      count_of-more (λ (n : AstNode). ltb (depth n.node_id) (depth child))
        (λ (n : AstNode). ltb (depth n.node_id) (depth ref)) (λ n t. ground (arith, t, less)) m
        nodes h (subst (λ r. ltb (depth r) (depth child) ≡ false) (sym same) (ground arith))
        (subst (λ r. ltb (depth r) (depth ref) ≡ true) (sym same) (ground (arith, less)))
