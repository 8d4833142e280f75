-- ===== src/Graph/Near.antt =====
-- The nodes within a number of edges of a node, and what a round of the search adds.
use atlas_db_agent.Prelude.{
  ℕ, zero, suc, ◌+◌, ◌≤◌, ◌≡◌, refl, subst, ◌⊎◌, inl, inr, true, false, String, List, [], ◌∷◌, ◌++◌,
  Has, any, contains, length, length-append, take, arith,
}
use atlas_db_agent.Graph.Rows.{NodeRow, EdgeRow, Store, same_record}
use atlas_db_agent.Graph.Store.{Neighborhood, Hood, visit, noted, add_row, add_rows}

pub Has-take : {A : Type 0} (x : A) (n : ℕ) (xs : List A) → Has x (take n xs) → Has x xs
Has-take x zero xs h = absurd h
Has-take x (suc n) [] h = absurd h
Has-take x (suc n) (y ∷ ys) h = elim h [ inl e ↦ inl e | inr m ↦ inr (Has-take x n ys m) ]

pub length-take : {A : Type 0} (n : ℕ) (xs : List A) → length (take n xs) ≤ n
length-take zero xs = omega arith
length-take (suc n) [] = omega arith
length-take (suc n) (x ∷ xs) = omega (arith, length-take n xs)

Has-snoc : {A : Type 0} (x y : A) (xs : List A) → Has x (xs ++ (y ∷ [])) → (Has x xs ⊎ (y ≡ x))
Has-snoc x y [] h = elim h [ inl e ↦ inr e | inr m ↦ absurd m ]
Has-snoc x y (z ∷ zs) h = elim h [
  | inl e ↦ inl (inl e)
  | inr m ↦ elim (Has-snoc x y zs m) [ inl k ↦ inl (inr k) | inr e ↦ inr e ]
]

abbrev pub Ends : EdgeRow → String → Type 0
Ends e x = (e.source_node ≡ x) ⊎ (e.target_node ≡ x)

module _ (tenant_ref : String) (rows : List EdgeRow) (start : String) where
  -- The edges of the tenant, and the nodes that at most so many of them join with the start.
  abbrev pub Owned : EdgeRow → Type 0
  Owned e = Has e rows × (e.tenant_ref ≡ tenant_ref)

  abbrev pub Near : ℕ → String → Type 0
  Near zero x = start ≡ x
  Near (suc n) x =
      Near n x ⊎ ((e : EdgeRow) × (y : String) × Owned e × Ends e y × Ends e x × Near n y)

  -- A row that a node at distance n is an end of.
  abbrev pub Touched : ℕ → EdgeRow → Type 0
  Touched n e = Owned e × ((y : String) × Ends e y × Near n y)

  pub record Around (n : ℕ) (s : Hood) : Type 0 where
    pub near : (x : String) → Has x s.visited → Near n x
    pub at_edge : (x : String) → Has x s.frontier → Near n x
    pub owned : (e : EdgeRow) → Has e s.edges → Owned e

  Around-visit : (n : ℕ) (c : String) (s : Hood) → Near n c → Around n s → Around n (visit c s)
  Around-visit n c s near_c a =
      elim (contains c s.visited)
        as (λ b. Around n (elim b [
          | true ↦ s
          | false ↦ record { edges = s.edges; visited = c ∷ s.visited; frontier = c ∷ s.frontier }
        ])) [
          | true ↦ a
          | false ↦ record {
            near = λ x. elim [ inl e ↦ subst (Near n) e near_c | inr m ↦ a.near x m ];
            at_edge = λ x. elim [ inl e ↦ subst (Near n) e near_c | inr m ↦ a.at_edge x m ];
            owned = a.owned;
          }
        ]

  Around-noted : (n : ℕ) (r : EdgeRow) (s : Hood) → Owned r → Around n s → Around n (noted r s)
  Around-noted n r s own a =
      elim (any (same_record r) s.edges)
        as (λ b. Around n (elim b [
          | true ↦ s
          | false ↦ record {
            edges = s.edges ++ (r ∷ []);
            visited = s.visited;
            frontier = s.frontier;
          }
        ])) [
          | true ↦ a
          | false ↦ record {
            near = a.near;
            at_edge = a.at_edge;
            owned = λ e h. elim (Has-snoc e r s.edges h) [
              | inl m ↦ a.owned e m
              | inr q ↦ subst Owned q own
            ];
          }
        ]

  pub Around-add_rows :
      (n : ℕ) (rs : List EdgeRow) (s : Hood)
      → ((r : EdgeRow) → Has r rs → Touched n r)
      → Around (suc n) s
      → Around (suc n) (add_rows rs s)
  unfolding add_rows
  Around-add_rows n [] s touched a = a
  Around-add_rows n (r ∷ rs) s touched a =
      let (own, (y, end, near)) = touched r (inl refl) in
      Around-add_rows n rs (add_row r s) (λ x m. touched x (inr m))
        (Around-visit (suc n) r.target_node (visit r.source_node (noted r s))
          (inr (r, y, own, end, inr refl, near))
          (Around-visit (suc n) r.source_node (noted r s) (inr (r, y, own, end, inl refl, near))
            (Around-noted (suc n) r s own a)))

pub length-visit : (c : String) (s : Hood) → length ((visit c s).edges) ≡ length s.edges
length-visit c s =
    elim (contains c s.visited)
      as (λ b.
        length (
          (elim b as (λ _. Hood) [
            | true ↦ s
            | false ↦ record { edges = s.edges; visited = c ∷ s.visited; frontier = c ∷ s.frontier }
          ]).edges)
        ≡ length s.edges) [ true ↦ refl | false ↦ refl ]

length-noted : (r : EdgeRow) (s : Hood) → length ((noted r s).edges) ≤ suc (length s.edges)
length-noted r s =
    elim (any (same_record r) s.edges)
      as (λ b.
        length (
          (elim b as (λ _. Hood) [
            | true ↦ s
            | false ↦ record {
              edges = s.edges ++ (r ∷ []);
              visited = s.visited;
              frontier = s.frontier;
            }
          ]).edges)
        ≤ suc (length s.edges)) [
          | true ↦ omega arith
          | false ↦ omega (arith, length-append s.edges (r ∷ []))
        ]

pub length-add_rows :
    (rs : List EdgeRow) (s : Hood) → length ((add_rows rs s).edges) ≤ length s.edges + length rs
unfolding add_rows
length-add_rows [] s = omega arith
length-add_rows (r ∷ rs) s =
    let one = noted r s in
    omega (
      arith,
      length-add_rows rs (add_row r s),
      length-visit r.target_node (visit r.source_node one),
      length-visit r.source_node one,
      length-noted r s,
    )

module _ (tenant_ref : String) (limit : ℕ) (store : Store) (start : String) where
  -- What a neighbourhood of a depth holds: edges of the tenant, no more than the limit, and nodes of the
  -- tenant that so many of the tenant's edges join with the start.
  pub record IsWithin (depth : ℕ) (r : Neighborhood) : Type 0 where
    pub edges : (e : EdgeRow) → Has e r.edges → Owned tenant_ref store.edges start e
    pub few : length r.edges ≤ limit
    pub nodes :
        (n : NodeRow)
        → Has n r.nodes
        → Has n store.nodes
          × (n.tenant_ref ≡ tenant_ref)
          × Near tenant_ref store.edges start depth n.node_id
