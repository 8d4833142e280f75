-- ===== src/Graph/Within.antt =====
-- What `neighborhood` returns.
use atlas_db_agent.Prelude.{
  ℕ, zero, suc, ◌+◌, ◌-◌, ◌≤◌, ◌≡◌, refl, subst, inl, inr, true, false, not, ◌&&◌, ◌||◌, String,
  str_eq, eq_iff, some, List, [], ◌∷◌, Has, contains, collect, nonempty, length, leb, ltb, arith,
  Bool-cases,
}
use atlas_db_agent.Prelude.Members.{Has-collect, contains-Has}
use atlas_db_agent.Graph.Rows.{NodeRow, EdgeRow, Store}
use atlas_db_agent.Graph.Store.{
  Engine, IsLawful, Hood, Neighborhood, touches, rows_at, round, expand, node_rows, neighborhood,
}
use atlas_db_agent.Graph.Near.{
  Has-take, length-take, Near, Touched, Around, Around-add_rows, length-add_rows, IsWithin,
}

module _ (q : Engine) (law : IsLawful q) (tenant_ref : String) (limit : ℕ) (store : Store)
    (start : String) where
  touches-Touched :
      (n : ℕ) (frontier : List String) (r : EdgeRow)
      → ((x : String) → Has x frontier → Near tenant_ref store.edges start n x)
      → Has r store.edges
      → touches q tenant_ref limit store frontier r ≡ true
      → Touched tenant_ref store.edges start n r
  touches-Touched n frontier r near h e =
      let mine : str_eq r.tenant_ref tenant_ref ≡ true = ground (arith, e) in
      let own = (eq_iff r.tenant_ref tenant_ref).0 mine in
      elim (Bool-cases (contains r.source_node frontier)) [
        | inl t ↦ (
          (h, own),
          (r.source_node, inl refl, near r.source_node ((contains-Has r.source_node frontier).0 t)),
        )
        | inr f ↦
            let t : contains r.target_node frontier ≡ true = ground (arith, e, f) in
            (
              (h, own),
              (
                r.target_node,
                inr refl,
                near r.target_node ((contains-Has r.target_node frontier).0 t),
              ),
            )
      ]

  rows_at-Touched :
      (n : ℕ) (s : Hood)
      → Around tenant_ref store.edges start n s
      → (r : EdgeRow) → Has r (rows_at q tenant_ref limit store s)
      → Touched tenant_ref store.edges start n r
  rows_at-Touched n s a r h =
      let touching = collect (touches q tenant_ref limit store s.frontier) (λ r. r) store.edges in
      let taken = Has-take r (limit - length s.edges) (q.edges_in_order touching) h in
      let chosen = (law.edges_same r touching).0 taken in
      let (x, m, t, e) =
        (Has-collect (touches q tenant_ref limit store s.frontier) (λ r. r) r store.edges).0
          chosen in
      subst (Touched tenant_ref store.edges start n) e
        (touches-Touched n s.frontier x a.at_edge m t)

  Around-round :
      (n : ℕ) (s : Hood)
      → Around tenant_ref store.edges start n s
      → Around tenant_ref store.edges start (suc n) (round q tenant_ref limit store s)
  Around-round n s a =
      Around-add_rows tenant_ref store.edges start n (rows_at q tenant_ref limit store s)
        record { edges = s.edges; visited = s.visited; frontier = [] } (rows_at-Touched n s a)
        record { near = λ x h. inl (a.near x h); at_edge = λ x h. absurd h; owned = a.owned }

  Around-later :
      (n k m : ℕ) (s : Hood)
      → k + n ≡ m
      → Around tenant_ref store.edges start n s
      → Around tenant_ref store.edges start m s
  Around-later n zero m s e a =
      subst (λ i. Around tenant_ref store.edges start i s) (omega (arith, e)) a
  Around-later n (suc k) m s e a =
      let b = Around-later n k (k + n) s refl a in
      let further : Around tenant_ref store.edges start (suc (k + n)) s = record {
        near = λ x h. inl (b.near x h);
        at_edge = λ x h. inl (b.at_edge x h);
        owned = b.owned;
      } in
      subst (λ i. Around tenant_ref store.edges start i s) (omega (arith, e)) further

  Around-expand :
      (k n m : ℕ) (s : Hood)
      → k + n ≡ m
      → Around tenant_ref store.edges start n s
      → Around tenant_ref store.edges start m (expand q tenant_ref limit store k s)
  unfolding expand
  Around-expand zero n m s e a = Around-later n zero m s e a
  Around-expand (suc k) n m s e a =
      elim (Bool-cases (not (nonempty s.frontier) || leb limit (length s.edges))) [
        | inl t ↦ rw t (Around-later n (suc k) m s e a)
        | inr f ↦ rw f (
            Around-expand k (suc n) m (round q tenant_ref limit store s) (omega (arith, e))
              (Around-round n s a))
      ]

  length-round :
      (s : Hood)
      → length s.edges ≤ limit
      → length ((round q tenant_ref limit store s).edges) ≤ limit
  length-round s few =
      let ordered =
        q.edges_in_order
          (collect (touches q tenant_ref limit store s.frontier) (λ r. r) store.edges) in
      omega (
        arith,
        few,
        length-add_rows (rows_at q tenant_ref limit store s)
            record { edges = s.edges; visited = s.visited; frontier = [] },
        length-take (limit - length s.edges) ordered,
      )

  length-expand :
      (k : ℕ) (s : Hood)
      → length s.edges ≤ limit
      → length ((expand q tenant_ref limit store k s).edges) ≤ limit
  unfolding expand
  length-expand zero s few = few
  length-expand (suc k) s few =
      elim (Bool-cases (not (nonempty s.frontier) || leb limit (length s.edges))) [
        | inl t ↦ rw t few
        | inr f ↦ rw f (length-expand k (round q tenant_ref limit store s) (length-round s few))
      ]

  Has-node_rows :
      (depth : ℕ) (s : Hood)
      → Around tenant_ref store.edges start depth s
      → (n : NodeRow) → Has n (node_rows q tenant_ref limit store s.visited)
      → Has n store.nodes
        × (n.tenant_ref ≡ tenant_ref)
        × Near tenant_ref store.edges start depth n.node_id
  Has-node_rows depth s a n h =
      let mine = λ (r : NodeRow). str_eq r.tenant_ref tenant_ref && contains r.node_id s.visited in
      let chosen = (law.nodes_same n (collect mine (λ r. r) store.nodes)).0 h in
      let (x, m, t, e) = (Has-collect mine (λ r. r) n store.nodes).0 chosen in
      let own : str_eq x.tenant_ref tenant_ref ≡ true = ground (arith, t) in
      let met : contains x.node_id s.visited ≡ true = ground (arith, t) in
      subst
        (λ (r : NodeRow).
          Has r store.nodes
          × (r.tenant_ref ≡ tenant_ref)
          × Near tenant_ref store.edges start depth r.node_id)
        e
        (
          m,
          (eq_iff x.tenant_ref tenant_ref).0 own,
          a.near x.node_id ((contains-Has x.node_id s.visited).0 met),
        )

  -- Where SQLite returns the rows of a query in some order, a depth of at most 8 has a neighbourhood: at
  -- most the limit of edges, all of them the tenant's, and only nodes of the tenant that at most so many of
  -- the tenant's edges join with the start.
  pub neighborhood-IsWithin :
      (depth : ℕ)
      → depth ≤ 8
      → (r : Neighborhood) × (neighborhood q tenant_ref limit store start depth ≡ some r)
        × IsWithin tenant_ref limit store start depth r
  unfolding neighborhood
  neighborhood-IsWithin depth low =
      let first : Hood = record { edges = []; visited = start ∷ []; frontier = start ∷ [] } in
      let around : Around tenant_ref store.edges start 0 first = record {
        near = λ x. elim [ inl e ↦ e | inr m ↦ absurd m ];
        at_edge = λ x. elim [ inl e ↦ e | inr m ↦ absurd m ];
        owned = λ e h. absurd h;
      } in
      let found = expand q tenant_ref limit store depth first in
      let within = Around-expand depth 0 depth first (omega arith) around in
      let allowed : ltb 8 depth ≡ false = ground (arith, low) in
      (
        record {
          node_id = start;
          depth = depth;
          nodes = node_rows q tenant_ref limit store found.visited;
          edges = found.edges;
        },
        rw allowed refl,
        record {
          edges = within.owned;
          few = length-expand depth first (omega arith);
          nodes = Has-node_rows depth found within;
        },
      )
