-- ===== src/Prelude/Explored.antt =====
-- The search with a visited set ends, and it yields exactly the results that a path reaches.
use Prim.Native.Nat.{ℕ, zero, suc, ◌+◌, ◌≤◌}
use mathlib.Core.Path.{◌≡◌, refl, sym, ap, subst}
use mathlib.Core.Logic.{◌↔◌, ◌⊎◌, inl, inr}
use mathlib.Core.Bool.{Bool, true, false}
use mathlib.Core.Option.{Option, none, some}
use mathlib.Core.List.{List, [], ◌∷◌, ◌++◌}
use native.Mathlib.Omega.{arith}
use atlas_db_agent.Prelude.Tests.{if◌then◌else◌, Bool-cases, Option-cases}
use atlas_db_agent.Prelude.Lists.{Has, length, length-append}
use atlas_db_agent.Prelude.Explore.{Explored, seen, pushed, note, explore, Reach, here, moved}

pub Has-append : {A : Type 0} (y : A) (xs ys : List A) → Has y (xs ++ ys) ↔ (Has y xs ⊎ Has y ys)
Has-append y [] ys = (inr, elim [ inl h ↦ absurd h | inr h ↦ h ])
Has-append y (x ∷ xs) ys =
    let (split, join) = Has-append y xs ys in
    (
      elim [ inl e ↦ inl (inl e) | inr h ↦ elim (split h) [ inl a ↦ inl (inr a) | inr b ↦ inr b ] ],
      elim [ inl (inl e) ↦ inl e | inl (inr h) ↦ inr (join (inl h)) | inr h ↦ inr (join (inr h)) ],
    )

module _ {S O : Type 0} (same : S → S → Bool) (same_iff : (s t : S) → (same s t ≡ true) ↔ (s ≡ t))
    (stop : S → Option O) (next : S → List S) where
  seen_iff : (s : S) (vs : List S) → (seen same stop next s vs ≡ true) ↔ Has s vs
  unfolding seen
  seen_iff s [] = (λ e. ground (arith), λ h. absurd h)
  seen_iff s (v ∷ vs) = ground (arith, same_iff v s, seen_iff s vs)

  -- What holds of the states and results at each round of the loop.
  record Inv (start : S) (stack : List S) (e : Explored same stop next) : Type 0 where
    waiting : (s : S) → Has s stack → Reach same stop next start s
    begun : Has start stack ⊎ Has start e.visited
    closed :
        (s t : S) → Has s e.visited → stop s ≡ none → Has t (next s) → Has t stack ⊎ Has t e.visited
    sound : (o : O) → Has o e.found → (s : S) × Reach same stop next start s × (stop s ≡ some o)
    complete : (s : S) (o : O) → Has s e.visited → stop s ≡ some o → Has o e.found

  pushed-none : (s : S) → stop s ≡ none → pushed same stop next s ≡ next s
  pushed-none s n = rw (n, pushed) refl

  Has-pushed : (s t : S) → Has t (pushed same stop next s) → (stop s ≡ none) × Has t (next s)
  Has-pushed s t h = elim (Option-cases (stop s)) [
    | inl n ↦ (n, rw (n, pushed) at h)
    | inr (o, p) ↦ absurd (rw (p, pushed) at h)
  ]

  Has-note :
      (s : S) (e : Explored same stop next) (o : O)
      → Has o (note same stop next s e).found ↔ ((stop s ≡ some o) ⊎ Has o e.found)
  Has-note s e o = elim (Option-cases (stop s)) [
    | inl n ↦ rw n (inr, elim [ inl p ↦ absurd (ground (arith, p)) | inr h ↦ h ])
    | inr (q, p) ↦ rw p (
      elim [ inl r ↦ inl (ap some r) | inr h ↦ inr h ],
      elim [ inl r ↦ inl (cc r) | inr h ↦ inr h ],
    )
  ]

  module _ (start : S) where
    Inv-skip :
        (s : S) (stack : List S) (e : Explored same stop next)
        → Has s e.visited
        → Inv start (s ∷ stack) e
        → Inv start stack e
    Inv-skip s stack e old i = record {
      waiting = λ t h. waiting t (inr h);
      begun = elim begun [
        | inl (inl p) ↦ inr (subst (λ x. Has x e.visited) p old)
        | inl (inr h) ↦ inl h
        | inr h ↦ inr h
      ];
      closed = λ u t v n h. elim (closed u t v n h) [
        | inl (inl p) ↦ inr (subst (λ x. Has x e.visited) p old)
        | inl (inr w) ↦ inl w
        | inr w ↦ inr w
      ];
      sound = sound;
      complete = complete;
    }
      where
        open i use {waiting, begun, closed, sound, complete}

    Inv-enter :
        (s : S) (stack : List S) (e : Explored same stop next)
        → Inv start (s ∷ stack) e
        → Inv start (pushed same stop next s ++ stack) (note same stop next s e)
    Inv-enter s stack e i = record {
      waiting = λ t h. elim ((Has-append t (pushed same stop next s) stack).0 h) [
        | inl new ↦ let (n, m) = Has-pushed s t new in moved s t (waiting s (inl refl)) n m
        | inr old ↦ waiting t (inr old)
      ];
      begun = elim begun [
        | inl (inl p) ↦ inr (inl p)
        | inl (inr h) ↦ inl (still start h)
        | inr h ↦ inr (inr h)
      ];
      closed = λ u t v n h. elim v [
        | inl p ↦ inl (
            (Has-append t (pushed same stop next s) stack).1
              (inl (subst (Has t) (sym (pushed-none s (rw p n))) (rw p h))))
        | inr w ↦ elim (closed u t w n h) [
          | inl (inl p) ↦ inr (inl p)
          | inl (inr x) ↦ inl (still t x)
          | inr x ↦ inr (inr x)
        ]
      ];
      sound = λ o h. elim ((Has-note s e o).0 h) [
        | inl p ↦ (s, waiting s (inl refl), p)
        | inr old ↦ sound o old
      ];
      complete = λ u o v p.
          (Has-note s e o).1 (elim v [ inl q ↦ inl (rw q p) | inr w ↦ inr (complete u o w p) ]);
    }
      where
        open i use {waiting, begun, closed, sound, complete}

        still : (t : S) → Has t stack → Has t (pushed same stop next s ++ stack)
        still t h = (Has-append t (pushed same stop next s) stack).1 (inr h)

    explore-Inv :
        (fuel : ℕ) (stack : List S) (e out : Explored same stop next)
        → Inv start stack e
        → explore same stop next fuel stack e ≡ some out
        → Inv start [] out
    unfolding explore
    explore-Inv fuel [] e out i r = let p : e ≡ out = cc r in subst (Inv start []) p i
    explore-Inv zero (s ∷ stack) e out i r = absurd (ground (arith, r))
    explore-Inv (suc fuel) (s ∷ stack) e out i r =
        elim (Bool-cases (seen same stop next s e.visited)) [
          | inl t ↦
              explore-Inv fuel stack e out (Inv-skip s stack e ((seen_iff s e.visited).0 t) i)
                (rw t at r)
          | inr f ↦
              explore-Inv fuel (pushed same stop next s ++ stack) (note same stop next s e) out
                (Inv-enter s stack e i) (rw f at r)
        ]

    visits :
        (out : Explored same stop next)
        → Inv start [] out
        → (s : S) → Reach same stop next start s
        → Has s out.visited
    visits out i s here = elim i.begun [ inl h ↦ absurd h | inr h ↦ h ]
    visits out i _ (moved s t r n h) = elim (i.closed s t (visits out i s r) n h) [
      | inl x ↦ absurd x
      | inr x ↦ x
    ]

    -- A search from one state finds a result exactly when a path reaches a state that yields it.
    pub explore-Reach :
        (fuel : ℕ) (out : Explored same stop next) (o : O)
        → explore same stop next fuel (start ∷ []) (record { visited = []; found = [] }) ≡ some out
        → Has o out.found ↔ ((s : S) × Reach same stop next start s × (stop s ≡ some o))
    explore-Reach fuel out o r =
        let i = explore-Inv fuel (start ∷ []) (record { visited = []; found = [] }) out first r in
        (i.sound o, λ (s, path, p). i.complete s o (visits out i s path) p)
      where
        first : Inv start (start ∷ []) (record { visited = []; found = [] })
        first = record {
          waiting =
              λ t. elim [ inl p ↦ subst (Reach same stop next start) p here | inr h ↦ absurd h ];
          begun = inl (inl refl);
          closed = λ u t v n h. absurd v;
          sound = λ o h. absurd h;
          complete = λ u o v p. absurd v;
        }

  -- How often a state stands in a list, and how many of the list's states are not visited yet.
  unfoldable pub count : S → List S → ℕ
  count s [] = 0
  count s (v ∷ vs) = if same v s then suc (count s vs) else count s vs

  unfoldable pub remaining : List S → List S → ℕ
  remaining visited [] = 0
  remaining visited (v ∷ vs) =
      if seen same stop next v visited then remaining visited vs else suc (remaining visited vs)

  remaining-visit :
      (s : S) (visited universe : List S)
      → seen same stop next s visited ≡ false
      → remaining (s ∷ visited) universe + count s universe ≡ remaining visited universe
  unfolding remaining count seen
  remaining-visit s visited [] f = omega arith
  remaining-visit s visited (v ∷ vs) f =
      ground (arith, remaining-visit s visited vs f, same_iff s v, same_iff v s)

  length-pushed : (s : S) → length (pushed same stop next s) ≤ length (next s)
  length-pushed s = elim (Option-cases (stop s)) [
    | inl n ↦ rw (n, pushed) (omega arith)
    | inr (o, p) ↦ rw (p, pushed) (omega arith)
  ]

  -- A list in which each state stands as often as it has successors bounds the rounds.
  pub explore_ends :
      (universe : List S)
      → ((s : S) → length (next s) ≤ count s universe)
      → (fuel : ℕ) (stack : List S) (e : Explored same stop next)
      → length stack + remaining e.visited universe ≤ fuel
      → (out : Explored same stop next) × (explore same stop next fuel stack e ≡ some out)
  unfolding explore
  explore_ends universe room fuel [] e h = (e, refl)
  explore_ends universe room zero (s ∷ stack) e h = absurd (omega arith)
  explore_ends universe room (suc fuel) (s ∷ stack) e h =
      elim (Bool-cases (seen same stop next s e.visited)) [
        | inl t ↦ rw t (explore_ends universe room fuel stack e (omega arith))
        | inr f ↦ rw f (
            explore_ends universe room fuel (pushed same stop next s ++ stack)
              (note same stop next s e)
              (omega (
                arith,
                room s,
                length-pushed s,
                length-append (pushed same stop next s) stack,
                remaining-visit s e.visited universe f,
              )))
      ]
