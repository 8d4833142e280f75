-- ===== src/Prelude/Explore.antt =====
-- A worklist search with a visited set: `while stack: s = stack.pop(); if s in visited: continue`.
-- A state either stops the path, and yields a result, or its successors are pushed.
use Prim.Native.Nat.{ℕ, zero, suc}
use mathlib.Core.Path.{◌≡◌}
use mathlib.Core.Bool.{Bool, false, ◌||◌}
use mathlib.Core.Option.{Option, none, some}
use mathlib.Core.List.{List, [], ◌∷◌, ◌++◌}
use atlas_db_agent.Prelude.Tests.{if◌then◌else◌}
use atlas_db_agent.Prelude.Lists.{Has}

module _ {S O : Type 0} (same : S → S → Bool) (stop : S → Option O) (next : S → List S) where
  pub record Explored : Type 0 where
    pub visited : List S
    pub found : List O

  -- `s in visited`
  unfoldable pub seen : S → List S → Bool
  seen s [] = false
  seen s (v ∷ vs) = same v s || seen s vs

  abbrev pub pushed : S → List S
  pushed s = elim (stop s) [ none ↦ next s | some o ↦ [] ]

  abbrev pub note : S → Explored → Explored
  note s e = record {
    visited = s ∷ e.visited;
    found = elim (stop s) [ none ↦ e.found | some o ↦ o ∷ e.found ];
  }

  -- `none` means that the fuel ran out.
  unfoldable pub explore : ℕ → List S → Explored → Option Explored
  unfolding seen
  explore fuel [] e = some e
  explore zero (s ∷ stack) e = none
  explore (suc fuel) (s ∷ stack) e =
      let skipped = explore fuel stack e in
      let entered = explore fuel (pushed s ++ stack) (note s e) in
      if seen s e.visited then skipped else entered

  -- The states that a path reaches before it stops.
  pub data Reach (start : S) : S → Type 0 where
    here : Reach start start
    moved : (s t : S) → Reach start s → stop s ≡ none → Has t (next s) → Reach start t
