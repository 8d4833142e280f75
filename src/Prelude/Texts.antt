-- ===== src/Prelude/Texts.antt =====
-- Texts in order, and joined by a separator.
use Prim.Native.String.{String, compare, slice, ◌++◌ as text_append}
use text.Mathlib.Text.{is_le, ◌==◌ as str_eq}
use mathlib.Core.Bool.{Bool}
use mathlib.Core.List.{List, [], ◌∷◌}
use mathlib.Core.Option.{Option, none, some}
use atlas_db_agent.Prelude.Tests.{if◌then◌else◌}
use atlas_db_agent.Prelude.Lists.{unique, contains}
use atlas_db_agent.Prelude.Sorting.{sort}

abbrev pub str_le : String → String → Bool
str_le a b = is_le (compare a b)

-- `sorted(set(xs))`
abbrev pub sorted_set : List String → List String
sorted_set xs = sort str_le (unique xs)

-- `sorted(xs, key=lambda x: x.key)`
abbrev pub sort_on {ℓ} : {A : Type ℓ} → (A → String) → List A → List A
sort_on key = sort (λ a b. str_le (key a) (key b))

-- `separator.join(parts)`
abbrev pub join_by : String → List String → String
join_by separator [] = ""
join_by separator (p ∷ []) = p
join_by separator (p ∷ q ∷ ps) = text_append p (text_append separator (join_by separator (q ∷ ps)))

-- `prefix + sha256(payload).hexdigest()[:20]`
abbrev pub identifier : (String → String) → String → String → String
identifier sha256_hex prefix payload = text_append prefix (slice (sha256_hex payload) 0 20)

-- `{key(x): value(x) for x in xs if key(x) is not None}.get(k)`: the last one stands.
unfoldable pub last_with {ℓ κ} :
    {A : Type ℓ} {B : Type κ} → (A → Option String) → (A → B) → String → List A → Option B
last_with key value k [] = none
last_with key value k (x ∷ xs) =
    let later = last_with key value k xs in
    elim later [
      | some b ↦ some b
      | none ↦ elim (key x) [ none ↦ none | some j ↦ if str_eq j k then some (value x) else none ]
    ]

-- `dict.fromkeys(refs)`: the first of each stays.
unfoldable pub distinct : List String → List String → List String
distinct known [] = []
distinct known (r ∷ rs) =
    if contains r known then distinct known rs else r ∷ distinct (r ∷ known) rs
