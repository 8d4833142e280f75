-- ===== src/Values.antt =====
-- Values that have a canonical JSON form (core/canonical_json.py), and the interface of the code
-- that serialises and hashes them, which the evidence store takes as a parameter.
use atlas_db_agent.Prelude.{ℕ, Bool, String, Option, none, some, List, [], ◌∷◌}

-- `below_zero n` is the integer -1 - n; a finite float is held as its text.
mutual
  pub data Value : Type 0 where
    null : Value
    flag : Bool → Value
    number : ℕ → Value
    below_zero : ℕ → Value
    float : String → Value
    text : String → Value
    array : Items → Value
    object : Fields → Value

  pub data Items : Type 0 where
    nil : Items
    cons : Value → Items → Items

  pub data Fields : Type 0 where
    done : Fields
    field : String → Value → Fields → Fields

-- A dictionary literal, and an optional text.
abbrev pub dict : List (String × Value) → Fields
dict [] = done
dict ((k, v) ∷ kvs) = field k v (dict kvs)

abbrev pub opt_text : Option String → Value
opt_text none = null
opt_text (some s) = text s

-- A tuple of texts.
abbrev pub text_items : List String → Items
text_items [] = nil
text_items (s ∷ ss) = cons (text s) (text_items ss)

abbrev pub texts : List String → Value
texts ss = array (text_items ss)

-- A dictionary with one more key at its end.
abbrev pub with_field : Fields → String → Value → Fields
with_field done k v = field k v done
with_field (field j w fs) k v = field j w (with_field fs k v)

-- `canonical_digest`, `canonical_json_bytes(…).decode()`, `json.loads`, `sha256(…).hexdigest()`,
-- `gherkin_digest` (`none`: it raises) and `canonical_timestamp` (`none`: it raises).
pub record Hashes : Type 0 where
  pub canonical_digest : Value → String
  pub canonical_json : Value → String
  pub loads : String → Value
  pub sha256_hex : String → String
  pub gherkin_digest : String → Option String
  pub canonical_timestamp : String → Option String
