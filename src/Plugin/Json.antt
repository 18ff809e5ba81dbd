-- ===== src/Plugin/Json.antt =====
-- The JSON values that src/plugin/bifrost_server.rs builds with `json!`, and the calls of
-- serde_json and of float formatting that it makes, which are parameters.
use bifrost_core.Prelude.{ℕ, Bool, List, [], ◌∷◌, if◌then◌else◌}
use bifrost_core.Prelude.Exec.{Outcome}
use bifrost_core.Prelude.Text.{Str, str_eq}
use bifrost_core.NetworkRecord.{NetworkRecord}

-- `serde_json::Value`, and its arrays and objects.
mutual
  pub data Value : Type 0 where
    null : Value
    bool : Bool → Value
    num : ℕ → Value
    string : Str → Value
    array : Values → Value
    object : Fields → Value

  pub data Values : Type 0 where
    nil : Values
    cons : Value → Values → Values

  pub data Fields : Type 0 where
    end : Fields
    field : Str → Value → Fields → Fields

-- `to_value` is that of a record, which may fail; `to_string` prints a value; `mega n` is
-- `format!("{:.2}", n as f64 / 1_048_576.0)`.
pub record Serde : Type 0 where
  pub to_value : NetworkRecord → Outcome Value
  pub to_string : Value → Str
  pub mega : ℕ → Str

-- `map.remove(key)`
unfoldable pub remove : Str → Fields → Fields
remove key end = end
remove key (field k v fs) =
    let rest = remove key fs in if str_eq k key then rest else field k v rest

abbrev pub keys : Fields → List Str
keys end = []
keys (field k v fs) = k ∷ keys fs

abbrev pub values : Values → List Value
values nil = []
values (cons v vs) = v ∷ values vs

abbrev pub of_list : List Value → Values
of_list [] = nil
of_list (v ∷ vs) = cons v (of_list vs)
