-- ===== src/Hotkeys/Toml.antt =====
-- What the registry uses of tomlplusplus: nodes, tables and their values. An integer of 64 bits is its
-- two's complement, below 2^64. An array is the list of its nodes.
use nexus_key.Base.{ℕ, ◌≡◌, Bool, if◌then◌else◌, Option, none, some, ◌<|>◌, Wstring, wstring_eq}

pub record Toml : Type 1 where
  pub Node : Type 0
  pub Table : Type 0
  pub as_table : Node → Option Table
  pub as_string : Node → Option Wstring
  pub as_integer : Node → Option ℕ
  pub as_boolean : Node → Option Bool
  pub of_table : Table → Node
  pub of_string : Wstring → Node
  pub of_integer : ℕ → Node
  pub of_boolean : Bool → Node
  pub get : Wstring → Table → Option Node
  pub empty_table : Table
  pub insert : Wstring → Node → Table → Table
  pub insert_or_assign : Wstring → Node → Table → Table

-- The documented behaviour: a node has the value that it is made of, `insert` keeps what a key has,
-- and `insert_or_assign` does not.
pub record IsToml (t : Toml) : Type 0 where
  pub table_of : (x : t.Table) → t.as_table (t.of_table x) ≡ some x
  pub string_of : (x : Wstring) → t.as_string (t.of_string x) ≡ some x
  pub integer_of : (x : ℕ) → t.as_integer (t.of_integer x) ≡ some x
  pub boolean_of : (x : Bool) → t.as_boolean (t.of_boolean x) ≡ some x
  pub get-empty : (k : Wstring) → t.get k t.empty_table ≡ none
  pub get-insert :
      (k j : Wstring) (n : t.Node) (x : t.Table)
      → t.get j (t.insert k n x) ≡ (if wstring_eq k j then t.get j x <|> some n else t.get j x)
  pub get-assign :
      (k j : Wstring) (n : t.Node) (x : t.Table)
      → t.get j (t.insert_or_assign k n x) ≡ (if wstring_eq k j then some n else t.get j x)
