-- ===== src/Ast/Measures.antt =====
-- Two numbers of a tree: the bad values in it, and how deep its lists and blocks nest.
use protowire_cpp.Common.{ℕ, ◌+◌}
use Prim.Native.Nat.{max}
use protowire_cpp.Ast.{
  Value, string_val, int_val, float_val, bool_val, bytes_val, null_val, ident_val, timestamp_val,
  duration_val, list_val, block_val, bad_val, Values, no_values, value, Entry, assignment,
  map_entry, block, type_entry, Entries, no_entries, entry,
}

unfoldable mutual
  pub value_bads : Value → ℕ
  value_bads (bad_val s) = 1
  value_bads (list_val s vs) = values_bads vs
  value_bads (block_val s es cs) = entries_bads es
  value_bads (string_val s _) = 0
  value_bads (int_val s _ _) = 0
  value_bads (float_val s _ _) = 0
  value_bads (bool_val s _) = 0
  value_bads (bytes_val s _) = 0
  value_bads (null_val s) = 0
  value_bads (ident_val s _) = 0
  value_bads (timestamp_val s _ _ _) = 0
  value_bads (duration_val s _ _ _) = 0

  pub values_bads : Values → ℕ
  values_bads no_values = 0
  values_bads (value v vs) = value_bads v + values_bads vs

  pub entry_bads : Entry → ℕ
  entry_bads (assignment s _ _ v _ _) = value_bads v
  entry_bads (map_entry s _ _ v _ _) = value_bads v
  entry_bads (block s _ _ es _ _) = entries_bads es
  entry_bads (type_entry s _ _ _) = 0

  pub entries_bads : Entries → ℕ
  entries_bads no_entries = 0
  entries_bads (entry e es) = entry_bads e + entries_bads es

unfoldable mutual
  pub value_depth : Value → ℕ
  value_depth (list_val s vs) = 1 + values_depth vs
  value_depth (block_val s es cs) = 1 + entries_depth es
  value_depth (bad_val s) = 0
  value_depth (string_val s _) = 0
  value_depth (int_val s _ _) = 0
  value_depth (float_val s _ _) = 0
  value_depth (bool_val s _) = 0
  value_depth (bytes_val s _) = 0
  value_depth (null_val s) = 0
  value_depth (ident_val s _) = 0
  value_depth (timestamp_val s _ _ _) = 0
  value_depth (duration_val s _ _ _) = 0

  pub values_depth : Values → ℕ
  values_depth no_values = 0
  values_depth (value v vs) = max (value_depth v) (values_depth vs)

  pub entry_depth : Entry → ℕ
  entry_depth (assignment s _ _ v _ _) = value_depth v
  entry_depth (map_entry s _ _ v _ _) = value_depth v
  entry_depth (block s _ _ es _ _) = 1 + entries_depth es
  entry_depth (type_entry s _ _ _) = 0

  pub entries_depth : Entries → ℕ
  entries_depth no_entries = 0
  entries_depth (entry e es) = max (entry_depth e) (entries_depth es)
