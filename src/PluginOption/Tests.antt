-- ===== src/PluginOption/Tests.antt =====
-- Two options of a plugin.
use dmapd.Prelude.{◌≡◌, some, [], ◌∷◌, ◌++◌, arith}
use dmapd.HashTable.Assoc.{str_table}
use dmapd.PluginOption.{OptionTable, parse_pairs, parse_plugin_option}
use dmapd.PluginOption.Printed.{print_pairs, insert_all, parse_plugin_option-print}
use dmapd.PluginOption.Fuel.{Rounds, parse_pairs-Rounds}

abbrev options_table : OptionTable
options_table = str_table

-- "gst:sink=foo,opt1=bar", an option of the source's comment, shortened
parse_plugin_option-print_example :
    parse_plugin_option options_table
      (b'g' ∷ b's' ∷ []
        ++ (b':' ∷ print_pairs (b's' ∷ [], b'f' ∷ b'o' ∷ []) ((b'o' ∷ b'1' ∷ [], b'b' ∷ []) ∷ [])))
      options_table.empty
    ≡ some (
      b'g' ∷ b's' ∷ [],
      insert_all options_table
          (b's' ∷ [], b'f' ∷ b'o' ∷ [])
          ((b'o' ∷ b'1' ∷ [], b'b' ∷ []) ∷ [])
          options_table.empty,
    )
parse_plugin_option-print_example =
    parse_plugin_option-print options_table (b'g' ∷ b's' ∷ []) (b's' ∷ [], b'f' ∷ b'o' ∷ [])
      ((b'o' ∷ b'1' ∷ [], b'b' ∷ []) ∷ []) options_table.empty (omega arith) (omega arith)
      (omega arith)

parse_pairs-Rounds_example :
    Rounds options_table
      (b'k' ∷ b'=' ∷ b',' ∷ b'x' ∷ [])
      options_table.empty
      (parse_pairs options_table 4 (b'k' ∷ b'=' ∷ b',' ∷ b'x' ∷ []) options_table.empty)
parse_pairs-Rounds_example =
    parse_pairs-Rounds options_table 4 (b'k' ∷ b'=' ∷ b',' ∷ b'x' ∷ []) options_table.empty
      (omega arith)
