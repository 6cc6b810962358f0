-- ===== src/Stringleton/Tests.antt =====
-- Concrete histories of the string table.
use dmapd.Prelude.{◌≡◌, refl, true, none, some, [], ◌∷◌, arith, str_eq}
use dmapd.Stringleton.{
  Op, ref, unref, Global, dangling, start, stringleton_init, stringleton_ref, stringleton_unref,
  stringleton_deinit, run,
}
use dmapd.Stringleton.Counts.{Tracks, live_global, counted_all, no_references, run-counted}
use dmapd.Stringleton.Lifetime.{deinit_is_final}
use dmapd.Fixture.{strings_table, unknown}
use mathlib.Core.List.{List}

abbrev history : List Op
history =
    ref (some unknown)
    ∷ ref (some unknown)
    ∷ unref none
    ∷ unref (some unknown)
    ∷ unref (some [])
    ∷ []

run-counted_example :
    (t : strings_table.Table) × (run strings_table history
        (stringleton_init strings_table (start strings_table))
      ≡ some (live_global strings_table t))
    × Tracks strings_table t (counted_all history no_references)
run-counted_example = run-counted strings_table history (omega arith) (omega arith)

one_left : counted_all history no_references unknown ≡ 1
unfolding str_eq
one_left = refl

abbrev destroyed : Global strings_table
destroyed = record { initialized = true; stringleton = dangling }

deinit_is_final_example :
    (stringleton_ref strings_table (some unknown) (stringleton_init strings_table destroyed) ≡ none)
    × (stringleton_unref strings_table (some unknown) (stringleton_init strings_table destroyed)
        ≡ none)
    × (stringleton_unref strings_table none (stringleton_init strings_table destroyed)
        ≡ some destroyed)
unfolding stringleton_deinit
deinit_is_final_example =
    deinit_is_final strings_table (live_global strings_table strings_table.empty) destroyed
      strings_table.empty (some unknown) unknown refl refl refl
