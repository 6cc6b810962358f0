-- ===== src/Options/Tests.antt =====
-- A configuration file with one value in each list, and a start that serves music.
use dmapd.Prelude.{◌≡◌, refl, true, false, none, some, [], ◌∷◌, CString}
use dmapd.Options.{Options, KeyFile, defaults, add_to_opt_list, read_keyfile}
use dmapd.Options.Keyfile.{IsRead, read_keyfile-IsRead, add_to_opt_list-long}
use dmapd.Options.Startup.{
  Plugins, Features, Services, Serves, starts, given, start_services, main_start, main_start-Serves,
}

abbrev dir : CString
dir = b'/' ∷ b'm' ∷ []

abbrev small_file : KeyFile
small_file = record {
  get_string = λ g k. none;
  get_boolean = λ g k. true;
  get_string_list = λ g k. k ∷ [];
}

read_keyfile-IsRead_example :
    (t : Options) × (read_keyfile (some small_file) (defaults dir) ≡ some t)
    × IsRead small_file (defaults dir) t
read_keyfile-IsRead_example = read_keyfile-IsRead small_file (defaults dir)

-- "--music-dir"
add_to_opt_list-long_example :
    add_to_opt_list
      (b'-' ∷ b'-' ∷ b'm' ∷ b'u' ∷ b's' ∷ b'i' ∷ b'c' ∷ b'-' ∷ b'd' ∷ b'i' ∷ b'r' ∷ [])
      dir
      (defaults dir)
    ≡ none
add_to_opt_list-long_example =
    add_to_opt_list-long (b'm' ∷ b'u' ∷ b's' ∷ b'i' ∷ b'c' ∷ b'-' ∷ b'd' ∷ b'i' ∷ b'r' ∷ []) dir
      (defaults dir)

abbrev listener : Options
listener = record (defaults dir) { music_dirs = dir ∷ [] }

abbrev plugins : Plugins
plugins = record { av_meta_reader = true; photo_meta_reader = false; av_render = false }

abbrev features : Features
features = record { daap = true; dpap = true; dacp = true; browser = true }

abbrev music_only : Services
music_only = record { daap = true; dpap = false; browser = false; waits = true }

listener_starts : main_start listener plugins features ≡ starts music_only
unfolding main_start start_services given
listener_starts = refl

main_start-Serves_example : Serves listener plugins music_only
main_start-Serves_example = main_start-Serves listener plugins features music_only listener_starts
