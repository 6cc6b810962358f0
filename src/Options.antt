-- ===== src/Options.antt =====
-- src/dmapd.c: the options of the program, from the configuration file and from the command line,
-- and what main starts with them. GKeyFile and GOption are parameters: a file gives values for a
-- group and a key, and the command line a list of options in their order.
pub mod Keyfile
pub mod Startup
pub mod Tests
use dmapd.Prelude.{
  ℕ, Bool, true, false, ◌&&◌, ◌||◌, not, Option, none, some, List, [], ◌∷◌, ◌++◌, CString, str_eq,
  if◌then◌else◌, ◌>>=◌,
}

pub record Options : Type 0 where
  pub music_dirs : List CString
  pub picture_dirs : List CString
  pub music_formats : List CString
  pub picture_formats : List CString
  pub db_dir : CString
  pub share_name : Option CString
  pub user : Option CString
  pub group : Option CString
  pub transcode_mimetype : Option CString
  pub music_password : Option CString
  pub picture_password : Option CString
  pub max_thumbnail_width : ℕ
  pub enable_dir_containers : Bool
  pub enable_rt_transcode : Bool
  pub enable_foreground : Bool
  pub enable_render : Bool
  pub enable_version : Bool
  pub exit_after_loading : Bool

-- As dmapd.c initialises them; DEFAULT_DBDIR is set by the build.
abbrev pub defaults : CString → Options
defaults dbdir = record {
  music_dirs = [];
  picture_dirs = [];
  music_formats = [];
  picture_formats = [];
  db_dir = dbdir;
  share_name = none;
  user = none;
  group = none;
  transcode_mimetype = none;
  music_password = none;
  picture_password = none;
  max_thumbnail_width = 128;
  enable_dir_containers = false;
  enable_rt_transcode = false;
  enable_foreground = false;
  enable_render = false;
  enable_version = false;
  exit_after_loading = false;
}

-- "-m", "-p", "-M" and "-P"
abbrev pub short_option : ℕ → CString
short_option ch = b'-' ∷ ch ∷ []

-- `none` is g_error.
unfoldable pub add_to_opt_list : CString → CString → Options → Option Options
add_to_opt_list option_name value o =
    if str_eq option_name (short_option b'm')
    then some (record o { music_dirs = o.music_dirs ++ (value ∷ []) })
    else if str_eq option_name (short_option b'p')
    then some (record o { picture_dirs = o.picture_dirs ++ (value ∷ []) })
    else if str_eq option_name (short_option b'M')
    then some (record o { music_formats = o.music_formats ++ (value ∷ []) })
    else if str_eq option_name (short_option b'P')
    then some (record o { picture_formats = o.picture_formats ++ (value ∷ []) })
    else none

-- What a configuration file gives for a group and a key. A list that is not there is empty.
pub record KeyFile : Type 0 where
  pub get_string : CString → CString → Option CString
  pub get_boolean : CString → CString → Bool
  pub get_string_list : CString → CString → List CString

unfoldable pub key_file_s_or_default : KeyFile → CString → CString → Option CString → Option CString
key_file_s_or_default f g k def = elim (f.get_string g k) [ some s ↦ some s | none ↦ def ]

unfoldable pub key_file_b_or_default : KeyFile → CString → CString → Bool → Bool
key_file_b_or_default f g k def = if f.get_boolean g k then f.get_boolean g k else def

-- The names of groups and keys.
pub data Name : Type 0 where
  general music picture database_dir share_name user group dir_containers transcode_mimetype : Name
  realtime_transcode password dirs acceptable_formats : Name

-- for (i = 0; i < len; i++) add_to_opt_list (name, value[i], NULL, &error);
unfoldable pub add_all : CString → List CString → Options → Option Options
unfolding add_to_opt_list
add_all name [] o = some o
add_all name (value ∷ l) o = add_to_opt_list name value o >>= add_all name l

abbrev pub text : Name → CString
text Name.general = b'G' ∷ b'e' ∷ b'n' ∷ b'e' ∷ b'r' ∷ b'a' ∷ b'l' ∷ []
text Name.music = b'M' ∷ b'u' ∷ b's' ∷ b'i' ∷ b'c' ∷ []
text Name.picture = b'P' ∷ b'i' ∷ b'c' ∷ b't' ∷ b'u' ∷ b'r' ∷ b'e' ∷ []
text Name.database_dir =
    b'D' ∷ b'a' ∷ b't' ∷ b'a' ∷ b'b' ∷ b'a' ∷ b's' ∷ b'e' ∷ b'-' ∷ b'D' ∷ b'i' ∷ b'r' ∷ []
text Name.share_name = b'S' ∷ b'h' ∷ b'a' ∷ b'r' ∷ b'e' ∷ b'-' ∷ b'N' ∷ b'a' ∷ b'm' ∷ b'e' ∷ []
text Name.user = b'U' ∷ b's' ∷ b'e' ∷ b'r' ∷ []
text Name.group = b'G' ∷ b'r' ∷ b'o' ∷ b'u' ∷ b'p' ∷ []
text Name.dir_containers =
    b'D' ∷ b'i' ∷ b'r' ∷ b'-' ∷ b'C' ∷ b'o' ∷ b'n' ∷ b't' ∷ b'a' ∷ b'i' ∷ b'n' ∷ b'e' ∷ b'r' ∷ b's'
    ∷ []
text Name.transcode_mimetype =
    b'T' ∷ b'r' ∷ b'a' ∷ b'n' ∷ b's' ∷ b'c' ∷ b'o' ∷ b'd' ∷ b'e' ∷ b'-' ∷ b'M' ∷ b'i' ∷ b'm' ∷ b'e'
    ∷ b't' ∷ b'y' ∷ b'p' ∷ b'e' ∷ []
text Name.realtime_transcode =
    b'R' ∷ b'e' ∷ b'a' ∷ b'l' ∷ b't' ∷ b'i' ∷ b'm' ∷ b'e' ∷ b'-' ∷ b'T' ∷ b'r' ∷ b'a' ∷ b'n' ∷ b's'
    ∷ b'c' ∷ b'o' ∷ b'd' ∷ b'e' ∷ []
text Name.password = b'P' ∷ b'a' ∷ b's' ∷ b's' ∷ b'w' ∷ b'o' ∷ b'r' ∷ b'd' ∷ []
text Name.dirs = b'D' ∷ b'i' ∷ b'r' ∷ b's' ∷ []
text Name.acceptable_formats =
    b'A' ∷ b'c' ∷ b'c' ∷ b'e' ∷ b'p' ∷ b't' ∷ b'a' ∷ b'b' ∷ b'l' ∷ b'e' ∷ b'-' ∷ b'F' ∷ b'o' ∷ b'r'
    ∷ b'm' ∷ b'a' ∷ b't' ∷ b's' ∷ []

unfoldable pub read_values : KeyFile → Options → Options
unfolding key_file_s_or_default key_file_b_or_default
read_values f o =
    let general_s = λ (k : Name). key_file_s_or_default f (text Name.general) (text k) in
    record o {
      db_dir = elim (general_s Name.database_dir (some o.db_dir)) [ some s ↦ s | none ↦ o.db_dir ];
      share_name = general_s Name.share_name o.share_name;
      user = general_s Name.user o.user;
      group = general_s Name.group o.group;
      enable_dir_containers =
          key_file_b_or_default f (text Name.general) (text Name.dir_containers)
            o.enable_dir_containers;
      transcode_mimetype =
          key_file_s_or_default f (text Name.music) (text Name.transcode_mimetype)
            o.transcode_mimetype;
      enable_rt_transcode =
          key_file_b_or_default f (text Name.music) (text Name.realtime_transcode)
            o.enable_rt_transcode;
      music_password =
          key_file_s_or_default f (text Name.music) (text Name.password) o.music_password;
      picture_password =
          key_file_s_or_default f (text Name.picture) (text Name.password) o.picture_password;
    }

-- `none` for the file is a file that cannot be read.
unfoldable pub read_keyfile : Option KeyFile → Options → Option Options
unfolding read_values add_all
read_keyfile none o = some o
read_keyfile (some f) o =
    add_all (short_option b'm') (f.get_string_list (text Name.music) (text Name.dirs))
      (read_values f o)
    >>= λ o1.
        add_all (short_option b'M')
          (f.get_string_list (text Name.music) (text Name.acceptable_formats)) o1
        >>= λ o2.
            add_all (short_option b'p') (f.get_string_list (text Name.picture) (text Name.dirs)) o2
            >>= λ o3.
                add_all (short_option b'p')
                  (f.get_string_list (text Name.picture) (text Name.acceptable_formats)) o3
