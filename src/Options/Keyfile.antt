-- ===== src/Options/Keyfile.antt =====
-- What the configuration file changes: src/dmapd.c, read_keyfile.
use mathlib.Core.List.{append_assoc, append-nil}
use dmapd.Prelude.{
  ◌≡◌, refl, ◌∙◌, Bool, ◌||◌, none, some, List, [], ◌∷◌, ◌++◌, CString, str_eq, arith,
}
use dmapd.Options.{
  Options, KeyFile, Name, text, short_option, add_to_opt_list, add_all, key_file_b_or_default,
  read_values, read_keyfile,
}

-- Where one more value is appended, and then the others, all are appended.
music_dirs-add_all :
    (l : List CString) (o : Options)
    → add_all (short_option b'm') l o ≡ some (record o { music_dirs = o.music_dirs ++ l })
unfolding add_all add_to_opt_list str_eq
music_dirs-add_all [] o = rw (append-nil o.music_dirs) refl
music_dirs-add_all (value ∷ l) o =
    music_dirs-add_all l (record o { music_dirs = o.music_dirs ++ (value ∷ []) })
    ∙ rw (append_assoc o.music_dirs (value ∷ []) l) refl

music_formats-add_all :
    (l : List CString) (o : Options)
    → add_all (short_option b'M') l o ≡ some (record o { music_formats = o.music_formats ++ l })
unfolding add_all add_to_opt_list str_eq
music_formats-add_all [] o = rw (append-nil o.music_formats) refl
music_formats-add_all (value ∷ l) o =
    music_formats-add_all l (record o { music_formats = o.music_formats ++ (value ∷ []) })
    ∙ rw (append_assoc o.music_formats (value ∷ []) l) refl

picture_dirs-add_all :
    (l : List CString) (o : Options)
    → add_all (short_option b'p') l o ≡ some (record o { picture_dirs = o.picture_dirs ++ l })
unfolding add_all add_to_opt_list str_eq
picture_dirs-add_all [] o = rw (append-nil o.picture_dirs) refl
picture_dirs-add_all (value ∷ l) o =
    picture_dirs-add_all l (record o { picture_dirs = o.picture_dirs ++ (value ∷ []) })
    ∙ rw (append_assoc o.picture_dirs (value ∷ []) l) refl

flag-or :
    (f : KeyFile) (g k : CString) (def : Bool)
    → key_file_b_or_default f g k def ≡ (f.get_boolean g k || def)
unfolding key_file_b_or_default
flag-or f g k def = ground arith

-- The lists and the flags after a file has been read.
pub record IsRead (f : KeyFile) (o t : Options) : Type 0 where
  pub music_dirs :
      t.music_dirs ≡ o.music_dirs ++ f.get_string_list (text Name.music) (text Name.dirs)
  pub music_formats :
      t.music_formats
      ≡ o.music_formats ++ f.get_string_list (text Name.music) (text Name.acceptable_formats)
  pub picture_dirs :
      t.picture_dirs
      ≡ (o.picture_dirs ++ f.get_string_list (text Name.picture) (text Name.dirs))
        ++ f.get_string_list (text Name.picture) (text Name.acceptable_formats)
  pub picture_formats : t.picture_formats ≡ o.picture_formats
  pub dir_containers :
      t.enable_dir_containers
      ≡ (f.get_boolean (text Name.general) (text Name.dir_containers) || o.enable_dir_containers)
  pub rt_transcode :
      t.enable_rt_transcode
      ≡ (f.get_boolean (text Name.music) (text Name.realtime_transcode) || o.enable_rt_transcode)

-- A configuration file that can be read is taken without an error: its music directories and
-- formats, and its picture directories, follow those of before, and so do its picture formats, but
-- among the picture directories, while the picture formats stay as they were; a flag is set where
-- the file sets it or it was set, so that the file cannot clear it.
pub read_keyfile-IsRead :
    (f : KeyFile) (o : Options) → (t : Options) × (read_keyfile (some f) o ≡ some t) × IsRead f o t
unfolding read_keyfile read_values
read_keyfile-IsRead f o =
    let md = f.get_string_list (text Name.music) (text Name.dirs) in
    let mf = f.get_string_list (text Name.music) (text Name.acceptable_formats) in
    let pd = f.get_string_list (text Name.picture) (text Name.dirs) in
    let pf = f.get_string_list (text Name.picture) (text Name.acceptable_formats) in
    let v = read_values f o in
    let o1 : Options = record v { music_dirs = v.music_dirs ++ md } in
    let o2 : Options = record o1 { music_formats = o1.music_formats ++ mf } in
    let o3 : Options = record o2 { picture_dirs = o2.picture_dirs ++ pd } in
    let o4 : Options = record o3 { picture_dirs = o3.picture_dirs ++ pf } in
    (
      o4,
      rw (music_dirs-add_all md v, music_formats-add_all mf o1, picture_dirs-add_all pd o2)
          (picture_dirs-add_all pf o3),
      record {
        music_dirs = refl;
        music_formats = refl;
        picture_dirs = refl;
        picture_formats = refl;
        dir_containers =
            flag-or f (text Name.general) (text Name.dir_containers) o.enable_dir_containers;
        rt_transcode =
            flag-or f (text Name.music) (text Name.realtime_transcode) o.enable_rt_transcode;
      },
    )

-- A list option by its long name, which GOption passes on with two dashes, ends the program,
-- whatever its value: add_to_opt_list knows the short names only.
pub add_to_opt_list-long :
    (name value : CString) (o : Options) → add_to_opt_list (b'-' ∷ b'-' ∷ name) value o ≡ none
unfolding add_to_opt_list str_eq
add_to_opt_list-long [] value o = refl
add_to_opt_list-long (ch ∷ name) value o = refl
