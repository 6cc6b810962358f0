-- ===== src/Options/Startup.antt =====
-- src/dmapd.c, main, once the options are known: what is started, and when the program ends instead.
use dmapd.Prelude.{
  ◌≡◌, Bool, true, false, ◌&&◌, ◌||◌, not, List, [], ◌∷◌, CString, if◌then◌else◌, arith,
}
use dmapd.Options.{Options}

-- The plugins that object_from_module has given.
pub record Plugins : Type 0 where
  pub av_meta_reader : Bool
  pub photo_meta_reader : Bool
  pub av_render : Bool

-- WITH_DAAP, WITH_DPAP and WITH_DACP of the build, and whether the browser for speakers starts.
pub record Features : Type 0 where
  pub daap : Bool
  pub dpap : Bool
  pub dacp : Bool
  pub browser : Bool

-- What serves once main has come to its loop, and whether it waits there.
pub record Services : Type 0 where
  pub daap : Bool
  pub dpap : Bool
  pub browser : Bool
  pub waits : Bool

pub data Startup : Type 0 where
  prints_version prints_help aborts : Startup
  starts : Services → Startup

-- music_dirs != NULL
unfoldable pub given : List CString → Bool
given [] = false
given (dir ∷ dirs) = true

unfoldable pub start_services : Options → Plugins → Features → Startup
unfolding given
start_services o p f =
    let daap = given o.music_dirs && p.av_meta_reader in
    let dpap = given o.picture_dirs && p.photo_meta_reader in
    let browser = o.enable_render && p.av_render in
    if daap && not f.daap
    then aborts
    else if dpap && not f.dpap
    then aborts
    else if browser && not (f.dacp && f.browser)
    then aborts
    else starts
        (record { daap = daap; dpap = dpap; browser = browser; waits = not o.exit_after_loading })

unfoldable pub main_start : Options → Plugins → Features → Startup
unfolding start_services
main_start o p f =
    if o.enable_version
    then prints_version
    else if not (p.av_meta_reader || p.photo_meta_reader)
    then aborts
    else if not p.av_meta_reader && given o.music_dirs
    then aborts
    else if not p.photo_meta_reader && given o.picture_dirs
    then aborts
    else if not (given o.music_dirs || given o.picture_dirs || o.enable_render)
    then prints_help
    else start_services o p f

-- What is asked for is served.
pub record Serves (o : Options) (p : Plugins) (x : Services) : Type 0 where
  pub daap : x.daap ≡ given o.music_dirs
  pub dpap : x.dpap ≡ given o.picture_dirs
  pub browser : x.browser ≡ (o.enable_render && p.av_render)
  pub something : (x.daap || x.dpap || o.enable_render) ≡ true
  pub waits : x.waits ≡ not o.exit_after_loading

starts_same : (x y : Services) → starts x ≡ starts y → x ≡ y
starts_same x y e = cc

-- Where main starts to serve: music is served exactly where a music directory was given, and
-- pictures where a picture directory was, since a directory without its reader ends the program;
-- the browser for speakers runs where rendering was asked for and its plugin is there; and one of
-- the three was asked for.
pub main_start-Serves :
    (o : Options) (p : Plugins) (f : Features) (x : Services)
    → main_start o p f ≡ starts x
    → Serves o p x
unfolding main_start start_services
main_start-Serves o p f x e = record {
  daap = ground arith;
  dpap = ground arith;
  browser = ground arith;
  something = ground arith;
  waits = ground arith;
}
