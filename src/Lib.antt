-- ===== src/Lib.antt =====
-- A model of dmapd, a server that shares music, video and pictures by DAAP and DPAP (src/, C with
-- GLib), and theorems about it.
--
-- The program. dmapd.c reads its options and key file, makes a database and a record factory for
-- each protocol, and has a builder walk through the media directories. The builder
-- (db-builder-gdir.c) asks the database for the id of each file and has it add those that it does
-- not know; the database (dmapd-dmap-db-ghashtable.c, or dmapd-dmap-db-disk.c or
-- dmapd-dmap-db-bdb.c) has the factory make a record, which reads the tags by a plugin
-- (av-meta-reader-gst.c, photo-meta-reader-*.c). The database in memory keeps a copy of each record
-- in a cache directory, by the hash of the media file, and reads the directory when it is made.
-- Directories become containers (dmapd-dmap-container-record.c, dmapd-dmap-container-db.c).
-- libdmapsharing serves what the databases hold.
--
-- Which file models which part. Names are those of the source, in lower case with underscores.
--   Build, Blob         the compiled program's version and byte order, and the byte arrays of
--                       src/util.c (blob_add_string, blob_add_atomic) with the reading of them
--   HashTable           GHashTable, by its documented laws; HashTable/Assoc is a table that has them
--   Stringleton         src/util.c, stringleton_init, _ref, _unref and _deinit
--   FileHash            src/util.c, dmapd_util_hash_file
--   Cache               src/util.c, cache_path and cache_store
--   Daap                src/dmapd-daap-record.c, the properties; Daap/Blob: to_blob and
--                       set_from_blob; Daap/Create: dmapd_daap_record_new and the factory's create
--   Dpap                src/dmapd-dpap-record.c, the properties; Dpap/Blob: to_blob and
--                       set_from_blob; Dpap/Create: dmapd_dpap_record_new and the factory's create;
--                       Dpap/Created: also the database of pictures
--   RecordClass         what a database uses of the records and of their factory
--   GhashtableDb        src/dmapd-dmap-db-ghashtable.c; GhashtableDb/Cached: load_cached_records
--                       and the constructor
--   DaapDb              the database of DAAP records, the two parts put together; DaapDb/Reload: a
--                       song that one process stores and another loads
--   Container           src/dmapd-dmap-container-record.c and src/dmapd-dmap-container-db.c
--   Builder             src/db-builder-gdir.c, over a database of
--                       src/dmapd-dmap-db-ghashtable.c
--   PluginOption        src/util.c, parse_plugin_option
--   TagReader           src/av-meta-reader-gst.c, the tags; TagReader/Tagged: what they are to make
--                       of a record; TagReader/Session: message_loop, pad_added_cb and read;
--                       TagReader/Created: new records with this reader
--   PhotoReader         src/photo-meta-reader-vips.c, the thumbnail; PhotoReader/Vips: read;
--                       PhotoReader/Graphicsmagick: src/photo-meta-reader-graphicsmagick.c;
--                       PhotoReader/Created: new records with these readers
--   Transcode           src/util-gst.c
--   Player              src/av-render-gst.c
--   DiskDb, BdbDb       src/dmapd-dmap-db-disk.c and src/dmapd-dmap-db-bdb.c
--   HashGen             src/dmapd-hashgen.c
--   Options             src/dmapd.c, add_to_opt_list and read_keyfile; Options/Startup: what main
--                       starts
--   Serve               src/dmapd.c, serve, with the module "ghashtable", which is the default
--   Prelude             names and lemmas that the others share
--   Fixture             values for the tests, which stand in the modules Tests
--
-- How state is modelled. An object is a record of its private fields, a NULL pointer is `none`, and
-- an operation takes the state and gives the next one. What a process shares (the counter nextid,
-- the table of stringletons, the disk) is a field of the state. `none` as a result, or `fault`, is
-- an abort (g_assert, g_error) or undefined behaviour; `refused` is a FALSE that the code returns.
-- A gint and a guint are numbers below 2^32, a guint64 below 2^64, by their bits, and the wrap-around
-- is written out. Strings are lists of bytes without the NUL, and a byte is a number, below 256 where
-- a theorem asks it.
--
-- Loops. Most loops run over a list or a tree: the reads of a stream, the names of a directory, the
-- entries of a table, the media directories as the builder finds them, the events of a main loop.
-- The loops of dmapd-dmap-db-bdb.c run down from G_MAXINT to nextid, by recursion on the number of
-- ids between them, and that of insert_tag on the number of values that are left. The loop of
-- parse_plugin_option runs on fuel, one for each pair; it is given the length of the text, which is
-- enough in that every round takes at least one character from it.
--
-- What is a parameter. GHashTable's order of traversal, the hashes of libdmapsharing (an incremental
-- digest of fixed length, with a text form that tells digests apart, and the hash of a location, in
-- hexadecimal digits), the reads of a stream, the system's answers on paths, Berkeley DB's table,
-- GKeyFile, strtol, and what GStreamer, VIPS and GraphicsMagick answer: a session of GStreamer with
-- one file, or the images of VIPS. The databases take the plugin that reads tags as a parameter too,
-- and the modules Created put the readers in. The media files do not change during one operation.
--
-- What is not modelled. The network side, which is libdmapsharing's; the ranges that libdmapsharing
-- gives the properties of records, outside which g_object_set warns and sets nothing: the values
-- are taken to be within them; the filling of a database of another module than ghashtable; the
-- reference counts of GObject, except those of the stringletons; the free of memory; the
-- registration of types, properties and modules; of dmapd.c the fork, the lock file, the change of
-- user, the signals and the callbacks for remote controls; of av-render-gst.c the properties; the
-- floating point by which photo-meta-reader-graphicsmagick.c sizes a thumbnail; dmapd-transcode and
-- dmapd-stress-test.
pub mod Prelude
pub mod Build
pub mod Blob
pub mod HashTable
pub mod Stringleton
pub mod FileHash
pub mod Cache
pub mod Daap
pub mod RecordClass
pub mod GhashtableDb
pub mod DaapDb
pub mod HashGen
pub mod DiskDb
pub mod BdbDb
pub mod Dpap
pub mod TagReader
pub mod PhotoReader
pub mod Container
pub mod Builder
pub mod Transcode
pub mod PluginOption
pub mod Options
pub mod Serve
pub mod Player
pub mod Fixture
