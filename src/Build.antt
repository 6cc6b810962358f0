-- ===== src/Build.antt =====
-- What is fixed when dmapd is built: VERSION of config.h and the byte order of the machine.
use dmapd.Prelude.{CString}

pub data Endian : Type 0 where
  little big : Endian

pub record Build : Type 0 where
  pub version : CString
  pub endian : Endian
