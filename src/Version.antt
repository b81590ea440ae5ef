-- ===== src/Version.antt =====
-- include/paracore.hpp: the version of the library.
use paracore.Base.{ℕ, String}

-- `kVersionMajor`, `kVersionMinor`, `kVersionPatch` and `kVersionString`
abbrev pub version_major : ℕ
version_major = 0

abbrev pub version_minor : ℕ
version_minor = 2

abbrev pub version_patch : ℕ
version_patch = 0

abbrev pub version_string : String
version_string = "0.2.0"
