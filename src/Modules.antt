-- ===== src/Modules.antt =====
-- model/ModuleDef.cc and util/SourceDigest.cc: the names of modules and the digests of their sources.
pub mod Names
pub mod Digest
pub mod Lazy
