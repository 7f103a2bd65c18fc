-- ===== src/Cache.antt =====
-- src/backend/codegen/code_cache.hpp and bytecode_format.hpp: the files of compiled functions.
pub mod Write
pub mod Reader
pub mod RoundTrip
pub mod File
pub mod Tests
