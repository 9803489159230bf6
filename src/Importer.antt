-- ===== src/Importer.antt =====
-- importer/importer.go and importer/flatmap: the import of locations and objects into chaintrees. The
-- files are read and parsed outside; yaml, templates and sha256 are parameters.
pub mod Flatmap
pub mod Convert
pub mod Trees
pub mod Whole
