-- ===== src/Paths.antt =====
-- Package path of the Go library, on slash-separated paths, as the program uses it; filepath is the
-- same on the Unix systems that are modelled.
pub mod Clean
pub mod Beneath
