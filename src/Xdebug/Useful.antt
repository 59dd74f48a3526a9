-- ===== src/Xdebug/Useful.antt =====
-- stage1/interpreter-tracing/TE_xdebug/usefulstuff.c: texts, lines read from a connection, file names and
-- URLs.
pub mod Url
pub mod Explode
pub mod Lines
pub mod Filename
