-- ===== src/Maps.antt =====
-- common/maps_util.cpp and include/fakelinker/maps_util.h: the reader of /proc/self/maps and the
-- page protections that it changes and restores.
pub mod Line
pub mod Window
pub mod Library
pub mod Protect
pub mod Lookup
