-- ===== src/FunTable.antt =====
-- The function table of linker_soinfo.cpp (library/src/main/cpp/linker/): the names of the
-- members, the macros, what each Android version writes, and the calls through the table.
pub mod Name
pub mod Statement
pub mod Newest
pub mod Recent
pub mod Middle
pub mod Oldest
pub mod Init
pub mod Calls
pub mod Equal
pub mod Wired
pub mod Access
pub mod Soname
pub mod Wrappers
