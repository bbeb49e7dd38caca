-- ===== src/Tests.antt =====
-- Runs of the theorems at concrete inputs, one file for each part of the development.
mod FunTable
mod Maps
mod Jni
mod Namespace
mod Symbol
mod Elf
mod Globals
mod Chain
mod Links
mod Packed
mod Relocate
mod Loader
mod Notes
mod Relink
