-- ===== src/Tests.antt =====
-- Tests of the definitions on concrete inputs, and the theorems at concrete inputs.
mod Data
mod Compiler
mod System
mod Kernel
mod Memory
mod Archive
mod Storage
mod Paging
mod Process
mod Loader
