-- ===== src/Provium.antt =====
-- The scalar translator of provium/src: a subset of Rust is compiled to a small checked language.
pub mod Base
pub mod Ir
pub mod Syntax
pub mod Frontend
pub mod Cfg
pub mod Coverage
