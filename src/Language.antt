-- ===== src/Language.antt =====
-- The assembly language: machine.hpp and language/.
pub mod Machine
pub mod Dialect
pub mod Chpext
pub mod Interpreter
pub mod Program
mod Tests
