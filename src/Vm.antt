-- ===== src/Vm.antt =====
-- src/backend/vm/: the stack machine that runs the intermediate representation.
pub mod Machine
pub mod Run
pub mod Expressions
pub mod Safety
mod Tests
