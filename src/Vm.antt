-- ===== src/Vm.antt =====
-- pkg/vm: the virtual machine that runs yolol programs.
pub mod Decimals
pub mod Variable
pub mod Operations
pub mod State
pub mod Expressions
pub mod Control
pub mod Statements
pub mod Frame
pub mod Run
pub mod Interface
