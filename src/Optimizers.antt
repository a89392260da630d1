-- ===== src/Optimizers.antt =====
-- pkg/optimizers: the optimizers of yolol programs.
pub mod Static
pub mod Inversion
pub mod Names
pub mod Compound
pub mod Programs
