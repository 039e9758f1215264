-- ===== src/Evaluator.antt =====
-- crates/executor/src/ir_evaluator/mod.rs: the evaluation of expressions on a row.
pub mod Intervals
pub mod Arithmetic
pub mod Comparison
pub mod Logic
pub mod Functions
pub mod Math
pub mod Expr
pub mod Literals
pub mod Tests
pub mod Evaluate
pub mod Kleene
pub mod Symmetry
pub mod Membership
pub mod Operands
pub mod Bounds
pub mod Conditionals
pub mod Ranges
pub mod Negation
mod Examples
