-- ===== src/Relational.antt =====
-- crates/executor/src/executor: the operators of a plan on the tables of their inputs.
pub mod PlanSchema
pub mod StorageNames
pub mod Loops
pub mod Limit
pub mod Limited
pub mod Distinct
pub mod Bags
pub mod Pushing
pub mod SetOps
pub mod Sort
pub mod Sorted
pub mod Filter
pub mod Join
pub mod Joined
pub mod Joining
pub mod FullJoin
pub mod NestedLoops
pub mod HashJoin
pub mod HashTable
pub mod HashIndex
pub mod HashJoined
pub mod KeyColumns
pub mod SameJoin
mod Examples
mod JoinExamples
