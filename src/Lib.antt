-- ===== src/Lib.antt =====
-- Verification of yachtSQL, an in-memory SQL engine in the dialect of BigQuery.
--
-- The program. `crates/common` has the values, the data types and the errors. `crates/storage` keeps
-- a table as one typed vector per column, each with a bitmap of its null rows. `crates/executor`
-- runs plans on tables that its catalog finds by name. `crates/parser` and `crates/optimizer` make
-- the plans.
--
-- The files.
--   Prelude          lists, texts, bits, tables of a function, association lists
--   Common           crates/common/src/types/mod.rs and error.rs: DataType, Value, Error, the debug
--                    texts that columns store, i64 parsing and printing
--   Storage/Bitmap   crates/storage/src/bitmap.rs: NullBitmap, its words as 64-bit numbers
--   Storage/Cells, Storage/Column
--                    crates/storage/src/column.rs: Column, its data and bitmap; `push` with all its
--                    conversions in Column/Entries, `set` in Column/Exact, the sum of integers
--                    over the words of the bitmap in Column/Sum
--   Storage/Schema   crates/storage/src/schema.rs: Field, Schema
--   Storage/IndexMap the insertion-ordered map of the indexmap crate
--   Storage/Table    crates/storage/src/table/core.rs: Table; rows in Table/RowOps, columns in
--                    Table/Alter, results and tables under another schema in Table/Views
--   Catalog          crates/executor/src/catalog.rs: Catalog; one file for each group of methods;
--                    Catalog/Filled puts the tables of Storage into it
--   Common/Signed, Common/ValueEquality
--                    the i64 and i32 arithmetic of the standard library; Value's derived equality and
--                    its `Ord` (crates/common/src/types/mod.rs)
--   Evaluator        crates/executor/src/ir_evaluator/mod.rs, helpers.rs and functions/math.rs:
--                    `evaluate` in Evaluator/Evaluate on the expressions of Evaluator/Expr
--                    (crates/ir/src/expr), with one file for each group of functions it calls
--   Relational       crates/executor/src/executor: execute_limit and execute_sample in Limit,
--                    execute_distinct and the set operations in Distinct, execute_sort in Sort,
--                    execute_filter in Filter, the nested-loop joins in Join, the hash join in
--                    HashJoin, plan_schema_to_schema in PlanSchema
--
-- How the code is read. A method that changes its receiver gives the new receiver, and its `Result`
-- where it has one. A method that returns early by `?` gives the receiver as far as it had changed.
-- Machine words are natural numbers below the power of two, with the reduction written out; an i64
-- is its 64-bit pattern. A text is the list of its code points, and letter case is that of ASCII.
-- Hash maps and hash sets are lists, of which only lookups are used. An operator of a plan takes the
-- table that its input has given, and makes its result by the same pushes as the code. Integers wrap
-- as in a release build, `usize` at 64 bits. `sort_by` is a stable sort, here by insertion. Two keys
-- of the hash join that give the hasher different input are taken to have different hashes. The
-- draws of SAMPLE are a list of outcomes. Loops are recursion on the rounds that are left, so that
-- no fuel is needed, but for the loop over the set bits of a word, which has the 64 rounds that a
-- word can need; twenty digits are enough to print 64 bits.
--
-- What is a parameter. `Externals` has the types and functions of rust_decimal, chrono, serde_json
-- and hex, and of floating point; `Operators` adds the arithmetic and the orders on them, and
-- `to_bits` is that of a float. `IndexMap` has the documented behaviour of the map that a table
-- uses, and `entry_list` is one. `Payload` has the types that the catalog stores and never reads.
--
-- What is not modelled. Serialization; `min` and `max` of a column and the sums of floats and
-- decimals; the overflow check of a debug build; panics, so `set` and `remove` of a column are about
-- an index in range, and the remainder of the least i64 by -1 is 0; the escapes that the debug text
-- of a field name has for characters behind ASCII; of expressions, subqueries, aggregates, windows,
-- casts, LIKE, access to structs and arrays, user functions and the other scalar functions, among
-- them RAND, GENERATE_UUID and CURRENT_*, which read a random source or the clock, so that nothing
-- said of expressions here is about them; of the operators, TopN, aggregates and windows; the
-- concurrent catalog, the optimizer, the planner and the vendored SQL parser.
pub mod Prelude
pub mod Common
pub mod Storage
pub mod Catalog
pub mod Evaluator
pub mod Relational
