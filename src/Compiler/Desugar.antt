-- ===== src/Compiler/Desugar.antt =====
-- desugar of compiler/desugar.go.
pub mod Syntax
pub mod State
pub mod FlatMap
pub mod Simple
pub mod Loop
pub mod Select
pub mod Switch
pub mod Labels
pub mod Kept
pub mod Rewrite
pub mod Meets
pub mod Branches
pub mod Lists
pub mod SimpleCases
pub mod LoopCases
pub mod RangeCases
pub mod SelectCases
pub mod SwitchCases
pub mod Total
pub mod Selection
