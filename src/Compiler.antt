-- ===== src/Compiler.antt =====
-- The compiler: the Go files under compiler/.
pub mod Ast
pub mod Decompose
pub mod Desugar
pub mod Color
pub mod Syntax
pub mod Dispatch
pub mod Constraint
pub mod TypeExpr
pub mod Unsupported
mod Examples
mod DesugarExamples
mod ColorExamples
mod TypeExprExamples
mod UnsupportedExamples
