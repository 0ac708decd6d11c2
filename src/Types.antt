-- ===== src/Types.antt =====
-- Serialization of Go values: the files under types/.
pub mod Container
pub mod Scalar
pub mod Value
pub mod Varint
pub mod Func
pub mod Serde
pub mod Pointer
pub mod Scan
pub mod ScanExamples
pub mod ReflectValue
pub mod Info
pub mod Typemap
pub mod Description
pub mod DescriptionExamples
pub mod Examples
pub mod ValueExamples
pub mod SerdeExamples
pub mod FuncExamples
