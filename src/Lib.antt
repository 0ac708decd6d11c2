-- ===== src/Lib.antt =====
-- coroutine: durable and volatile coroutines for Go, and the compiler that makes functions durable.
--
-- A program yields values from a coroutine and drives it with Next, Recv, Send and Run. In the
-- volatile build a coroutine is a goroutine. In the durable build, Yield unwinds the call stack with
-- a panic, and Next calls the entry point again; the compiled functions find their frames on the
-- stack of the context (Push), jump to the statement where they stopped (the switches over the
-- frame's IP), and so reach the Yield again, which then returns what was sent. The compiler writes
-- these functions beside the sources, and build tags choose between the two.
--
-- Which file models what:
--   Runtime/Panic      the panics of coroutine.go and coroutine_durable.go
--   Runtime/Stack      Stack, Push, Pop, isTop of coroutine_durable.go; Stack/Rewind proves
--   Runtime/Context    Context and the methods of Coroutine of coroutine.go; Yield, execute, load
--   Runtime/Next       Next of coroutine_durable.go, with its recover; Next/Laws proves
--   Runtime/Run        Run of coroutine.go, over a record of the operations of a coroutine
--   Runtime/Process    what a coroutine is meant to be; Process/Refine proves Run of the durable build
--   Runtime/Volatile   coroutine_volatile.go; Volatile/Refine proves Run of the volatile build
--   Runtime/Modes      the two builds side by side
--   Compiler/Syntax    the statements of go/ast after desugaring
--   Compiler/Dispatch  compiler/dispatch.go; Dispatch/Spans, Resume and Fall prove
--   Compiler/Ast       the expressions of go/ast, with the mark of nodesThatMayYield
--   Compiler/Decompose decomposeExpression of compiler/desugar.go; Total, Inline, Flat and Order prove
--   Compiler/Desugar   the rest of compiler/desugar.go: Desugar/Syntax the statements, State the
--                      desugarer, FlatMap flatMap and desugarList, Simple, Loop, Select and Switch
--                      the cases of the method desugar, Rewrite the method, Labels the second pass (Kept proves);
--                      Total proves, over Meets, Branches, Lists and the files of Cases; Selection
--                      has the clause that a switch selects
--   Compiler/Color     compiler/color.go; Color/Walk proves, with Closed and the measure of Prelude/Dict
--   Compiler/Unsupported  compiler/unsupported.go; Unsupported/Verdict proves, over Faults
--   Compiler/TypeExpr  compiler/types.go; TypeExpr/Meaning has what expressions mean, Denotes proves
--   Compiler/Constraint  compiler/constraint.go, commentGroupsOf of compiler/comment.go; Laws proves
--   Types/Container    the containers of types/scan.go; Join, Cover, Add, Insert, Lookup, Outer prove
--   Types/Scan         scan of types/scan.go; Scan/Look has the parts and regions of values, Reach
--                      proves, over Parts, Behind, Covers and Growth
--   Types/Scalar       the numbers and booleans of types/reflect.go; Scalar/RoundTrip proves
--   Types/Value        serializeAny and deserializeAny for values without pointers; RoundTrip proves
--   Types/ReflectValue serializeReflectValue and deserializeReflectValue; Agree proves
--   Types/Varint       the variable-length numbers of types/serde.go; Varint/RoundTrip proves
--   Types/Serde        the build ID and the pointer IDs of types/serde.go; Laws and Identity prove
--   Types/Pointer      the start of serializePointedAt, readPtr, store and the table of small integers of
--                      types/unsafe.go, and deserializePointedAt up to the data; Fetch proves, over
--                      Shared and RoundTrip
--   Types/Info         the structs of types/types.go, and what reflect says of a type
--   Types/Typemap      types/typemap.go, with the descriptions by their pointers; Registry proves
--   Types/Description  ToType, ToReflect and reflectType of types/types.go, the offsets of types of
--                      types/unsafe.go, and the end of deserializeType; Terminates proves, over
--                      Graph, Growth and Fill, and RoundTrip, over Rebuild and Reading
--   Types/Func         the tables of functions of types/func.go; Func/Linked proves
-- The modules Examples, DesugarExamples, ColorExamples, TypeExprExamples, UnsupportedExamples,
-- ValueExamples, ScanExamples, SerdeExamples, DescriptionExamples and FuncExamples hold the instances of the theorems and tests.
--
-- A Go call is a function from the state to a result, a value or a panic, and the state that it
-- leaves. Functions of the program that uses the package, entry points and callbacks, are parameters;
-- the proofs about Run take an entry point that behaves as compiled code of a process does, and an
-- instance is given. Maps keyed by syntax nodes are annotations of the tree. The parser of
-- go/build/constraint is a parameter, and so are the call graph, the comparison of types and the
-- symbol table. Go ints are native numbers or integers without wrap-around, where they count frames
-- or statements.
--
-- Fuel: Run loops on fuel, one unit for each call of Next, and the theorems say how much is enough.
-- The method desugar recurses on fuel, and its wrapper starts with the weight of the statement; the
-- loop of decomposeExpression runs on the size of the expression.
-- colorFunctions recurses on fuel too, and so do ToType and scan, where the number of types and
-- of places is enough, and ToReflect, where the depth is.
--
-- A desugared node that the Go code changes in place is a new node. A label is a number, and so is a
-- temporary variable; the types of new identifiers, which the Go code records for the type checker,
-- are left out.
--
-- In Types/Container a reflect.Type is its kind and what scan.go asks of it, an address is a number,
-- and a region does not wrap around; sort.Search and sort.Find are parameters. In Types/Value a value
-- is the tree of its parts, in place of the memory at a pointer, and a float is its bits.
--
-- In Types/Scan the words of memory are a parameter, and so is what reflect says of the types. In
-- Types/Pointer the lookup of a region, the table of small integers and the memory that reflect.New
-- gives are parameters.
--
-- In Types/Description a reflect.Type is the address that its interface points to, and reflect is a
-- parameter: what it says of a type, and the types that it makes, where it may panic. The pointers to
-- descriptions are numbers, and deserialized descriptions keep theirs.
--
-- Not modelled: the assembly and address arithmetic behind load and execute, which are a register of
-- the goroutine; the data that types/ serializes behind pointers; the marking of nodes by findCalls, and the passes of compiler/decls.go and compiler/function.go; the loading and writing of packages.
pub mod Prelude
pub mod Runtime
pub mod Compiler
pub mod Types
