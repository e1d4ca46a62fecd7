-- ===== src/Lib.antt =====
-- fusilli is a header-only C++ library under include/fusilli/. A user builds a graph of tensors and
-- operations; the library checks it, fills in what is missing, writes it as MLIR, and has IREE compile
-- and run it. This library models these stages. A path in these comments starts at
-- include/fusilli/, so node/conv_node.h is include/fusilli/node/conv_node.h.
--
-- Parts and files
--   Base             what the parts share. Base/Results is support/logging.h: `ErrorCode`, and
--                    `Outcome` for `ErrorObject` and `ErrorOr`; Base/Vector is `std::vector` access
--                    and the counted loop; Base/Int is `int64_t`; Base/Texts is
--                    `std::string`, and the part of std::filesystem that joins paths.
--   Support          support/int_types.h: four-bit integers, packed two to a byte (Support/Int4);
--                    support/extras.h and backend/compile_command.h: the command line of the
--                    compiler on POSIX (Support/Shell), and as its specification the words that a
--                    shell reads (Support/Shell/Reader); support/cache.h: the files of the cache
--                    (Support/Cache) on a map from paths to contents (Support/Disk).
--   Tensor           attributes/types.h (Tensor/Types) and attributes/tensor_attributes.h: the class
--                    `TensorAttr` (Tensor/Attr), stride orders and permutations (Tensor/Order),
--                    strides (Tensor/Stride), common shapes (Tensor/Broadcast), contiguous and
--                    channels-last layouts (Tensor/Layout), strides in memory and physical dimensions
--                    (Tensor/Physical), `TensorAttr::validate` (Tensor/Validate).
--   Backend          backend/backend.h and support/external_tools.h: which target to compile for
--                    (Backend/Target), the flags of the compiler and the parser of those in the
--                    environment (Backend/Flags). backend/compile_session.h: the shared context and
--                    the session (Backend/Session), `CompileSession::compile` (Backend/Compile), with
--                    the calls that make and destroy objects as a list.
--   Node             node/*.h with attributes/*_attributes.h: for each operation the record of its
--                    attributes, and `pre_validate_node`, `infer_properties_node` and
--                    `post_validate_node` for the methods of these names. Node/Store is
--                    attributes/attributes.h and the tensors that the nodes share; Node/Frame and the
--                    Frame and Laws files below an operation say what inference leaves alone; the
--                    Shape, Inferred and Unset files are about the shapes of outputs.
--   Graph            graph/context.h (Graph/Context), node/node.h (Graph/Op), graph/graph.h: names
--                    (Graph/Names), `Graph::validate` and what it calls (Graph/Validate), the methods
--                    that add tensors and nodes (Graph/Build), and sequences of their calls
--                    (Graph/Build/Steps), the cache of the compiled artifact (Graph/Artifact), and
--                    backend/runtime.h: loading it, the workspace size (Graph/Runtime), execution
--                    (Graph/Runtime/Execute), sequences of loads and queries
--                    (Graph/Runtime/Steps), and their specification as a machine whose moves
--                    are labelled by calls (Graph/Runtime/Refine); `Graph::compile` (Graph/Compile).
--   Emit             support/asm_emitter.h: `std::format` and `interleave` (Emit/Format), names, types
--                    and constants (Emit/Values), conversions of layouts (Emit/Layout), the function
--                    around the nodes (Emit/Program), `replaceAll` (Emit/Replace), the code of each
--                    operation in a file of its name, and `Graph::emitAsm` (Emit/Assembly).
--   Examples         concrete tensors, nodes, graphs, files and runtimes.
--
-- How the parts interact: `Graph::validate` checks the names, then asks each node in the order in
-- which they were added to check its attributes, to infer what is missing and to check the result.
-- Nodes share tensors, so each sees what those before it have inferred. Then every input and output is
-- validated by itself. Then `Graph::getCompiledArtifact` looks whether the cache holds the artifact for
-- the assembly and the command line that would be run, and otherwise compiles it, by a command or by a
-- session; `loadFromArtifact` makes the state of the runtime from it, and `execute` calls it.
--
-- How state is modelled: a `std::shared_ptr<TensorAttr>` is a place in a list of tensors, the store,
-- and none for a null pointer or for a key that a node's map lacks. A method takes the store and
-- returns the new one. A setter returns the changed tensor. The store after an error is not modelled.
--
-- Results of calls: `ok`, `error` with the code, or `fault` for a run that C++ gives no meaning: a
-- failed assertion (assertions are taken to be on), an index out of range, a null pointer that is
-- read, a division by zero, a signed overflow. The texts of messages and the log are left out.
--
-- Numbers: an `int64_t` is an integer whose operations are checked against 64 bits; a `size_t` that
-- counts dimensions is a natural number. A float is its bit pattern.
--
-- Library code of C++: `std::sort` and `std::stable_sort` are the insertion sort that keeps equal
-- elements in order, as usual libraries do it for up to sixteen elements; a `std::unordered_set` is a
-- list in the order of insertion, and the statements do not depend on that order.
--
-- Loops are structural: over a list, or over the number of rounds (`for_range`). The recursions
-- on fuel are `to_string` and `decimal`, where a number has no more digits than its value, and
-- `replace_all`, where each round passes at least one character.
--
-- Code of others is a parameter: the records `Iree` (the runtime), `CompilerApi` (the compiler's
-- library), `Library` (the dynamic loader), `Environment` (the shell, the variables of the
-- environment, the tools) and `Printer` (how a float is printed, and the numbers that the headers of
-- torch give to element types) have a field for each call that is made, with its result. A text is a
-- list of bytes, or of characters in the emitter. A file is the text at its path, or none; a write to
-- a file that cannot be written leaves it empty.
--
-- Not modelled: the directories of the cache; what only calls the runtime of IREE (the shared instance,
-- devices, the data of buffers) or runs a process; the Windows branches; and samples, tests and
-- benchmarks.
pub mod Base
pub mod Support
pub mod Tensor
pub mod Backend
pub mod Graph
pub mod Node
pub mod Emit
pub mod Examples
