-- ===== src/Lib.antt =====
-- FuzzTest: the fuzzing engine of centipede/ and the codec of fuzztest/internal/.
--
-- A fuzzing engine runs a target in another process, the runner, and learns what each input did
-- from a region of shared memory. The parts that are modelled:
--
--   BlobSequence       centipede/shared_memory_blob_sequence.{h,cc}, class BlobSequence: the region
--                      as a list of bytes with an offset. `write`, `read` and `reset` are Write,
--                      Read and Reset, each with its checks, which end the process (`aborted`).
--   ExecutionMetadata  centipede/execution_metadata.{h,cc}: operands of comparisons, packed.
--   Feature            centipede/feature.h: the coding of what was observed as 64-bit features.
--   FeatureSet         centipede/feature_set.{h,cc}: which features were seen and how often.
--   RunnerResult       centipede/runner_result.{h,cc}: the messages about executions and mutants
--                      that the runner writes to a blob sequence and the engine reads from it.
--   WeightedDistribution
--                      centipede/corpus.{h,cc}, class WeightedDistribution: the weights of a corpus
--                      and the draw of an input. The numbers of absl::Uniform are a parameter.
--   RandomSubset       centipede/util.cc, RandomWeightedSubset; its random numbers are a parameter.
--   Corpus             centipede/corpus.{h,cc}, class Corpus: the records with their weights. The
--                      numbers of absl::Uniform and the arithmetic of double are parameters.
--   RollingHash        centipede/rolling_hash.h, centipede/hashed_ring_buffer.h and
--                      centipede/callstack.h.
--   ForEachNonzero     centipede/foreach_nonzero.h: iteration over sparse counters, a word at a time.
--   ControlFlow        centipede/control_flow.{h,cc} and centipede/pc_info.h: the tables that the
--                      compiler leaves in a binary, the class ControlFlowGraph, its reachability and
--                      its cyclomatic complexities. Hash maps are association lists (Common/Maps).
--   CallGraph          centipede/call_graph.{h,cc}.
--   ReversePcTable     centipede/reverse_pc_table.h.
--   Coverage           centipede/coverage.{h,cc}: what is covered, by block and by function, and the
--                      weight of the callees of a block.
--   Frontier           centipede/corpus.cc, CoverageFrontier::Compute, on a binary's graph, calls and
--                      PC table. The queries of the class are in Corpus/Frontier.
--   ConcurrentByteSet, ConcurrentBitSet
--                      centipede/concurrent_byteset.h and centipede/concurrent_bitset.h: sets of
--                      counters and of bits with a layer that says where to look. One thread's calls.
--   Packing            centipede/util.cc: features and inputs with a hash behind them. The hash is a
--                      parameter.
--   Knobs              centipede/knobs.{h,cc}: weights of random choices.
--   CmpDictionary      centipede/byte_array_mutator.{h,cc}, class CmpDictionary: replacements that
--                      comparisons of the target suggest.
--   ByteArrayMutator   centipede/byte_array_mutator.{h,cc}: the mutators, one function each, which
--                      take their random numbers from a parameter. Undefined behaviour of the
--                      source, an access out of range or a remainder by zero, is `aborted`.
--   Serialization      fuzztest/internal/serialization.{h,cc}: IRObject, the form in which inputs are
--                      stored, its binary format written in two passes (`visit`), and the parser
--                      with its limit on recursion.
--
-- The runner writes with the functions of RunnerResult, each of which calls `write`; the engine
-- calls `batch_read` or `mutation_read`, which call `read` until it gives an invalid blob. Features
-- in an execution result are those of Feature, and the engine keeps those of a corpus in FeatureSet.
-- Corpus prunes by RandomSubset and keeps its weights in a WeightedDistribution.
-- ControlFlow and CallGraph read the same table of blocks; Coverage takes the PC table of the first.
-- `mutate_many` takes the comparisons of ExecutionMetadata for its CmpDictionary, chooses mutators
-- by Knobs, and gives the mutants that RunnerResult writes.
--
-- Conventions. Numbers are native naturals; `size_t` arithmetic that the source does not guard
-- wraps with `% 2 ^ 64`. A failed FUZZTEST_CHECK is `aborted` of `Outcome`. So is behaviour that
-- the source leaves undefined, past which the model does not go; a read past the end of a table of
-- blocks is `none` in the loops of ControlFlow that make it. Memory that is read as
-- an integer or a struct is little-endian (Common/Bytes), as on the platforms the engine runs on.
-- Loops over a region run on fuel, one more than the bytes of the region, and each turn moves the
-- offset by at least one tag and size. The search of a control flow graph has rounds for each edge
-- and two more, since each round takes a block off the work list, which gets a block for each edge.
-- The loop over the PC table has a round for each entry and one more, and its index wraps at 2 ^ 32.
-- The loop over the bits of a word has 65 rounds, one more than bits, each of which clears one.
--
-- Not modelled: shared memory itself (mmap, memfd), processes and their scheduling, files, logging,
-- the rounding of floating-point numbers, and the libraries that are called (Abseil, protobuf, ANTLR).
pub mod Common
pub mod BlobSequence
pub mod ByteArrayMutator
pub mod CallGraph
pub mod CmpDictionary
pub mod ConcurrentBitSet
pub mod ConcurrentByteSet
pub mod ControlFlow
pub mod Corpus
pub mod Coverage
pub mod ExecutionMetadata
pub mod Feature
pub mod FeatureSet
pub mod ForEachNonzero
pub mod Frontier
pub mod Knobs
pub mod Packing
pub mod RandomSubset
pub mod ReversePcTable
pub mod RollingHash
pub mod RunnerResult
pub mod Serialization
pub mod WeightedDistribution
