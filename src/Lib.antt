-- ===== src/Lib.antt =====
-- Mosito, a parallel query engine: its data structures and its parse trees.
--
-- The program. Operators of a query plan hand tuples to each other in blocks (src/common/m_buffer.cpp),
-- whose layout a schema describes (src/common/m_schema.cpp). Threads and nodes pass the blocks on
-- through the queues of a PCBuffer (src/common/m_pc_buffer.cpp, src/common/m_circle_queue.h). External
-- sorting keeps tuple pointers in a heap under a comparator (src/common/m_trees.cpp). The SQL parser
-- makes its tree by the functions of src/sql/function.cpp.
--
-- The files.
--   Base: names and lemmas that all files share. Base/Bytes is memory as a list of bytes, with the
--     little-endian words that the code reads through cast pointers.
--   Buffer: Block, FlexBlock, PersistFlexBlock and BufferIterator of m_buffer.cpp, under the names of
--     their methods. A block is its memory, its size, and `free_ - start_` as an offset; pointers into
--     it are offsets, `unsigned` wraps at 2 ^ 32; sizes that `build` and `assembling` take as int are
--     below 2 ^ 31, and `realloc` succeeds, as the code expects. Buffer/Layout and Buffer/Page say where the tuples
--     lie, Buffer/Roundtrip, Buffer/Flex and Buffer/Range are about whole pages, growing blocks and
--     the placement of a block among bounds.
--   Queue: BlockCircleQueue, and `put` and `get` of PCBuffer. A call runs under the queue's lock and is
--     one step; what other threads do in each gap between two attempts is a parameter. Queue/Fifo has the
--     specification of a bounded queue, Queue/Run sequences of calls, Queue/Retry the attempts.
--   Ring: CircleQueue, a ring of linked nodes, and how the thread pools of src/common/m_thread_pool.cpp
--     add and take tasks under their lock. Ring/Slots is about the nodes from a place on, Ring/Fifo,
--     Ring/Push and Ring/Pop about the ring as a queue, Ring/Pool about the pool.
--   Heap: `heap_again` and `heap_sort` of m_trees.cpp over any type of tuples and any comparison.
--     Heap/Sift is one round, Heap/Again the loops, Heap/Same the tuples that are there, Heap/Window
--     those of the heap's part of the array, and Heap/Rounds a proof rule for the loops.
--   Runs: `init_phase`, `heap_adjust` and `cleanup` of m_trees.cpp, which write ascending runs. A file is
--     the list of its tuples. Runs/Init, Runs/Adjust and Runs/Cleanup are about one of them each,
--     Runs/Held about the tuples that are there, Runs/Branches about the cases of `heap_adjust`.
--   LoserTree: LoserTree of src/common/m_trees.h and m_trees.cpp. LoserTree/Won says what a played part of
--     the tournament is; LoserTree/Above is about the shape of the tree, LoserTree/Places about where the
--     players stand in it, LoserTree/Rising about the loop of `play`. LoserTree/Turns, LoserTree/Done,
--     LoserTree/Levels and LoserTree/Initialize are about `initialize`, which is seen as one turn for each player,
--     LoserTree/Replay about `replay`, with LoserTree/Climb for its loop and LoserTree/Children for the two
--     children of a node. A loop that halves a node has as many rounds as its number.
--   SortedBuffer: `get_sorted` of src/common/m_pc_buffer.cpp with the comparator CompareTemp. A column is
--     the list of the pages that come through its queue, so that a wait ends with the next of them, and
--     one with no page left never ends. SortedBuffer/Emits is a merge without the tournament,
--     SortedBuffer/Merging the state of a merge, SortedBuffer/Pull and SortedBuffer/Rounds are about a
--     round, SortedBuffer/Pages and SortedBuffer/Gathered about pages, SortedBuffer/Merged about a merge
--     from its first call on. What the caller's block held before is an argument of `get_sorted`.
--   Matching: `find` and `LM` of src/analysis/m_km.cpp on any graph below MAXN. Matching/Calls is the recursion of
--     `find` as a relation, Matching/Fuel says that the function follows it, Matching/Keeps and
--     Matching/Closed what a call leaves, Matching/Matched is about matchings alone, Matching/Largest
--     about the loop of `LM`.
--   Page: a page of BLOCK_SIZE bytes as the list of its tuples, for the parts that fill whole pages: how many
--     fit, and what a reader gets after `assembling` (m_buffer.cpp) has written the count.
--   Configuration: the constants of src/common/m_configuration.h that several parts use.
--   Sort: `prelude` and `execute` of src/physical/m_sort.cpp. `stable_sort` is a parameter; a page is the
--     list of its tuples, and a range is held from its end. In every round of the loop in `execute` a
--     tuple is stored or one of the four ranges is passed, which bounds its fuel. Sort/Ranges says what
--     lands in which range, Sort/Ascending what a sorted range is, Sort/Remaining what is left to give
--     out, Sort/Output what one call of `execute` stores and Sort/Calls what all of them give, Sort/Parts what the sorted ranges are together, Sort/Sorted puts these together, Sort/Undefined is about keys
--     without a range, Sort/Routed about the tuples that the lower shuffle sends to a node.
--   Scan: Scan of src/physical/m_scan.cpp over the map of src/storage/m_memory_store.h, as it is built for
--     a single node. Scan/Reads is about the blocks that are read, Scan/Pages about a scan.
--   Project: the execute of src/physical/m_project.cpp. No count is written into
--     its block; Project/Pages says what the calls store.
--   Shuffle: ShuffleLower1 of src/physical/m_shuffle_lower1.cpp. A page is the list of its tuples, and a
--     put is one that has succeeded. Shuffle/Chunks and Shuffle/Puts are about the pages of one range,
--     Shuffle/Columns about its column, Shuffle/Step about one tuple, Shuffle/Routes about all of them. A division by zero and a column that is not there are `none`.
--   Barrier: Barrier of src/common/m_synchronize.cpp, whose waits may end without a broadcast.
--   Histogram: src/analysis/m_histogram.cpp, by one thread and by CPU_CORE threads whose increments come in
--     any order. Histogram/Threads compares the two.
--   Register: how workers register with the coordinator of src/deploy/m_coordinator.cpp and try to
--     connect to each other, as in src/deploy/m_worker.h. Register/Mesh has the steps of a cluster.
--   Schema: Schema, the column types and Comparator. Schema/Offsets is the layout, Schema/Keys the
--     order that the comparator computes, Schema/Order the laws by which it fits the heap.
--   Smart: SmartPtr of src/common/m_smart_ptr.h over a store of counters. Smart/Counts is the invariant,
--     Smart/Calls sequences of calls.
--   Strategy: ParStrategy of src/analysis/m_par_strategy.cpp, for any arrays and number of parts.
--     Strategy/Scan is the innermost loop, Strategy/Best the whole table.
--   Sql: sql_node_struct.h and function.cpp. Sql/Nodes has a record for each struct, Sql/Arena the store
--     of nodes with `malloc` and the registry NodePointer, Sql/Select1, Sql/Select2, Sql/Ddl1 and
--     Sql/Ddl2 the allocating functions, Sql/Statements the list of statements and FreeAllNode, and
--     Sql/Literal GetCorrectString.
--   Tests: concrete inputs.
--
-- Parameters. The allocator of the C library is a record of `malloc` and `realloc` with their documented
-- laws. `stable_sort` does what C++ promises for a strict weak order. The actor library delivers a
-- message at most once, at any time, or loses it, and connects or does not. Memory that the program reads before it
-- writes it is an argument (`junk`).
--
-- Fuel. `drain`, every `gather`, `store_tuple_ok` and `add_into_thread_pool` take fuel; the
-- theorems name how much is enough. `heap_again` runs `heap_again_from` on `len`, since the index grows in every round. `find` has
-- `n + 2`, since every call of itself comes with one more of `n + 1` places marked.
-- `prelude` reads with the length of the file. `correct_from` has the length of the
-- text. `put` and `get` make eleven attempts.
-- A page of the sort is filled with a round for each tuple that it has room for and each range, and one
-- more. `play` and `replay` have as many rounds as the number of the node, the loops of `initialize`
-- as many as there are players.
--
-- Not modelled: the generated lexer and grammar, the printing of trees, sockets, threads and the
-- network, the other physical operators, the bounds of the histograms,
-- and the third-party libraries.
pub mod Base
pub mod Barrier
pub mod Buffer
pub mod Configuration
pub mod Heap
pub mod Histogram
pub mod LoserTree
pub mod Matching
pub mod Page
pub mod Project
pub mod Queue
pub mod Register
pub mod Ring
pub mod Runs
pub mod Scan
pub mod Schema
pub mod Shuffle
pub mod Smart
pub mod Sort
pub mod SortedBuffer
pub mod Sql
pub mod Strategy
pub mod Tests
