-- ===== src/Lib.antt =====
-- Verification of the course programs. Each program stands in a folder of its own and shares no code
-- with the others; what several of them have in common is the language of a batch processor, whose
-- lines are commands and the brackets `{` and `}`.
--
-- The parts and their files:
-- - Prelude: the names, lists, numbers and texts that every module shares. `ℤ` is the type of the
--   `int` variables, over native numbers; a text is the list of its bytes.
-- - Blocks: what a batch processor promises (HW_7/README.md), with its laws for commands
--   without brackets (Blocks/Laws) and for bracketed blocks (Blocks/Nesting).
-- - Bulk: HW_7/include/taskmanager.hpp and HW_7/lib/taskmanager.cpp. `add_task`, `process_tasks`,
--   `run`, `stop` and the destructor (`finish`), whose state is the object, the text on the console
--   and the log files. Bulk/Refinement relates it to Blocks, Bulk/Sessions draws the consequences,
--   Bulk/Files is about files that cannot be opened or have the same name.
-- - Async: HW_9/lib/async.cpp, where each connection has a processor of its own and the blocks go to
--   the queues of the workers. Async/Refinement relates it to Blocks, Async/Restart is about calls
--   after the workers were stopped. Async/Workers has the three threads of `log_worker` and
--   `file_worker` as sequences of steps (`steps`), each from one wait for the mutex to the next;
--   Async/Workers/Conservation and Files are about what becomes of the tasks, Stopping and Joins about
--   workers that have ended.
-- - BulkServer: HW_10/lib/async.cpp, where the connections share one processor of static blocks.
--   BulkServer/Lines splits a buffer into lines, BulkServer/Dynamic is about the dynamic block of
--   a connection, BulkServer/Stray about a bracket that closes nothing, BulkServer/Lifecycle about
--   `connect` and `disconnect`. BulkServer/Workers has the threads of `log_worker` and
--   `file_worker` as a step relation in which a turn is two steps, one under the mutex and one
--   outside; BulkServer/Workers/Log and Files are about what they put out, Names about the names of
--   the files.
--   BulkServer/Network is a session of HW_10/include/server_p.hpp, as the calls of the library that
--   it makes.
-- - PcQueue: Project_work/include/queue.hpp, the queue of producers and consumers. Each call is an
--   operation from one point where the mutex is held to the next: a call that waits is
--   `push_impl` or `pop_impl` up to the wait, and `wake_push` or `wake_pop` after it. PcQueue/System
--   has the interleavings of all threads as a step relation; PcQueue/Fifo, PcQueue/Capacity and
--   PcQueue/Exclusion are about the states it reaches, PcQueue/Priority and PcQueue/Waiting
--   are about single calls.
-- - Database: HW_11/lib/database.cpp, the two tables of the join server. Database/Ids is about its
--   sets of ids, Database/Tables about `insert`, Database/Queries about the two queries.
-- - JoinServer: HW_11/lib/server.cpp, the sessions of the join server, which call Database.
--   What the server sends is taken as it was handed over. JoinServer/Streams reads words, numbers and lines from a stream, JoinServer/Commands is about
--   single commands, JoinServer/Chunks about the pieces that bytes arrive in.
-- - Bayan: HW_8/lib/bayan.cpp, the finder of duplicate files. Bayan/Buckets is about the maps that
--   group the files, Bayan/Hashing about the hashes of a file's blocks, Bayan/Rounds about the loop
--   over the blocks, Bayan/Duplicates about the groups that are found. Bayan/Scanner is the
--   search of directories (Ends: when it ends, Fresh: which files it gives), Bayan/Process a
--   whole run from the options to the output.
-- - MyList: HW_3/include/my_list.hpp and HW_3/include/my_allocator.hpp, on an explicit heap of nodes.
--   MyList/Cells says which heaps hold a list, MyList/Push is about `push_back`, MyList/Walk about
--   the iterator and the destructor.
-- - MapReduce: HW_12/mapper.cpp. MapReduce/Fields is about the field of a line, MapReduce/Counts
--   about the counts of the prices. MapReduce/Reduce has what the mappers print and the reducers,
--   HW_12/reducer.cpp and HW_12/reducer_variance.cpp, MapReduce/Reduce/Totals is about both together.
-- - PrintIp: HW_4/include/sfinae_ip_address.hpp, the forms of `print_ip`. PrintIp/Octets is about the
--   octets of an integer.
-- - IpFilter: HW_2/lib/ip_filter.cpp and HW_2/include/ip_filter.hpp. IpFilter/Parts is about splitting
--   and reading, IpFilter/Order about the comparison, IpFilter/Select about `filter`.
-- - Matrix: HW_6/include/matrix.hpp, the sparse matrix; Matrix/Cells has its laws, Matrix/Iteration its
--   iterators and formatters, Matrix/Visits is about what they visit.
-- - Editor: HW_5, the document, its views (Editor/Rendering) and the controllers, on a store of the
--   objects that are alive. Editor/Actions has sequences of calls, Editor/Ownership says which
--   stores hold a document, Editor/Refinement is about the calls, Editor/Views about rendering.
-- - Capture: common/capture/include/capture.hpp, the capture of a stream, with the history of the calls of
--   the system. Capture/Descriptors is about the constructor, Capture/Lifetime about the end of a
--   capture, Capture/Instance about the one instance that `Begin` and `End` (`begin` and `finish`)
--   share.
-- - Mlp: HW_13/lib/mlp.cpp. Mlp/Weights is about reading the weights, Mlp/Evaluation about the predictions
--   and the evaluations.
--
-- How the state corresponds: a class or a set of static variables is a record with the code's names,
-- and a member function takes the record and gives the new one. A `std::vector` or `std::queue`
-- is a list, a `std::map` or `std::unordered_map` an association list, an exception or a call that
-- blocks a constructor of the outcome. A handle is the address of its object, 0 the null pointer.
-- Most loops are structural recursion on their input. Five have fuel: the iterator and the destructor
-- of MyList (a round for each cell and one more), the reads of a session (a round for each byte of the
-- buffer), the recursive scan of Bayan (a round for each entry and one more, where it ends) and the
-- formatter of a matrix (a round for each cell and one more).
--
-- Parameters: the clock is read as an argument of each call, or as a function of the number of the
-- line; `std::format` of a time, the conversion to decimal text and whether a file can be opened
-- are parameters of Bulk; `std::priority_queue` is a function that takes a greatest item (`TakesTop`);
-- the address of a new object is an argument of `connect`. `std::from_chars` and the decimal text of an
-- id are parameters of Database (`Decimal`), which round-trip (`RoundTrips`); the parts of a log
-- file's name are parameters of the workers (`Disk`), whose numbers have a text that is read back and
-- has neither an underscore nor a dot (`IsDecimal`). boost::filesystem and std::regex (`FileSystem`),
-- the contents of files and the hash functions (`Reader`) are parameters of Bayan; the address from
-- `malloc` is an argument in MyList; the prices of MapReduce, their order and `std::from_chars` are a
-- parameter (`Prices`). An unordered map of Bayan is in the order in which its keys came; the theorems
-- say nothing of the order of the groups. The results of the calls of the system are parameters of
-- Capture (`Opening`, `Closing`); the numbers of HW_13, Eigen and the reading of numbers are a parameter
-- of Mlp (`Floats`), and what Eigen says of dimensions a hypothesis (`IsEigen`); the whole seconds of
-- the clock and which files can be opened are parameters of Async/Workers; the texts of numbers are
-- parameters of Editor and of the formatters of Matrix; the arithmetic of the reducers, the texts of
-- their numbers and what `>>` reads of them are a parameter of MapReduce/Reduce (`Numbers`).
--
-- Not modelled: the overflow of the `int` counters, which takes more than 2^31 lines or files; how a
-- worker thread is woken: one that waits may take its next step at any time and need not, so that a
-- theorem about the workers says what is put out, and not that they end; a batch size of
-- 0 in Bulk, which HW_7/src/main.cpp refuses; formatting and printing. What each program does with the
-- command line, the sockets of HW_10 and HW_11 but for the reads of a session, the options
-- of HW_8 and a block size of 0, the program HW_1, the arithmetic of HW_12 and HW_13
-- and the sort of HW_2.
-- The calls of one library are taken one after the other; only the worker threads and the threads at
-- a queue are interleaved.
pub mod Async
pub mod Bayan
pub mod Blocks
pub mod Bulk
pub mod BulkServer
pub mod Capture
pub mod Database
pub mod Editor
pub mod IpFilter
pub mod JoinServer
pub mod MapReduce
pub mod Matrix
pub mod Mlp
pub mod MyList
pub mod PcQueue
pub mod Prelude
pub mod PrintIp
