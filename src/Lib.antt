-- ===== src/Lib.antt =====
-- goods_db: a MySQL-like database server in C++ (goods_db/src). SQL statements are parsed, planned
-- and executed over table heaps and indexes; tuples lie in pages; a buffer pool holds pages of
-- files in frames and asks a replacement policy for victims; a disk manager keeps the files. Lock
-- manager and transaction manager stand beside the executor.
--
-- The state of a component is a record, an operation is a function from the state and its
-- arguments to the new state and the result, a pin count is taken not to reach 2^31, `Option`
-- stands for a null pointer, an invalid id or `false`. Operations that the C++ runs under a mutex
-- are one step here. Memory is a function from offsets to bytes (Prelude.Bytes), maps are
-- association lists (Prelude.Assoc), and unsigned integers are natural numbers with their
-- wrap-around written out where the code can reach it.
--
-- Buffer/Replacer.antt: the interface `Replacer` of goods_db/src/include/buffer/replacer.h with
-- the laws that the pool relies on; Buffer/Replacer/Calls.antt has the histories of its calls, and
-- Buffer/Pinned.antt takes them to both policies.
-- Buffer/Clock.antt: `ClockReplacer` (buffer/clock_replacer.cpp); `sweep` is the loop of `Victim`,
-- with the rounds left in place of the counter. Its children prove the invariant, what a sweep
-- changes, and that it implements `Replacer`.
-- Buffer/LruK.antt: `LRUKReplacer` (buffer/lru_k_replacer.cpp), likewise. Timestamps are taken not
-- to reach 2^64.
-- Buffer/Pool.antt: `BufferPoolManager` (buffer/buffer_pool_manager.cpp) over any `Replacer` and
-- any `Store`. The pointer that `FetchPage` returns is the frame. Children: the invariant (Valid,
-- Frames), what a page reads as (Content, Load, Fetch), when a page is refused (Refusal), the
-- calls of clients (Unpin, NewFrame, Client, FlushEntry, Flush, and Durable for the files of the
-- disk manager), and histories (Run).
-- Buffer/Guards.antt: `ReadPageGuard` and `WritePageGuard` (buffer/page_guard.cpp) without their
-- latches. Children: the pins that each call adds or takes (Pins), and that guards account for all
-- of them (Balance).
-- Disk/Store.antt: what the pool uses of `DiskManager`, as an interface with laws;
-- Disk/Manager.antt is `DiskManager` itself (storage/disk/disk_manager.cpp),
-- Disk/Manager/Pages.antt says what a file holds, Disk/Manager/AsStore.antt proves that the
-- manager satisfies the interface, Disk/Manager/Files.antt creates, opens and closes files, with
-- their ids (Ids, and Once with the paths of the file system) and the first page of a new one
-- (Created), and Disk/Manager/Free.antt and Disk/Manager/Chain.antt treat the chain of free pages.
-- A stream is a model of `std::fstream` on whole pages with its fail bit.
-- Sql/Locks.antt: `LockManager` (sql/lock_manager.cpp). A call that waits is a call that returns
-- `waiting` and a later `wake_table` or `time_out_table`. Children: what the modes mean (Modes),
-- the entry of a table (Table), what it says of the modes that are held (Agrees), who holds it in
-- any history (Holders), which requests are granted while nobody unlocks (First), row locks
-- (Rows), what is recorded for the end of a transaction (Bulk), and the search for deadlocks
-- (Deadlock), with the graph of waits (Edges), the search on any graph (Whites, Search), the loop
-- over the map (Loop) and what its answer means (Cycles). The modes stand in Sql/Locks/Mode.antt.
-- The calls of `LockRow` and `UnlockRow` pass the transaction id 0, as the code does. Whether the
-- hash map of the waits rehashes when a key is added is an argument of the search.
-- Sql/Transactions.antt: `TransactionManager` (sql/transaction_manager.cpp). Children: what each
-- call leaves alone (Frame), the counters (Books, Accounts), savepoints (Savepoints), ids over a
-- restart (Xids).
-- Storage/TablePage.antt: `TablePage` (storage/page/table_page.cpp) over the bytes of a page, at
-- the offsets of the C++. Children: which bytes a write changes (Slots), the invariant (Valid),
-- insertion (Insert, Client), deletion (Delete, Shift, Apply) and the updates in place (Update)
-- and of larger tuples (Moved), and the links to the neighbours (Links). A page has room for 4090
-- slots; the loops over slots count in an `int16_t`, and the model does not follow them past
-- 32767, nor a write that leaves the 16384 bytes of the page.
-- Types/Schema.antt: `Schema` (type/schema.cpp), with byte strings in Types/Encoding.antt.
-- Children: reading back what was written (RoundTrip) and columns by name (Columns).
-- Types/Timestamp.antt: the calendar of type/value.cpp, with its loops (Years, Months) and the way
-- back (RoundTrip). Types/Value.antt: values and their stored form (type/value.cpp), which Stored
-- reads back; Types/Value/Compare.antt is their comparison over a record of what double arithmetic
-- gives, with its proofs in Total and Chain.
-- Storage/Tuple.antt: `Tuple` (storage/table/tuple.cpp), rows as bytes over a record of what the
-- standard library makes of texts and doubles. Children: the null bitmap (Nulls), what the loops
-- write (Columns), where it lies (Areas, Layout) and what `GetValue` reads (Places, RoundTrip).
-- Storage/TableHeap.antt: `TableHeap` (storage/table/table_heap.cpp) over a buffer pool;
-- Buffer/Pool/Visit.antt is the way it uses a page, Buffer/Pool/NewPage.antt what a new page
-- leaves alone, and Disk/Manager/Spare.antt what an allocation leaves alone. Children: rows of a
-- page (Rows), the chain (Chain) and the loop over it (Search), the new page (NewPage, Fill,
-- Append), insertion (Insert), reading and deleting (Client).
-- Storage/TableIterator.antt: `TableIterator` (storage/table/table_iterator.cpp). Children: the
-- rows of a page (Slots), where the iterator is (Scan) and where a step takes it (Steps), and the
-- loop of a client (Rows).
-- Sql/Protocol.antt: `ProtocolBinary` (sql/protocol/protocol_binary.cpp) and the packet header
-- (sql/protocol/protocol.cpp). Children: a reader of the format that the header file describes
-- (Wire), rows (Values) and responses (Packets).
-- Each component has its witnesses and runs in a module Tests. The loops go over lists or count
-- down, but for these that take fuel: the loop over years of `FormatTimestamp`, where a day more
-- than the days left is enough, since a year has at least one, and the year itself stops where an
-- `int` would overflow, and the loops over the chain of a table, where one more than the pages of
-- the chain is; a scan, and Count, take one more than the rows as well. The search for deadlocks
-- takes the number of ends of edges and of nodes that wait, since each level of the recursion
-- colours a white node.
-- Not modelled: the indexes, the catalog, accounts and privileges, the binary log, the text
-- protocol and the optimizer; the parser, the binder, the planner and the executors, which
-- translate trees and hold little state of their own; sockets and threads; configuration; the copy
-- of BusTub under bustub, which is another project; the studio client.
pub mod Prelude
pub mod Buffer
pub mod Disk
pub mod Sql
pub mod Storage
pub mod Types
