-- ===== src/Lib.antt =====
-- LiveUpdate: updates a running IncludeOS kernel in place. A service stores its state in an area of the
-- memory, the new kernel is copied over the old one and started, and the new service resumes the state.
--
-- The parts, and the files that model them (paths in the repository):
--   Memory       the machine's memory: a byte at every address, reads and writes of C integers and of
--                runs of bytes as on x86_64
--   Machine      outcomes: a value, an exception, an abort, a loop whose fuel ran out
--   Entry        storage_entry of storage.hpp, storage.cpp
--   Storage      storage_header of storage.hpp, storage.cpp: the area, its entries, its checksum
--   Restore      struct Restore of liveupdate.hpp, resume.cpp: the readers and the moves of a handler;
--                Restore/Programs a handler as a program of these calls
--   World        the library's global variables, and what the operating system does for it
--   Resume       resume.cpp: the registry of handlers, the loop over the entries, `resume`; Resume/Items
--                the loop over the list of the items
--   Hotswap      hotswap.cpp and hotswap64.asm: the copy and the jump; Hotswap/Program the instructions, for
--                the processor of Hotswap/Processor
--   Update       update.cpp: class Storage, `store`; Update/Elf the headers of the blob (with the structs
--                of elf.h), Update/Begin `LiveUpdate::begin`, Update/Templates the templates of liveupdate.hpp
--   Rollback     rollback.cpp: the rollback blob, `rollback_now`
--   Tcp          serialize_tcp.hpp, serialize_tcp.cpp: the codes of the TCP states, the write queue, the read
--                buffer; Tcp/Connections the connection
--   LiveUpdate   struct LiveUpdate of liveupdate.hpp: the interface, its laws, and the library as an instance
--   Server       server.hpp: the blobs that a server collects
--   Service      service.cpp, common.hpp: the test service and its servers
--   Verify       verify.cpp: the client that checks what the service's terminal sends
--   TestAll      test_all.cpp: what the test service stores and how it resumes it
--   TestBoot     test_boot.cpp: the service that updates itself until it has 30 samples
--   TestTcp      test_tcp.cpp: a TCP flow that is moved by an update
--   HwTimer      hw_timer.hpp: a timer of cycles
--   Examples     concrete areas, memories and worlds
--
-- How they interact. `begin` tests the address and the blob, lets the service's callback append entries
-- to the area (Storage, through Update), seals it, and hands over to `hotswap64`. The new kernel's
-- `resume` validates the area, gives each entry to the handler that is registered for its id, or to the
-- default one, and clears the area. A handler reads and moves through Restore. The service's servers
-- collect a blob from a connection, and give it to `begin` or to `rollback_now`; the service takes the
-- library as an instance of the interface in LiveUpdate.
--
-- How state is modelled. The area is never more than bytes: an operation takes the memory and returns
-- it, with the offsets of x86_64, and integers wrap at their widths. Storage/Items gives the abstract
-- view, a list of items; the theorems relate each operation to it. A function that may throw returns an
-- outcome with the memory or the world. The loops of `resume_begin`, `pop_marker` and `cancel` run over
-- entries in the memory and are given fuel; more fuel than there are entries is enough. Handlers and
-- callbacks are functions on the world; some resume theorems ask that the handlers do what an abstract step
-- function says, others take handlers that are programs of calls of class Restore, of which a run on the
-- memory and a run on the list of items are given. A server is a step relation over the network's events.
--
-- Parameters: `crc32_fast` (with a result below 2 ^ 32), and of IncludeOS the flush of the devices, the
-- soft-reset data, the allocator, the bounds of the kernel, the code at `hotswap64` and where its labels
-- are, the version of the TCP connections, their `sendq_size` and the layout of `serialized_tcp`. The
-- serializer that `add_connection` calls is an argument; the theorems on callbacks ask that the bytes it
-- leaves depend on what stood at the place of the payload and on nothing else, and Update/Connections gives
-- it that of Tcp/Connections. In Verify, `crc32` of util/crc32.hpp, of which a checksum can be taken in
-- parts, and what `read` gives; in Service, the test that the service begins with; in TestAll and TestBoot,
-- the clock, the text of a message, `std::sort`, and which connections are connected.
--
-- Not modelled: printing; the table of TCP connections, and the object that a connection is in memory;
-- that `hotswap64` writes two cells in its own code and the stack is left out where `begin` calls it;
-- unmapped memory and running out of it while copying; the solo5 platform and 32-bit builds of
-- `begin`; the checks under VERIFY_MEMORY, which are off; sockets and the set-up of the network; the
-- callbacks of the terminals of test_all.cpp; the measurements, timers, callbacks and servers of test_tcp.cpp.
pub mod Base
pub mod Memory
pub mod LiveUpdate
pub mod Machine
pub mod Entry
pub mod Storage
pub mod Restore
pub mod World
pub mod Resume
pub mod Hotswap
pub mod HwTimer
pub mod Update
pub mod Verify
pub mod Rollback
pub mod Server
pub mod Service
pub mod Tcp
pub mod TestAll
pub mod TestBoot
pub mod TestTcp
pub mod Examples
