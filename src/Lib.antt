-- ===== src/Lib.antt =====
-- dbuscc, a C++ wrapper of libdbus, and its bundled signal library.
--
-- A client opens a connection (src/bus.cc, src/connection.cc), which owns a DBusConnection.
-- libdbus asks the connection for watches (src/watch.cc) and timeouts (src/timeout.cc), objects
-- that are counted by include/dbuscc/pointer.h and shared by libdbus, which stores one reference
-- as the data of its own object, and by the client. They report changes through signals: those of
-- include/yash.hpp, or those of tscb, which include/dbuscc/config.h selects, or of Boost.
-- src/tscb-adapter.cc connects these signals to an event loop. A method call
-- gives a pending call (src/pending-call.cc), which libdbus notifies of the reply; an error
-- reply fills an error (src/error.cc). Arguments are written and read through
-- src/message-writer.cc and src/message-reader.cc on the message objects of src/call-message.cc,
-- src/return-message.cc, src/signal-message.cc and src/error-message.cc.
--
-- Files. Base has the shared names, and Base/Outcomes the way a C++ function ends: a value, a
-- failed assertion, an exception, or undefined behaviour.
--   Signal       include/yash.hpp: signal, connection, auto_connection and callback; `emit` is
--                operator(), `destroy_auto` the destructor of auto_connection.
--                Signal/Listing is the list of slots that a signal is to its clients.
--   Pointer      include/dbuscc/pointer.h: ref_counter and the two functions on it.
--   Watch        src/watch.cc: watch::fd, enabled, flags, handle; `create` is the constructor with
--                the watch_ptr that glue::watch::create returns; toggled, removed and unref are
--                the functions that libdbus calls.
--   Timeout      src/timeout.cc, in the same way.
--   Error        src/error.cc: error::type, name, message, is_set.
--   PendingCall  src/pending-call.cc: pending_call::notify, cancel, constructor and destructor.
--   Message      the message classes; Message/Reader and Message/Writer have the pops and pushes.
--   Connection   src/connection.cc: call, send, close, install_handlers, dispatch;
--                Connection/Sources has add_watch and add_timeout, which libdbus calls.
--   Adapter      src/tscb-adapter.cc: on_watch_add, on_watch_change, on_watch_remove,
--                on_io_ready and the posted functions; Adapter/Timer has the same for timeouts, with
--                on_timer; Adapter/Dispatch has do_dispatch and the constructor; Adapter/Destroy
--                the connections to the signals of the connection, and the destructor;
--                Adapter/Sync has the calls of libdbus and of the reactor in any order, as a step
--                relation; Adapter/Own has them with the counted pointers that are held.
--   Bus          src/bus.cc: the two overloads of open are open_address and open_bus, those of
--                open_private are open_private_address and open_private_bus.
--   Names        src/bus-name.cc, src/object-path.cc, src/interface.cc and src/member.cc, which
--                differ in the function that validates, and src/signature.cc.
-- A file of the same name with a folder has child modules for proofs, and Tests for the runs.
--
-- Parameters. libdbus is external: each component takes a record of the functions that it calls,
-- with the documented behaviour that it relies on as fields (WatchApi, TimeoutApi, ErrorApi,
-- PendingApi, MessageApi, ConnectionApi, BusApi, ValidateApi, and SignalApi for tscb). The slots of
-- clients are the argument `fire`, or `run` of a signal. The test modules instantiate every
-- parameter.
--
-- State is passed explicitly. Objects lie in a store, a function from addresses, with none for
-- what is freed; addresses are not reused. Assertions fail, as the Makefile does not define
-- NDEBUG. The counter of pointer.h wraps modulo 2 ^ 32. Invocations of a signal recurse on the
-- list of callbacks that was copied at their start. Only the loop of the reactor in
-- Adapter/Dispatch, `run`, takes a bound, the number of posted calls that it may run: the messages
-- that are queued and the calls that are posted are enough.
--
-- Not modelled: the memory orders and the fence of pointer.h, as the interleavings of
-- Pointer/Threads are sequentially consistent; stream output (print, trace.h); and the mock objects, the tests and the example,
-- which have no logic of the library. tscb and Boost are external: of the reactor the model keeps
-- what was posted, and what is watched and timed. call_slots, fire, run_posted and run in Adapter
-- are no code of this repository: they state that a signal calls its slots in the order in which
-- they were connected, and that the reactor runs what was posted one by one and in order.
pub mod Base
pub mod Signal
pub mod Pointer
pub mod Watch
pub mod Error
pub mod PendingCall
pub mod Timeout
pub mod Message
pub mod Connection
pub mod Bus
pub mod Adapter
pub mod Names
