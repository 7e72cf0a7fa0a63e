-- ===== src/Lib.antt =====
-- Verification library of LogxControll, a run-time for circuits of gates that signals connect.
--
-- The parts that are modelled, from the bottom up:
--
-- * core/utils/utils.c, the arrays. Arrays (Arrays/Nt, Arrays/Fix, Arrays/Pnt) models the three
--   families array_nt_*, array_fix_* and array_pnt_* by a function with the name of the C function.
--   A `void**` is an optional list of pointers, none for NULL. What `realloc` leaves in new cells
--   is an argument, `junk`.
-- * core/utils/utils.c, the queue. Queue models queue_add_element and the three functions that take
--   an element out, over a memory of `prev` and `next` links that all queues share.
-- * core/utils/rerunnable_thread.c. Rerun has the shared record, one function per request
--   (rrt_start, rrt_try_rerun_if_free, rrt_graceful_shutdown, ...), and executor_function cut into
--   steps at the points where it takes or gives back a lock. Rerun/Steps composes them to the
--   interleavings. In `Pooled` the executor's callback waits for the lock of its pool, which a
--   request holds until its notification is sent; in `Free` nothing holds it up. The wait on
--   the condition may return without a notification, as POSIX allows, in the states that a further
--   parameter names: at any time, while the thread is not idle, or never.
-- * core/utils/worker_pool.c. Pool has the pool of two queues, free and busy, of such threads:
--   wp_submit_task, on_release, wp_shutdown, wp_wait_exit, wp_destroy. It uses Queue and Rerun.
-- * core/builtins/gate_generic.c, struct lxc_port_manager. Ports has the registration of ports and
--   the lookup by signal type; Ports/Access the functions that read a manager, wire a port and read
--   an array of wires.
-- * core/accounting.c. Registry has the registries of signals, gate behaviors and constants, packed
--   arrays of Arrays/Pnt, with the search by name; Registry/Tree the library tree of the gates;
--   Registry/Structs and Registry/Conversions the struct types and the conversion functions;
--   Registry/Load lxc_load_library, which reports to a fixed array of Arrays/Fix. The objects are
--   pointers whose names and paths are a record of functions. A node of the tree stands with the
--   node behind it in the array, which is how an array of nodes is read.
-- * core/facet.c lxc_refdiff_value and core/utils/lxc_utils.c lxc_import_new_value, lxc_wipe_value.
--   Values has the count of every value and the values freed so far; a place that holds values is
--   an argument and a result. Values/Generic creates, clones and measures the generic values of
--   core/builtins/gate_generic.c.
-- * core/lxc_execution.c, lxc_execution_loopbreaker. Execution has its queue of tasks as a list. The
--   execution of a gate is a parameter: a course of submitted tasks and changes of the world.
--
-- * core/facet.c, wires. Wires has the wires, their tokenports and remove_port over a world of
--   pointers; Wires/Wiring private_generic_wiring and the two functions that call it; Wires/Drive
--   the writing of a value with its hooks. The functions of a behavior are a record of functions,
--   PortAccess, and Wires/Laws states what the wiring relies on in them. Wires/Queries asks a gate
--   for its ports and their labels; Wires/Hooks registers the hooks of a wire.
-- * core/builtins/gate_generic.c, gates. PortGates has the gates "portb" and "porti", whose ports are
--   those of Ports: the first is another instance of PortAccess, as PortGates/Laws shows.
--   Properties has the property managers and the prototypes of the behaviors; the validators of
--   properties are a parameter.
-- * core/builtins/functional_wrapper.c and core/utils/lxc_utils.c. Functional has the gates that wrap a
--   function, which is a parameter, on the gates of PortGates, and the reads of tokenports.
-- * arithmetic/lxc_bool_gates.c. BoolGates has the ports of the boolean gates, an instance of
--   PortAccess, and BoolGates/Logic their functions and their execution.
-- * core/facet.c, circuits. Circuits has the wires and gates of a circuit by their names, in a hash map
--   that is a parameter, and the release of the ports of a gate; Circuits/Together
--   lxc_circuit_wire_ports_together, which uses Wires for the rest.
--
-- Base has the shared names, lists and integers over the native numbers, and the memory helpers. A
-- pointer is a natural number, and NULL is 0. `none` as a result is an access outside of an array or
-- through NULL. The modules of Tests run the operations on small inputs.
--
-- Bounds and fuel: loops over an array recurse on its list or on the tracked number of cells, so no
-- fuel is chosen. The walks over a queue in wp_shutdown and wp_wait_exit recurse on fuel, and give
-- none where it does not reach the end; a walk takes one round for each thread in its queue. The loop
-- breaker runs on fuel as well, one round for each task; its result is stated for enough fuel. The
-- 149 rounds of rrt_graceful_shutdown are those of the source. Sizes and indices are natural numbers;
-- only the `(int)` cast of an index in array_pnt_pop_element is written out, since it decides a
-- branch. Allocation does not fail.
--
-- Not modelled: freeing of memory, printing, the primitives of the operating system for locks and
-- threads (their outcomes are arguments), rrt_poll_wait_exit, lxc_port_remove_port,
-- the shared libraries and workspaces of core/accounting.c, and the parts
-- above these: the destruction of circuits of core/facet.c, the delayed tasks of
-- core/lxc_execution.c, core/build.c and the bindings.
pub mod Base
pub mod Arrays
pub mod Queue
pub mod Rerun
pub mod Pool
pub mod Ports
pub mod Registry
pub mod Values
pub mod Execution
pub mod Wires
pub mod BoolGates
pub mod Circuits
pub mod PortGates
pub mod Properties
pub mod Functional
mod Tests
