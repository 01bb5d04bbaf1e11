-- ===== src/Lib.antt =====
-- A verification of linber, a driver module of the linux kernel by which clients send requests to
-- services, and services serve them with worker processes under a deadline.
--
-- The parts of the program and their models:
--   * driver/src/linber_RBtree.c keeps the pending requests of a service in a tree of deadlines,
--     with a queue at each, and the services in a tree of uris. Requests.antt has its functions on
--     requests (insert_req_node_sorted_by_deadline, remove_first_request, rbtree_get_request), and
--     Services.antt those on services (insert_service_node, get_service_node, remove_service,
--     remove_first_service). Their loops from the root are Tree.descend or a recursion on the tree.
--   * linux/rbtree.h is not in the repository. Tree.Rbtree says what its functions promise of the
--     sorted sequence of nodes; every theorem holds of any functions that keep this, and Tree.Plain
--     shows that it can be kept.
--   * driver/inc/linber_types.h and driver/inc/linber_RBtree.h are the records of Types.antt.
--   * driver/linber_main.c is Driver: Kernel has its memory and the calls of the kernel, Params the
--     codes and parameters of libs/inc/linber_ioctl.h, Pending the requests of a service, Lifecycle
--     the services, Workers the workers' slots, Dispatch the scheduling policy, Client, Jobs and
--     Status the ioctl operations, Ioctl their dispatcher and Module the state of a module just
--     loaded and its unloading, DeviceFile its loading and the functions of the device file. Steps
--     has what the helpers come to where they succeed, Exchange the states of one request through
--     the calls of both sides, and System what holds of the memory under any calls in any order:
--     System.Reach has the steps of the processes, and Quiet the call that writes no word of user
--     memory. A function keeps its name in snake case; a
--     longer one is cut into the parts that its comments name.
--   * libs/src/linber_service_api.c is the user library: Api has the parameters that its functions
--     for clients and for registration send, Api.Process the process that calls it and its system
--     calls, Device ioctl_send, Shm shared memory, Client the functions of a client and Worker those
--     of a server and its workers. Connection, Response, WorkerFile, Words and Send are about them.
--   * libs/src/linberServiceClient.cpp and linberServiceWorker.cpp are ServiceClient and
--     ServiceWorker, with libs/inc/linberServiceClient.h and linberServiceWorker.h.
--
-- How the parts interact: an ioctl call is Driver.Ioctl.linber_ioctl. It copies the parameters,
-- finds the service in the tree of uris, and works on the service and its requests through the tree
-- of deadlines, the workers' slots and the list of completed requests. A client that waits and a
-- worker that waits sleep on semaphores, which the other side raises; a semaphore that is up is
-- lowered without sleeping.
--
-- State: requests, services and buffers live at addresses of a heap and hold one another's
-- addresses, so that sharing and dangling pointers are modelled. A handler is a function from the
-- state to a run: it returns, it meets a bad pointer (`oops`), it never ends (`hang`), or it sleeps
-- on a semaphore that is down and says how it goes on when woken (`sleep`), by an `up` or by a
-- signal. To free what is not allocated is a bad pointer too. What the
-- world answers (kmalloc, copies from and to user space, random numbers, the clock, sched_setattr)
-- is the record Driver.Kernel.Env, an argument. A process of the user library has such a state and
-- its own memory, a descriptor and files; its run returns, is stopped by a bad pointer (`segv`) or
-- goes the way of the handler that it calls, and Api.Process.Os is what the system answers it.
--
-- Bounds and fuel: unsigned arithmetic wraps around as written (Words). The search for a request
-- runs on fuel; its theorem says that one round more than the tree's height decides whether it ever
-- ends. The loop that aborts the pending requests has one round for each of them and one more, and
-- the loop that empties the tree of services one for each service and one more.
--
-- Not modelled: interleavings finer than from one sleep of a task to the next (the mutexes are
-- kept, and a task that takes one it holds hangs); the unregistration of the device file; printk;
-- of the library libs/ the permissions of shared memory, the start and end of threads, and that
-- another open of the process may get the number of a descriptor that ioctl_send has closed; the
-- programs of test/.
pub mod Prelude
pub mod Words
pub mod Strings
pub mod Tree
pub mod Types
pub mod Requests
pub mod Services
pub mod Driver
pub mod Api
pub mod ServiceClient
pub mod ServiceWorker
