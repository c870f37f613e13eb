-- ===== src/Lib.antt =====
-- A chat system: a server with chat rooms, clients that send, and clients that receive.
--
-- A message is a tag and data, one line `tag:data` on a socket. `Connection` (connection.cpp)
-- encodes and decodes it over the robust I/O of csapp.c. The server (server.cpp) runs a thread for
-- each client: a sender's thread answers each request and broadcasts texts in the room (room.cpp)
-- of its user (user.h); a broadcast puts a message on the queue (message_queue.cpp) of every
-- other member.
--
-- The files:
--   Prelude, Outcome: shared names, lists, tests; how a run can end (a value, undefined behaviour,
--     `exit`, or the bound on a loop's rounds met).
--   Text: `std::string` and C strings as lists of bytes: `str_eq`, `c_str`, and the
--     `std::getline` loop, whose bound on rounds, the length of the text, is enough by
--     `getline_loop_enough` of Text/Split.
--   Message: message.h. The field `data` is called `payload`, since `data` is a keyword.
--   Csapp: the functions of csapp.c that are called, as a parameter, and what their documentation
--     promises, as the hypotheses `Documented`; Csapp/Lines has the lines that they hand out.
--   Connection: connection.h and connection.cpp. `receive` is split where `rio_readlineb` has
--     returned: `received` is the rest, `divide_data` the method, `store_data` the end.
--     Connection/Send, Receive, RoundTrip, Faults and LongLines have the theorems.
--   MessageQueue: message_queue.cpp, each method alone; MessageQueue/Threads: the same methods as
--     the steps of interleaved threads, with the lock of guard.h and the semaphore;
--     MessageQueue/Safety, Progress and Fifo have the theorems.
--   User: user.h. Room: room.cpp, with Room/Members, Newline and Broadcast.
--   Server: `find_or_create_room` of server.cpp and the shared store; Server/Rooms: its theorems;
--     Server/Chat: `chat_with_sender`, one function for each branch of its loop; Server/Membership
--     and Server/Session: who is in which room; Server/Replies and Server/Script: the loop on the
--     wire. Server/Spec: the chat by names, without pointers and orders, and what each request does
--     to it. Server/Threads: the clients' threads as interleaved acts on one store; Effects, Fits
--     and Acts have what one act does, Reachable, Progress, History and Delivery the
--     theorems; Sessions, Senders, Receivers, Embedding and Workers relate the acts to
--     Server/Chat, Server/Receiver and Server/Login.
--     Server/Locks: the same threads with the locks of the server, the rooms and the queues, and
--     the semaphores, one access at a time. Owners, Loops, Guarding, Races, Counts and Waiting have
--     what holds of the locks, the broadcasts and the queues; Moving and Progress, that some thread
--     goes on, Finishing and Settling, to the end of its call;
--     Alike, Following, Owed, Shows, Steady, Quiet, Told, Starting, Delivering, Broadcasting and
--     Draining lead to Refines, which relates each step, with what is sent and received by History,
--     to Server/Threads, and to Delivered; Undisturbed and Serial lead back.
--     Server/Receiver: `chat_with_receiver`; Server/Admission and Server/Draining: its join and
--     its loop.
--     Server/Login: from the thread's `worker` to the chat; Server/Entry: its theorems, and
--     Server/Visit for a client's whole thread.
--     Server/Listen: the listening part of server.cpp and server_main.cpp; Server/Accepting
--     and Server/Started: its theorems.
--   Client: what sender.cpp and receiver.cpp share. Client/Sender: sender.cpp, with Requests and
--     Commands, and Play for a session; Client/Receiver: receiver.cpp, with Split and Printing,
--     and Feed for a sequence of broadcasts; Client/Visit and Client/Follow: the two programs from
--     start to end; Client/Trim: client_util.cpp, with Trimmed. Connection/Deliveries has the lines
--     that both ends know.
--   Joined: a client and the thread that serves it, each reading what the other writes; Senders for
--     sender.cpp, Receivers for receiver.cpp.
--   Draft: sev.cpp, an earlier server that the Makefile does not build, with Draft/Listen; its
--     names say `draft` where server.cpp has the same function. Draft/Compare: the two compared.
--   Text/Decimal: `std::to_string` and `std::stoi` for port numbers.
--   Tests: a small implementation of the parameter, test runs, and each theorem at an example.
--
-- Pointers are indices: rooms and users are never freed, so a `Room *` is an index into the list
-- of all rooms and a `User *` into that of all users; null is `none`, and following it is
-- `undefined`. A `std::set<User *>` is an ordered list, a `std::map` an association list. A method
-- that holds a lock throughout is one step; between the steps of a session the store is an
-- argument. In Server/Threads each call of a method of a room, of the server or of a queue is one
-- act; Server/Locks has the steps inside the methods, where a mutex is a Boolean, a thread waits
-- while it is true, and the members that a range-based for has still to visit are a list.
-- `member_exists`, which takes no lock, is one step in both. Only the thread of its user dequeues
-- from a queue; MessageQueue/Threads has one queue with any threads. `sender_loop`, `receiver_loop`
-- and `command_loop` take a bound on their rounds, and say `unfinished` past it; a loop that never
-- returns in the source (`handle_client_requests`, `print_loop`) is taken for a number of rounds.
-- `digits_loop` and `getline_loop` are given as many rounds as they can need.
--
-- Not modelled: csapp.c itself and the system calls, which are parameters; signals; failing mutex
-- calls and the semaphore's upper limit; destructors that only destroy locks; what an exiting
-- client printed on its standard output.
mod Prelude
mod Outcome
pub mod Text
pub mod Message
pub mod Csapp
pub mod Connection
pub mod MessageQueue
pub mod User
pub mod Room
pub mod Server
pub mod Client
pub mod Draft
pub mod Joined
mod Tests
