-- ===== src/Lib.antt =====
-- A verification library for Rins, a name service with load balancing in three processes: the DNS
-- service, which pushes routes from a database to the agents, the load-balancing agent, which answers
-- the clients on its machine over UDP, and the report service. All of them stand on a reactor library,
-- and clients use the library under api/cpp.
--
-- The reactor (reactor/) reads a connection's bytes into blocks of a pool, cuts them into messages and
-- calls the handler that is registered for a message's identifier; replies go into an output buffer,
-- which the event loop writes when the descriptor is ready.
--   Reactor/Memory        bytes by index; windows and block moves (memcpy, memmove)
--   Reactor/Text          reactor/src/config_file.cc: trim and its parts; maps over texts
--   Reactor/ConfigFile    reactor/src/config_file.cc: load, is_section, get_string, get_string_list,
--                         get_bool, get_number, get_float, parse_number, set_path, instance
--   Reactor/IoBuf         reactor/src/io_buf.cc: io_buf with adjust, clear, copy and pop
--   Reactor/BufPool       reactor/src/buf_pool.cc: init_memmory, alloc_buf, revert
--   Reactor/ReactorBuf    reactor/src/reactor_buf.cc: input_buf and output_buf
--   Reactor/EventLoop     reactor/src/event_loop.cc: io_event, add_io_event, del_io_event,
--                         event_process for any number of rounds, add_task,
--                         execute_ready_task
--   Reactor/Callback      the callbacks and tasks that the program registers with a loop
--   Reactor/Message       reactor/include/message.h: msg_head and msg_router
--   Reactor/ConnTable     reactor/src/tcp_server.cc: conns, increase_conn, decrease_conn
--   Reactor/TcpServer     reactor/src/tcp_server.cc: do_accept; in Start the constructor;
--                         in Boot its setters, and what a main does with a server
--   Reactor/TcpConn       reactor/src/tcp_conn.cc: the constructor, do_read, do_write, send_message,
--                         clean_conn; in Framing the stream of messages, in Serving and Stream
--                         what handlers make of it, however it is cut into reads
--   Reactor/TcpClient     reactor/src/tcp_client.cc: send_message; in Link the constructor, do_connect,
--                         connection_delay (finish_connect), clean_conn, do_read, do_write,
--                         check_connect; in Lifecycle, with Phase, Asking, Listening, Dialling,
--                         Flushing, Settling, Serving and Turns, the life of a connection as a
--                         relation between states
--   Reactor/ThreadQueue   reactor/include/thread_queue.h: send, recv, set_callback
--   Reactor/ThreadPool    reactor/src/thread_pool.cc: get_thread, send_task, deal_task_message; in
--                         Waking a round of a thread's loop
--   Reactor/Udp           reactor/src/udp_server.cc and reactor/src/udp_client.cc
-- The other parts:
--   Key                   the 64-bit keys of modid and cmdid, or of an address and a port
--   Protocol              the message identifiers of base/proto/rins.proto
--   Agent/HostInfo        load_balance_agent/include/host_info.h, and the heap of hosts
--   Agent/LoadBalance     load_balance_agent/src/load_balance.cc: choice_one_host, pull, update
--   Agent/RouteLb         load_balance_agent/src/route_lb.cc: get_host, update_host
--   Agent/Server          load_balance_agent/src/agent_udp_server.cc and
--                         load_balance_agent/src/dns_client.cc: the handlers and their routes
--   Agent/Forward         new_dns_request of load_balance_agent/src/dns_client.cc, and
--                         new_report_request of load_balance_agent/src/report_client.cc
--   Agent/Start           load_balance_agent/src/main_server.cc, and the starts of the threads of
--                         agent_udp_server.cc, dns_client.cc and report_client.cc
--   Database              connect_db of dns/src/dns_route.cc and the constructor of
--                         report/src/store_report.cc
--   Dns/Route             dns/src/dns_route.cc: build_maps, get_hosts, load_version, load_route_data,
--                         swap, load_changes, remove_changes
--   Dns/Subscribe         dns/src/subscribe.cc: subscribe, unsubscribe, publish, make_publish_map,
--                         push_change_task
--   Dns/Service           dns/src/dns_service.cc: get_route, create_subscribe, clear_subscribe and
--                         check_route_changes; in Wire from the bytes of a connection on
--   Dns/Start             dns/src/dns_service.cc: main
--   Report                report/src/reporter_service.cc: get_report_status, create_reportdb_thread;
--                         report/src/store_report.cc: store; report/include/store_thread.h:
--                         thread_report; in Wire from the bytes of a connection on, in Start main
--                         and store_main
--   Api                   api/cpp/src/rins_api.cc: rins_client::get_host
-- Prelude holds results with faults, association lists, lists over the native numbers and the
-- wrap-around of 32 and 64 bits.
--
-- Conventions. A function that can fail gives a Result: an assertion that fails, an access out of
-- bounds, a pointer that is null, dangling or not initialised, the end of the process and the end of
-- the fuel are faults.
-- `Ends m P` says that `m` returns a value that satisfies P, or that the process exits for want of
-- memory, and that nothing else happens; `Returns m P` rules the exit out too; `IfReturns m P`
-- says that a value satisfies P if `m` returns one, as what is assumed of a handler; `FailsWith e m`
-- says that `m` fails with e, or exits. An int of 32 bits is a number below 2^32, a negative one
-- in two's complement. System calls are arguments: what they answer, as a value or as a list of values.
-- Handlers and callbacks are functions on the state that they can reach.
--
-- Fuel. The loop of do_read takes one more than the number of buffered bytes as fuel; each message
-- takes eight bytes at least. The client's do_read is given its fuel, and one more than the number of
-- buffered bytes is enough if no length is negative. The loop of get_string_list takes one more than
-- the bytes of the text. The loop of do_write and the loops over datagrams follow the list of the
-- answers of the system, and so does the loop of the client; do_write and the client run out of fuel
-- where that list ends too early, a read of datagrams ends there, as it does with EAGAIN.
--
-- Not modelled: epoll itself; tasks that call add_task while the tasks run; the code that protoc
-- generates, whose parsing and serialising are parameters, and the formatted reading of a
-- floating-point number, which is one too; the SQL, the tests, and the system calls that only set up
-- sockets and threads, whose answers are arguments. main and the threads are modelled up to
-- event_process, which runs for as many rounds as its argument lists.
pub mod Prelude
pub mod Reactor
pub mod Key
pub mod Protocol
pub mod Agent
pub mod Database
pub mod Dns
pub mod Api
pub mod Report
