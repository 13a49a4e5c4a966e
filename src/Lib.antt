-- ===== src/Lib.antt =====
-- ylars: a service registry and load-balancing agent in C++.
--
-- The program has a network library (reactor), a DNS service (ylars_dns) that keeps in a database
-- which hosts serve which module, an agent (ylars_lb_agent) on each machine that asks that service,
-- chooses a host for each call and takes overloaded hosts out of use, a reporter (ylars_reporter)
-- that stores the counts, and a client library (api). A process asks its agent by UDP; the agent
-- asks the DNS service and reports to the reporter by TCP; the DNS service pushes changes to the
-- agents that have asked.
--
-- Base has what the modules share: lists over native numbers, std::map and std::set as rising lists
-- (Base.Map, Base.NatSet), and lists of references (Base.Refs). Proto has the messages of
-- base/proto/ylars.proto as records; their encoding is protobuf's and is not modelled.
--
-- Agent follows ylars_lb_agent. HostInfo and LoadBalance model include/host_info.h,
-- src/host_info.cpp and src/load_balance.cpp: a host is an object that the map and one of two lists
-- share, so the model has a store of objects, and the lists hold references. RouteLb models
-- src/route_lb.cpp, and Server the callbacks of src/agent_server.cpp, agent_dns_client.cpp and
-- agent_report_client.cpp, with what they put on the queues. Server.Dispatch has the handlers that
-- each UDP server registers, and Clients sends the tasks of the queues through TcpClient. Pulls
-- joins the answer of the DNS service, from the table that it has read, to the agent. A step into undefined behaviour is
-- `none`. The counts of a host are ints that wrap around, and LoadBalance.Machine says what a report
-- means for a host over numbers without a bound. Times are unbounded numbers, the readings of the
-- clock are arguments, and a rate is compared with its float limit by a parameter. The settings are
-- arguments: the timeouts and probe_num are not negative.
--
-- Dns follows ylars_dns. Subscribe models the class SubscribeList, Router the class Router and the
-- loop changet_publish, Service the callbacks of dns_service.cpp, and Router.Start
-- the constructor that reads the table first. What the database yields to a
-- query is an argument of the model.
--
-- Reactor follows reactor. IoBuf, BufPool and ReactorBuf model the buffers of a connection and the
-- pool that they come from (include/io_buf.h, buf_pool.h, reactor_buf.h and their sources) down to
-- the bytes: an access outside a block is `none`. Message models the header and the router of
-- message.cpp, and TcpConn the reading and writing of tcp_conn.cpp; EventLoop models event_loop.cpp,
-- with the effect of callbacks as a parameter; TcpServer models how tcp_server.cpp closes and
-- deletes connections, as a step relation over all threads, and ThreadPool the queues of
-- thread_pool.cpp and thread_queue.h. What ioctl, read and write answer is an argument,
-- and the bytes that a write puts on the wire are part of the result. The loop
-- over the messages in a buffer has the number of bytes as fuel, which is enough, since each message
-- takes eight at least; the loop of do_write goes through the outcomes of its calls, and is `none`
-- where they do not end it.
--
-- TcpClient models tcp_client.cpp on top of TcpConn, Udp the datagrams of udp_server.cpp and
-- udp_client.cpp, Serving how a connection that tcp_server.cpp accepts reaches the table of
-- connections by thread_pool.cpp, how the server starts (Serving.Start) and what the hooks
-- see of a connection (Serving.Hooks), and ConfigFile config_file.cpp down to the bytes of the file, its
-- Getters the functions that read values. The loop of GetStringList has the bytes of the text as fuel,
-- which is enough, since each turn goes past a separator.
--
-- Api models the client library of api/ylars_api/ylars_api.cpp, and Api.Agents joins it to the UDP
-- server and to the agent. Protobuf and the texts of addresses are parameters there. A call that waits
-- for a datagram that does not come is `none`.
--
-- Reporter models ylars_reporter/src. What the database does with a statement is a parameter, with the
-- effect of INSERT ... ON DUPLICATE KEY UPDATE as its law, for any unique key over the columns that
-- the UPDATE leaves alone.
--
-- Not modelled: GetFloat of the configuration file, the main programs and the start of their threads
-- (the model of the agent begins when each of its three threads has made its route_lb, and that of the
-- client library has one object, though check_seq is shared by all), the creation of sockets, the calls of MySQL, protobuf, printing, the test programs under
-- reactor/reactor_test, and the MySQL headers under base/mysql-c, which are another project's.
pub mod Base
pub mod Proto
pub mod Reactor
pub mod Agent
pub mod Dns
pub mod Api
pub mod Reporter
