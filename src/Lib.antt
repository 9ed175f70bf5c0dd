-- ===== src/Lib.antt =====
-- chaos-tproxy: a transparent HTTP proxy that injects faults into the traffic of a machine.
--
-- The program is two crates. chaos-tproxy-controller reads the user's configuration, prepares the
-- network, and starts the proxy process, which it sends a raw configuration. chaos-tproxy-proxy
-- checks that configuration and handles each request: the rules for requests are selected and
-- applied, the request is sent on with a rebuilt URI, and the rules for responses are applied to
-- what comes back.
--
-- Which file models what:
--   Handler/Rule, Handler/Message    the structs of chaos-tproxy-proxy/src/handler/http/rule.rs,
--                                    selector.rs and action.rs, and the messages
--   Handler/Selector                 select_role, select_request and select_response of
--                                    chaos-tproxy-proxy/src/handler/http/selector.rs
--   Handler/Action, Handler/Apply    chaos-tproxy-proxy/src/handler/http/action.rs: Action/Uris has
--                                    append_queries, replace_path and replace_queries, Action the
--                                    changes, and Apply the abort, the delay and the whole action
--   Service                          HttpService of chaos-tproxy-proxy/src/proxy/http/server.rs,
--                                    with HTTPConfig of config.rs beside it
--   RawConfig                        chaos-tproxy-proxy/src/raw_config.rs: Convert for the rules,
--                                    Tls for certificates and the whole configuration
--   Tcp                              chaos-tproxy-proxy/src/proxy/tcp/listener.rs,
--                                    transparent_socket.rs, and connector.rs of src/proxy/http
--   Server                           the rest of chaos-tproxy-proxy/src/proxy/http/server.rs: the
--                                    loop of HttpServer, and the rounds and the tunnel of one
--                                    connection
--   Uds                              the unix socket between the processes:
--                                    chaos-tproxy-controller/src/proxy/uds_server.rs and
--                                    chaos-tproxy-proxy/src/uds_client.rs
--   ProxyMain                        chaos-tproxy-proxy/src/lib.rs and src/signal.rs
--   Controller/Ports                 get_free_port of chaos-tproxy-controller/src/proxy/config.rs
--   Controller/Net                   get_default_interface, get_interface and get_ipv4 of
--                                    chaos-tproxy-controller/src/proxy/net/bridge.rs
--   Controller/Config                chaos-tproxy-controller/src/raw_config.rs and
--                                    src/proxy/config.rs
--   Controller/Shell                 what the controller does to the machine, with execute,
--                                    execute_all and execute_all_with_log_error of bridge.rs
--   Controller/Commands, Setup       the command lines and command lists of bridge.rs
--   Controller/Iptables              chaos-tproxy-controller/src/proxy/net/iptables.rs
--   Controller/Routes                chaos-tproxy-controller/src/proxy/net/routes.rs, and the
--                                    gateway of bridge.rs
--   Controller/Packets               chaos-tproxy-controller/src/proxy/net/arp.rs and ping.rs
--   Controller/Stdio                 chaos-tproxy-controller/src/cmd/interactive/stdio.rs
--   Controller/Bridge                setenv_bridge and clear_bridge of bridge.rs, and
--                                    chaos-tproxy-controller/src/proxy/net/set_net.rs; Undone
--                                    has what undoes their commands
--   Controller/Proxy                 chaos-tproxy-controller/src/proxy/exec.rs, and NetEnv::new of
--                                    bridge.rs
--   Controller/ConfigServer          chaos-tproxy-controller/src/cmd/interactive/handler.rs: call
--                                    by call, and in Interleaving the serving task beside the
--                                    stop, with the mutex and the signal
--   Controller/CommandLine           chaos-tproxy-controller/src/cmd/command_line.rs, and the
--                                    branches of src/main.rs with a configuration file and for
--                                    the interactive mode
--   Delivery                         the composition of both crates: Controller/Config, RawConfig
--                                    and Service, from the user's rules to a request, and in Whole
--                                    with Uds, ProxyMain and Server
--   Main                             main of chaos-tproxy-controller/src/main.rs, with the two
--                                    branches of Controller/CommandLine and with ProxyMain
--   External                         the crates http, hyper, wildmatch, serde_json, json_patch,
--                                    serde_urlencoded and base64, as a record of types and
--                                    operations; External/Laws holds what theorems assume of them,
--                                    and External/Sample a concrete instance for the examples
--   Outcome, Prelude                 results and shared helpers; Outcome/Effects has the code that
--                                    acts on the outside
--
-- State and effects. Asynchronous code runs in the order in which it awaits. What can be seen of
-- the handling of a request (a sleep, a request that is sent on) is an event of a run (Outcome,
-- Handler/Message), and the target's answer is that of `Upstream.send`. What the controller does to
-- the machine, and what the proxy process asks of the kernel, is a list of acts, the history, and
-- the machine (Controller/Shell) or the kernel (Tcp) answers each act by a function of the whole
-- history, so nothing is assumed of it but what a theorem names. The end of the task that waits for
-- the proxy process is one such answer. What comes from outside in its own order is a list: the
-- connections, the failures of accept and the signal for the server, the rounds in which hyper
-- serves one connection, and the requests to the server of configurations. A task that is spawned
-- for a connection is an act, and what it does is a run of its own.
--
-- Bounds and recursion. Ports and status codes are natural numbers, and no code here computes with
-- them beyond comparing. The port search recurs on the ports that are left, 64510 at the start,
-- which are all of the source's range. The questions for the gateway recur on their count, and of
-- the pings, whose loop has no end, there are the first rounds, as many as one asks for. Every other
-- loop is a recursion on a list. `show_nat` gives itself one round for each unit of the number and
-- one more, at least one for each digit.
--
-- Not modelled: logging and its subscriber, what TLS and hyper do inside a round, the parsing of the
-- configuration file and of the arguments, and the poll_ready and call by which hyper reaches a
-- handler. hyper may drop a call to the server of configurations when the client goes away, also
-- one that has the mutex; only one that waits for it is dropped here. The tasks of the proxy process
-- are not interleaved, and of the task of the controller that listens on the unix socket, only its
-- start is an act: Uds has what it does. A panic is an error of its own, which no code that handles
-- errors sees: the clean-up of a failed start is skipped, and the serving of configurations ends.
pub mod Prelude
pub mod Outcome
pub mod External
pub mod Handler
pub mod Service
pub mod RawConfig
pub mod Controller
pub mod Tcp
pub mod Server
pub mod Uds
pub mod ProxyMain
pub mod Delivery
pub mod Main
