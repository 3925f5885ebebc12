-- ===== src/Lib.antt =====
-- tcpquic-proxy carries TCP connections over QUIC. A client accepts SOCKS5 and HTTP CONNECT
-- connections, authenticates them, and asks a server over a QUIC stream to open the other end; the
-- server resolves the host, filters the addresses by its access control list, and dials.
--
-- The parts that are modelled, and where they meet:
--   Protocol   src/protocol/control_protocol.{h,cpp}. Bytes: WriteU16BE to ReadU64BE. Frame: the
--              constants and the four bytes in front of every frame. Open: the open request that a
--              client sends for an accepted connection, and the response. Hello: the client hello.
--              Speed: the five frames of the speed test. A decoder returns none where the source
--              returns false. Address/Endpoint: TqParseEndpoint, TqParseEndpointList and
--              TqFormatEndpoint of quic_address.cpp; Address/Slots: TqBuildClientSlotPaths.
--   Acl        src/acl. Cidr: ParsePrefix, ParseCidr, ParseCidrList and IpMatchesCidr of
--              acl_matcher.h. Filter: ExtractIpBytes to EvaluateCandidates of acl_matcher.h,
--              TqAclFilterResolvedAddresses of acl_filter.cpp, and IsAllowed, TqAclResolveAndFilter
--              and TqValidateCidrList of acl.cpp, which the server calls before it dials.
--   Ingress    src/ingress. Auth: TqProxyAuthTable, TqConstantTimeEquals and
--              TqValidateProxyAuthUsers of proxy_auth.cpp. HttpAuth: base64 and the Proxy-Authorization header, of the same file. Socks5 and
--              Http: the request parsers of socks5_server.cpp and http_connect_server.cpp. State:
--              TqClientIngressState of client_ingress_state.cpp, which calls all of these;
--              State/Session and State/HttpSession have whole connections. The host of a request is
--              the C string in the array Host of TunnelRequest.
--   Tunnel     src/tunnel. Shutdown: RequestShutdown and the case SEND_SHUTDOWN_COMPLETE of
--              Dispatch in stream_lifetime.cpp; Shutdown/Once has the system of several threads, in
--              which the aborts of the terminal shutdown are a step of their own.
--              Terminal: the ledger of terminal_convergence.{h,cpp} with the sections that change it,
--              and ScheduleRetry. Lifetime: the phases, the routes and the terminal shutdown of
--              stream_lifetime.cpp, one function for each critical section; Lifetime/System has
--              the threads that run them, Lifetime/Retry the attempts of one shutdown in turn.
--              Sends: the registry of send completions of stream_lifetime.cpp, and the reservations;
--              Sends/System has the streams and threads. Dispatch: the routes of the other events.
--              Buffer: TqRelayBufferBudget, TqBufferHandle and TqAllocateRelayBuffer of
--              relay_buffer.{h,cpp}; Buffer/System has the threads and the handles.
--              Registry: the tunnels of the connections of tunnel_registry.cpp, and the texts of
--              their ids; Registry/System has the threads that register, abort and unregister them.
--              EventQueue: TryPush, TryPop and NormalizeCapacity of linux_relay_event_queue.h.
--   Config     src/config/tuning.{h,cpp}. Tuning: TqComputeTuning with all its steps, and
--              TqNormalizeLinuxRelayEventQueueCapacity, whose result the EventQueue is built with.
--              Runtime: the measurements, what they change, and TqApplyRelayPoolBudget.
--   Runtime    src/runtime. ThreadPool: TqThreadPool of thread_pool.cpp; ThreadPool/System has the workers
--              and the threads that use the pool.
--   Base       lists, tests, bits and searches that the parts share.
--   Examples   runs on concrete inputs.
--
-- Integers are natural numbers with the wrap-around of their type written out, and a byte is a
-- natural number that a theorem bounds by IsBytes where it matters. inet_pton, inet_ntop and
-- getaddrinfo are parameters (InetPton, InetNtop, Resolver), as is the status of MsQuic's Shutdown, and
-- so are the memory and the processors that the host reports (Machine) and the clock in Config/Runtime.
-- The loop over the header lines in HttpAuth runs on fuel, the position of the end of the header,
-- because each round moves on by two bytes at least. All other loops are structural, but
-- for two: the attempts of a terminal shutdown, with fuel for the four that there can be, and the loop
-- of NormalizeCapacity, with fuel 64 for the bits of a size_t. std::to_string in Base/Decimal has
-- fuel for the 20 digits of a 64-bit number. In Lifetime/System the sections on the
-- ledger take any arguments, so the runs include those of the code. In EventQueue the accesses to
-- the shared variables are in one order, the positions stay below 2 ^ 63, and each position carries its
-- stage beside the code's variables, which no step reads in a test.
--
-- Not modelled: the registry of retained streams and the construction of streams in
-- stream_lifetime.cpp, the task queue and the sink of terminal_convergence.cpp, the relay workers, the
-- queues for Darwin and libuv, tunnel set-up and DNS, the snapshots of tunnel_registry.cpp, the plan
-- of the listeners in quic_address.cpp, QUIC sessions, compression, the parsing of the
-- configuration, the read-ahead of tuning.cpp, which is computed in long double, the
-- rest of the runtime and its administration, the platform layer. They are mostly calls of MsQuic, libuv, c-ares,
-- zstd and the operating system. The hooks that exist for unit tests only are left out everywhere.
mod Base
pub mod Acl
pub mod Ingress
pub mod Protocol
pub mod Tunnel
pub mod Config
pub mod Runtime
mod Examples
