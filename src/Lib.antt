-- ===== src/Lib.antt =====
-- crunchy-proxy: a connection-pooling proxy for PostgreSQL, modelled from its Go source.
--
-- A client connects to the proxy, may ask for TLS, is validated by the user and the database of its
-- startup message, and logs in at the master node, the proxy passing the messages on. From then on
-- the proxy reads the annotations in the first comment of each query, takes a backend connection
-- from a pool of the kind that the query wants, relays the query and its answer, and returns the
-- connection, unless a block of statements is open.
--
-- Which file models which part (paths from the root of the repository):
--   Protocol.Message       protocol/message.go: MessageBuffer, one definition per method
--   Protocol.Frame         protocol/protocol.go: GetVersion, GetMessageType, GetMessageLength,
--                          IsAuthenticationOk, GetTerminateMessage, and the constants, with
--                          Protocol.MessageType and Protocol.Authentication
--   Protocol.Startup       protocol/startup.go, protocol/auth.go: CreateStartupMessage,
--                          CreatePasswordMessage
--   Protocol.Error         protocol/error.go: Error, GetMessage, ParseError; Protocol.ErrorField its
--                          field identifiers
--   Protocol.ErrorCodes    protocol/errorcodes.go: the table of the error codes
--   Config                 common/common.go, config/config.go: the records of the configuration
--   Connect                connect/connect.go: Send, Receive, and the connections
--   Connect.Dial           connect/connect.go: Connect
--   Connect.Tls            connect/ssl.go
--   Connect.Password       connect/auth.go: HandleAuthenticationRequest and what it calls
--   Connect.Login          connect/auth.go: AuthenticateClient
--   Connect.Validate       connect/auth.go: ValidateClient
--   Pool                   pool/pool.go
--   Proxy.Annotation       proxy/annotation.go, proxy/parse.go: getAnnotations
--   Proxy.Routing          proxy/proxy.go: Proxy, getPool, returnPool, the query counters
--   Proxy.Setup            proxy/proxy.go: NewProxy, setupPools
--   Proxy.Admission        proxy/proxy.go: HandleConnection up to the message loop
--   Proxy.Handler          proxy/proxy.go: HandleConnection from the message loop on
--   Proxy.Clients          server/proxy.go, proxy/proxy.go: HandleConnection as a whole, for clients
--                          that come at any time
--   Proxy.Relay            proxy/proxy.go: the exchange of one query in HandleConnection
--   Server                 server/admin.go: the responses and the health check
--   Server.Lifecycle       server/server.go, server/proxy.go, and Serve and Shutdown of
--                          server/admin.go: the goroutines of a server from its start to its end
--   Cli.Command            cli/: the commands health, node, stats, version and stop
--   Cli.Start              cli/start.go: the command start
--   Adapter                adapter/: decorated adapters and the audit
-- The modules below these hold the theorems and are named for what they prove; Proxy.Ownership is
-- about the connections that the handlers of all clients hold, with Proxy.Ownership.Manager as the
-- abstract view of them, and Proxy.Counting about the counters. Prelude holds shared helpers, Go the
-- parts of the language and of its standard library that the source uses, and Tests the concrete
-- runs.
--
-- How the code is read. Bytes are natural numbers, strings and slices lists of them; a statement
-- that can panic or wait for ever on a channel gives an Outcome. A 4096-byte buffer of Receive is
-- the zeroed buffer with the bytes read at its front. A connection is the list of what its reads
-- will give, the error of every read behind them, and what was written to it; a read that never
-- returns is not among them, and leaves the function that called it where it is; in a pool it is a
-- number. Pointers to pools are positions in the list of all pools, so that a pool changes for
-- every handler that keeps it. Handlers are interleaved at the points where they use a shared
-- channel. An int32 is its bit pattern. The goroutines of a server are steps of one state, in any
-- order; what the network and the grpc service do is a flag of each step.
--
-- Fuel. Every loop that is not a structural recursion runs on fuel, and running out is the outcome
-- blocked. ParseError and ValidateClient get one more than the length of the message, since each
-- round reads a byte or ends the loop; AuthenticateClient one more than the reads of the two sides,
-- since each round reads from both, and what both give behind their last reads is the same for
-- ever. The scan for ReadyForQuery gets one more than the bytes read, since a start position that
-- comes up twice comes up for ever.
--
-- The digits of a number are printed on fuel: ten for an int32, twenty for a length.
--
-- Parameters: the network behind net.Dial, crypto/tls with crypto/x509, crypto/md5, the database
-- library of the health check, the library viper, the grpc library as the commands see it,
-- encoding/json, the clock and the file system of the audit, and the parser of the start flags.
--
-- Not modelled: the registration of commands and of the grpc service, the pause between two health
-- checks, messages to the logger, util/, generated code, and the tests.
pub mod Prelude
pub mod Go
pub mod Protocol
pub mod Config
pub mod Connect
pub mod Pool
pub mod Proxy
pub mod Server
pub mod Cli
pub mod Adapter
pub mod Tests
