-- ===== src/Lib.antt =====
-- A model of the DEEP protocol library (the Go package at the repository's root) with the theorems
-- that make it correct.
--
-- The parts of the program and the files that model them:
--
-- Uri.antt is uri.go. `parse_uri` is ParseURI, cut in two at the authority (`parse_tail`); the
-- validators have the names of the Go functions. A string is its list of bytes.
-- Json.antt is validateJSON, walkJSON, validateSurrogates and DecodeMetadata of protocol.go.
-- encoding/json is the parameter `Json`: a decoder's states, its tokens, and the bound that a
-- decoder gives no more tokens than its text has bytes.
-- Io.antt is readers and writers as Go's io package documents them. A writer carries its answers
-- to the calls to come, so that short writes and errors are covered.
-- Frame.antt is validateHeader, ReadFrame, WriteFrame, writeAll and send of protocol.go.
-- Messages.antt is the metadata of the messages, ValidateRemoteError, validateMediaType, and expect
-- of client.go. json.Marshal, the typed decoding, SHA-256 and the Unicode tables are the
-- parameter `Library`.
-- Limits.antt is limits.go, the defaults and bounds of `Server` and the methods of peerLimiter; the
-- mutex makes each of them one step, and a history is a list of calls.
-- Body.antt is sendBody and receiveBody of application.go over a link (input, output, and the
-- answers of ctx.Err()), composed from the frames and messages above.
-- Application.antt is the application profile of application.go: the checks of methods and headers
-- and `Server.exchange`; handlers are parameters.
-- Server.antt is server.go from HELLO on: `serve_connection` is serveConnection behind the TLS
-- handshake, `transfer` and `send_error` have the names of the Go functions. A session's state is
-- its link, the shared limiter, the clock, and the requests that reached the handler.
-- Listener.antt is `Serve` of server.go: `listen` its checks at the start, and `Step` a relation on
-- the state that the accepting loop and the goroutines of the connections share. Between any two
-- of its steps any other may come.
-- Security.antt is security.go: what is checked of certificates, of pins and of a negotiated TLS
-- state. A certificate is a record of what crypto/x509 parses; of a `tls.Config` its callback
-- VerifyConnection is modelled. The parser and the digest are the parameter `Crypto`.
-- Client.antt is `Session` of client.go with Fetch and Close, Client/Exchange.antt is
-- `Session.Exchange` of application.go, and Client/Dial.antt is `Client.Dial`, where the dialers
-- and the handshake of crypto/tls are the parameter `Network`: a handshake asks the callback.
-- Conversation.antt puts the client's Fetch and the server's transfer together.
-- Adapters.antt is the endpoints, `Registry` and `StaticAdapter` of adapters.go; adapters are
-- functions from authorities to endpoints or errors. Adapters/Config.antt is `ExecAdapter` and the
-- loading of a registry; programs, file paths and DecodeConfigJSON are the parameter `System`.
-- Proxy.antt is the control frames of proxy.go, Proxy/Handshake.antt the dialogue with the proxy and
-- Proxy/Connect.antt `DialProxy` and `ProxyAdapter.Resolve`; net/url, net.ParseIP and the TCP
-- connection are the parameter `Surroundings`.
-- Io/Keeps.antt has the rules for what a method leaves alone, whether it fails or not.
--
-- Fuel: `scan_surrogates` runs on the length of its text, each round takes a byte; `walk` runs on
-- twice the length, each round takes a token or a call level, and the bound on tokens makes it
-- enough; `send_chunks` runs on the size, each round sends a byte at least; `receive_chunks` runs
-- on one more than the bytes of its input, each frame takes twenty at least (Body/Fuel.antt);
-- `serve_requests` has the same bound.
--
-- Not modelled: crypto/tls itself, files (resources.go and LoadClientConfig), DecodeConfigJSON
-- (adapters.go), HTTP upstreams (http_upstream.go), and the command line (cmd/deep); deadlines that
-- pass and a cancelled context that closes a connection appear as network errors that a reader or
-- a writer may give at any point.
pub mod Base
pub mod Uri
pub mod Json
pub mod Io
pub mod Frame
pub mod Limits
pub mod Messages
pub mod Body
pub mod Application
pub mod Server
pub mod Adapters
pub mod Security
pub mod Client
pub mod Listener
pub mod Conversation
pub mod Proxy
mod Examples
