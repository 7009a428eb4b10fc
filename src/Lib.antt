-- ===== src/Lib.antt =====
-- The bridge between an MCP server and the browser extension of the Arc MCP repository.
--
-- The program drives a browser for an MCP client. An extension in the browser keeps the project ids
-- of tabs (extension/src/tabs.ts) and holds a native port to a host process (extension/src/bridge.ts).
-- The host relays messages between that port and the MCP process. Messages are JSON envelopes
-- (src/bridge/protocol.ts), framed by a length prefix on every byte stream (src/bridge/nativeFraming.ts);
-- in the MCP process an RPC peer matches responses with requests (src/bridge/rpc.ts). So bytes go
-- through Framing, its values through Protocol, and the messages through Rpc; on the extension's
-- side Tabs answers the requests on tabs. Host composes HostArgs, Session, Framing and Protocol.
--
--   Framing   src/bridge/nativeFraming.ts, src/bridge/frameLimits.ts: `encodeNativeMessage` is
--             encode_native_message, `NativeFrameDecoder.push` is push, whose loop is push_loop with
--             one pass in scan_frame, and `end` is end_of_input.
--   Json      JSON values as the bridge reads them.
--   Protocol  src/bridge/protocol.ts, src/bridge/BridgeError.ts: `parseBridgeMessage` is
--             parse_bridge_message, with one function for each of its branches; `errorResponse` is
--             error_response.
--   Rpc       src/bridge/rpc.ts: each method of `RpcPeer`, and each callback of its timers and
--             handlers, is a function from the peer to the peer and the effects it has.
--   Tabs      extension/src/tabs.ts: ProjectId renders and parses ids, Registry holds the state and
--             its private methods, Operations the public ones and the listeners. What chrome answers
--             is an argument; each function is one stretch between two awaits, but finish_restore
--             takes the loads of `restoreRetired` as one step, so what happens between them is left
--             out.
--   ExtensionBridge  extension/src/bridge.ts: `ensureConnected`, `close`, `handleDisconnect`, the retry
--             timer and its delay, and in Requests `request` and `handleNativeMessage`; which port
--             and which timer an event is about is an argument.
--   Interaction  src/browser/interactionPolicy.ts: `utf8ByteLength` and `chunkTextForHumanize`, with
--             which the size of typed text is limited and the text is typed in pieces.
--   Console   src/observability/ConsoleMonitor.ts: the ring buffer `ConsoleMonitor`, and
--             `buildConsoleResponse`, where the size of the printed response is an argument.
--   Redaction  src/security/Redaction.ts: header maps; in ConsoleText `redactConsoleText` and in Urls
--             `sanitizeUrl`, for which the URL class is an argument.
--   Network   src/observability/NetworkMonitor.ts: what an entry takes from the events; in Monitor
--             the methods of `NetworkMonitor`, and `buildNetworkResponse` as for Console.
--   Session   src/bridge/session.ts: the session descriptor, its validation and its staleness.
--   PipeServer  src/bridge/mcpPipeServer.ts: the handlers of requests from relays and from proxy
--             clients; in Sockets closing sockets, the watchdog and `stop`; in Start `start`.
--   HostArgs  src/bridge/nativeHostArgs.ts: `parseNativeHostArgs` is parse_native_host_args.
--   Keys      src/browser/interactionPolicy.ts: `parsePressKey` is parse_press_key, `resolveKeyName`
--             resolve_key_name, with the tables in Tables; what object literals inherit is kept apart.
--   Snapshot  src/browser/snapshotSemantics.ts: how a node of the accessibility tree is read; in Tree
--             the walk and the printed line, where `visit` is visit with its loops over children in
--             visit_all; in Budget `normalizeAxTree` as a whole; in Leaks `findLeakedCdpKeys`.
--   Host      src/bridge/native-host/host.ts: `runHostInner` is run_host_inner with its checks in order,
--             `authenticatePipe` hello_run over the events of the wait, and `relayLoop` relay_run over
--             the events of the two streams; `forwardToPipe` and `forwardToNative` are forward_frame.
--   References  extension/src/snapshot.ts: the references of `DebuggerSessionManager`: `capture` from
--             the counter on is finish_capture, `beginInteraction` begin_interaction; with the
--             syntax of references and snapshot ids of src/browser/snapshotSemantics.ts.
--   Prelude, Text  names, list lemmas and the white space of JavaScript.
--
-- Numbers are natural numbers: none of the modelled ones can be negative, and the lengths that are
-- written as 32 bits are below the frame limits. Fuel occurs in push_loop (one round for each
-- pending byte and one more, since every round that goes on takes at least one byte off), chunk_loop,
-- redact_keys, redact_schemes and replace_loop (one round for each code unit), search_suffix and
-- search_prefix (the length of the list that is searched), visit_all (one level for each node and one
-- more, since each level marks another node) and the decimal texts of numbers and those in base 36
-- (n + 1 rounds for n).
--
-- Not modelled: JSON.parse and JSON.stringify, an argument of Framing with the law that parsing gives
-- back the printed value; the texts of errors; chrome and the session store's adapter; toLowerCase,
-- toUpperCase and the URL class; writes of the tab registry's store that fail; the host's journal; of
-- the extension's debugger sessions everything but the references. The other parts of the program
-- (installation, the engines, the tools of the MCP server) are not modelled.
pub mod Prelude
pub mod Framing
pub mod Json
pub mod Protocol
pub mod Text
pub mod Rpc
pub mod Tabs
pub mod ExtensionBridge
pub mod Interaction
pub mod Console
pub mod Session
pub mod PipeServer
pub mod Redaction
pub mod Network
pub mod HostArgs
pub mod Keys
pub mod Snapshot
pub mod Host
pub mod References
