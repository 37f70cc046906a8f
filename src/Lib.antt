-- ===== src/Lib.antt =====
-- A model of the codec, the session engine, the attempt cache of the handshake, the routing engine
-- and the private DNS manager of WG, a private tunnel protocol written in Go.
--
-- The program. A client and a gateway (cmd/wg-core, cmd/wg-proxy, internal/app) exchange UDP
-- datagrams. internal/codec turns datagrams into packets and the payload of a handshake into
-- fields, and back; it has no state. internal/session holds what a session remembers: the packet
-- numbers it sends under, the window of the numbers it has received, and the state machine of its
-- lifetime, with its deadlines and its retransmissions. internal/handshake answers the first
-- datagram of a client: its attempt cache lets one caller build the answer to an INITIAL, gives the
-- same answer to every copy of it, and refuses the INITIAL for a time after the attempt is over.
-- internal/routing decides, by the rules of the user, whether a destination goes through the
-- tunnel, directly, or not at all. internal/privatedns keeps a copy of the resolvers of the system
-- and a cache with times to live. internal/crypto and internal/controlapi stand beside these. A
-- receiver parses a packet, asks the window whether its number can still be new, decrypts, and then
-- claims the number; the frames it finds drive the machine.
--
-- The files, and the code that each is about:
--   Prelude         helpers: Boolean tests, lists, results, integers and binary digits over the
--                   native numbers, types with an equality test, and maps as lists of entries
--   Text            what the program uses of Go's `strings` and `unicode`
--   Session/Replay  internal/session/replay.go: `next_number` is `PacketNumbers.Next`, `precheck`
--                   and `accept_authenticated` are the methods of `ReplayWindow`. Replay/History
--                   is the abstract window, the list of the numbers accepted so far; Shift, Marks
--                   and Window relate the bitmap of 32 words to it
--   Session/State   internal/session/state.go: roles, states, events, `next_state`
--   Session/Policy  internal/session/state.go: `TimeoutPolicy`, its `Validate` and the backoff
--   Session/Machine internal/session/machine.go: the record `Machine`, in Machine/Methods one
--                   function per method, in Machine/Calls one type for the calls of all methods.
--                   Effects says what each method leaves behind, Keeps and Atomic build on it
--   Codec/Errors, Codec/Header, Codec/Packet, Codec/Payload, Codec/Tlv, Codec/Tlv/Context,
--   Codec/Frame, Codec/Frame/Stream
--                   internal/codec/errors.go, packet.go, payload.go, tlv.go and frame.go: one
--                   function per parser, serializer and check; the modules below relate parsers
--                   and serializers
--   Routing/Address what internal/routing uses of `net/netip`
--   Routing/Target, Routing/Engine, Routing/Methods
--                   internal/routing/routing.go: `parse_target`, the engine with its options and
--                   `match_locked`, and `set_rule`, `delete_rule` and `explain`. Engine/Longest and
--                   Matching are about the loop over the rules, Invariant about the rules that the
--                   methods make, Policy about the actions under the keys, as a finite map, and
--                   Decisions about the answers
--   PrivateDns, PrivateDns/Cache
--                   internal/privatedns/manager.go: one function per method of `Manager`. Content
--                   is what a reader can see of the cache, History any sequence of calls
--   Handshake/Attempts, Handshake/Attempts/Methods
--                   internal/handshake/cache.go: one function per method of the attempt cache,
--                   `cleanup` for `cleanupAttemptsLocked`. Attempts/Events is any sequence of calls
--   Handshake/Config
--                   internal/handshake/types.go: `normalizeClientConfig`, `normalizeServerConfig`
--   Handshake/Negotiation
--                   internal/handshake/server.go and client.go: the fields of an INITIAL and of its
--                   answer, their checks and the server's choice
--   the modules named Examples  runs at concrete inputs
--
-- How Go is modelled. A method is a function from the receiver to the receiver it leaves behind and
-- its results; the mutex that a method holds from its first line to its last makes it one step. A
-- pair of a value and an error is a sum; of an error its kind and its data are kept, not its text.
-- A byte is a number, and `IsBytes` says that it is below 256; shifts and products of fixed width
-- are cut to their width where the source can exceed it. A time is a number of nanoseconds, with 0
-- for Go's zero time. `binary.BigEndian` is modelled by its documented meaning, `sort.Slice` by an
-- insertion sort: with two equal keys, which it may order either way, the caller fails. `utf8.Valid`,
-- in Codec/Utf8, is modelled by its documented meaning.
--
-- A text is the list of its code points. The case tables of Unicode above ASCII are the parameter
-- `Unicode`, the parser and the printer of `net/netip` the parameter `Netip`, and its tests for unicast
-- addresses the parameter `Unicast`; nothing is assumed of these but what a theorem says. The arithmetic of addresses and prefixes follows the documentation of `net/netip`. A map is a
-- list of keys and values in any order; where Go ranges over a map, the order is that of the list.
-- An entry of the attempt cache has a number for its pointer; the entries that have left the map stay
-- in a list, since their builders still hold them. The wait for the builder is an answer of `acquire`.
-- The time that a method reads is its argument, and so is what a source of snapshots returns.
--
-- Loops. The loops over a slice and over the words of the bitmap are structural recursion. The loop
-- of `ParseTLVs` and that of `ParseFrames` run on fuel, one for each byte of the input: a round takes
-- three bytes at least. Out of fuel, and in `ValidateTLVs` at an index that is out of the range of a
-- lease, where Go would panic, the model returns the error `stuck`, which the source does not have.
-- Other reads out of range, which the code's checks of the length precede, give 0 in the model.
--
-- The rules of the user. The design document of the repository (v0.2, section 12.1) lets a BLOCK rule
-- of the user take effect before TUNNEL and DIRECT. The engine does not do so: it takes the exact rule
-- and then the longest prefix, whatever the actions. The model follows the code.
--
-- Not modelled: the rest of internal/handshake, whose flows encrypt, decrypt and derive keys by
-- cryptographic libraries; `List` of
-- internal/routing, which sorts a copy of the rules; internal/controlapi and internal/app;
-- internal/crypto, which calls cryptographic libraries; internal/platform, the commands, the user
-- interface and the scripts, which are input and output; the methods that only copy state or build
-- a message.
pub mod Prelude
pub mod Text
pub mod Routing
pub mod PrivateDns
pub mod Handshake
pub mod Session
pub mod Codec
