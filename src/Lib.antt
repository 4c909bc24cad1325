-- ===== src/Lib.antt =====
-- Verification library of nodemesh: a mesh of nodes that exchange AMP messages over WebSockets, with a
-- WebRTC forwarding unit (SFU) in each node and a bridge to a Laravel application.
--
-- Parts of the program, and the files that model them:
--
-- * The message protocol (crates/amp). Amp/Address.antt is src/address.rs: an `AmpAddress` with its
--   parser and its `Display`. Amp/Message.antt is src/message.rs: an `AmpMessage` of headers and a
--   body, `parse` and `to_wire`. Amp/Validate.antt is src/validate.rs. Their proofs are in
--   Amp/Address/, Amp/Message/ and Amp/Validate/.
-- * The forwarding unit (crates/sfu). Sfu/Room.antt is src/room.rs: rooms hold the indices of sessions
--   in the session list. Sfu/Cleanup.antt is the loop at the end of `sfu_loop` in src/lib.rs, which
--   removes dead sessions and moves those indices. Sfu/Relay.antt is src/relay.rs: the packets and
--   tables of media relays. Sfu/Command.antt is the commands and events of src/lib.rs with
--   `is_sfu_command` and `parse_command`, and Sfu/Media.antt the fan-out of `process_events` and
--   `handle_relay_data`. Sfu/Session.antt is src/session.rs over the WebRTC library, whose operations
--   Sfu/WebRtc.antt names; Sfu/Loop.antt is `sfu_loop` of src/lib.rs, one turn at a time, over the
--   interface of sessions in Sfu/Sessions.antt, and Sfu/Loop/Browser.antt fills it with those of
--   src/session.rs. Sfu/Placement.antt says which room a session asked for and where it stands;
--   Sfu/Loop/Order/ runs the loop with maps in different orders, Sfu/Loop/Joining.antt takes a browser
--   from its offer to the media of its room, Sfu/Loop/History.antt keeps the commands of a run.
-- * The daemon (crates/meshd). Mesh/Peers.antt is the table of peers of src/peer/manager.rs with
--   `send_to` and `route`, and Mesh/Tasks.antt the connection tasks over it, interleaved;
--   Mesh/Backoff.antt the delays of `connect_to_peers`; Mesh/Connection.antt the loops of
--   src/peer/connection.rs and of `handle_inbound`, with their timing in Mesh/Connection/;
--   Mesh/Sfu.antt the daemon's end of the SFU's channel; Mesh/Bridge.antt is `handle_send` of
--   src/bridge/server.rs, and `route_outbound` and what `bridge_loop` of src/bridge/ws.rs writes, with
--   the loop in Mesh/Bridge/Loop.antt; Mesh/Dispatch.antt is `dispatch_inbound` and Mesh/Events.antt
--   `forward_sfu_events` of src/main.rs; Mesh/Upgrade.antt is `handle_ws_upgrade` and `handle_status` of
--   src/bridge/server.rs; Mesh/Subscribing.antt takes the request for a room's media from one node to
--   the next, and Mesh/Relaying.antt a packet of them back; Mesh/Callback.antt is the HTTP callback of
--   src/bridge/callback.rs; Mesh/Hello.antt the message with which a connection begins, and how the
--   other end reads it. Mesh/Config.antt is src/config.rs, and Mesh/Startup.antt `main` of src/main.rs
--   with `SfuHandle::start` of crates/sfu/src/lib.rs.
-- * The document extractor (crates/docparse), in Docparse/: Extractors.antt is the choice of an
--   extractor and of a MIME type, Extract.antt the extractors of src/extractors and Formats.antt what
--   they make of the bytes of a file, Cli.antt src/main.rs, Html.antt `strip_html_tags`,
--   Whitespace.antt `normalize_whitespace`, Pages.antt `count_pdf_pages`, Docx.antt the walk over a
--   DOCX document.
-- * The harness of tools/sfu-test: SfuTest.antt is its three handlers over the answers that browsers
--   wait for; SfuTest/Offering.antt takes an offer to the SFU's channel, SfuTest/Answering.antt the
--   answer back to the browser.
--
-- How they interact: the bridge and the peers' connections carry texts of AMP messages; the dispatcher
-- gives those of peers to the SFU, the bridge or the callback; the SFU's events become messages again,
-- which `parse_command` of another node reads. So the theorems on the wire format are used by those on
-- connections, on the bridge and on events.
--
-- The state of a component is a record and an operation a function on it. A text is the list of its
-- character codes (Text.antt, with `str` methods in Text/), a map is an association list (Dict.antt)
-- and iterated in its order, whichever that is (Dict/Order.antt compares two orders); a set of nodes is a
-- list. Channels are lists of what was put into them; a lock is
-- one call of a function. A `select!` is a list of the arms that were taken. A turn of `sfu_loop` reads
-- the clock once. Numbers are natural numbers; the clock's milliseconds and the count of pages keep
-- their wrap-around. Two loops run on fuel. The cleanup loop gets one round more than there are
-- sessions; it is enough because each round removes a session or moves on by one. The drain of a
-- session has no bound in the source, which asks the library until it waits: that some fuel is enough is
-- proved for a library that `IsDriven` in Sfu/Session/Draining.antt describes, whatever the number of
-- packets a write makes, and the loop takes the result of a drain that ends (`Drains`, there).
--
-- Parameters stand for what the repository does not hold: base64, UTF-8, the parsers of TOML, PDF, DOCX
-- and mail, the JSON reading and printing, Unicode's lower case, the clock, and the WebRTC library str0m
-- with the JSON form of its offers and answers.
--
-- Not modelled: the WebRTC library; sockets, HTTP and the spawning of tasks (crates/meshd/src/server.rs);
-- the metrics, which no code uses, and logging; the reading of arguments in crates/docparse.
pub mod Base
pub mod Text
pub mod Dict
pub mod Amp
pub mod Sfu
pub mod Mesh
pub mod Docparse
pub mod SfuTest
mod Tests
