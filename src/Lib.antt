-- ===== src/Lib.antt =====
-- libov: packets of a low-latency audio network, from the local machine to its peers and back.
--
-- A client (src/ovboxclient.cc) has one socket for the network (src/udpsocket.cc) and one for the
-- local machine. What comes in locally gets a header of nine bytes with a secret, the device, the port
-- and a sequence number (src/common.h, src/common.cc), is encrypted for each peer that wants it, and
-- goes to the peers or to the server. What comes in from the network is accepted only with the right
-- secret, is sorted by its number (message_sorter_t), and handed out. The client keeps a list of the
-- devices it heard of, whose timeouts a thread counts down (src/callerlist.cc).
--
-- Around it, a renderer (src/ov_types.cc, src/ov_render_tascar.cc) holds the settings of the session
-- that the lobby server sends, and starts the audio backend, TASCAR and the client with them. Its
-- functions compare the new settings with the old ones to decide what has to start again.
--
-- Prelude             library names, lists as memory, numbers in memory, Boolean tests
-- Protocol            the constants of src/common.h; Port and Mode are its name families
-- Endpoint            sockaddr_in and is_same_network, src/udpsocket.h
-- Real                floating point numbers, a parameter
-- Message             the header, packmsg and addmsg, src/common.h and src/common.cc; Edit has what
--                     writes into a packed message leave of it
-- Message/Crypt       encryptmsg and decryptmsg, src/common.cc
-- Message/Buffer      msgbuf_t, src/udpsocket.h and src/udpsocket.cc
-- Socket              ovbox_udpsocket_t: packmsg, send, recv_sec_msg, pings, src/udpsocket.cc
-- Sorter              message_sorter_t::process and the loop of sendsrv, src/ovboxclient.cc
-- CallerList          endpoint_list_t, src/callerlist.cc
-- Client              ovboxclient_t; Route has recsrv and xrecsrv, Process has process_msg and its
--                     handlers, Process/Echo the way of a ping to a client and back, src/ovboxclient.cc
-- Client/Ping         pingservice, update_client_stats, announce_latency, src/ovboxclient.cc
-- PingStat            ping_stat_collector_t, src/ovboxclient.cc
-- Tunnel              nbread, nbwrite, send, udpreceive, handleconnection, src/ovtcpsocket.cc
-- Tools               ovstrrep, src/ov_tools.cc
-- Settings            the settings with their defaults, src/ov_types.h; Differ has the operators that
--                     compare them, src/ov_types.cc
-- Session             ov_render_base_t, src/ov_types.cc; Tascar has what ov_render_tascar_t adds to it,
--                     src/ov_render_tascar.cc, Calls has histories of calls
-- Extra               set_extra_config and the settings that it changes, src/ov_render_tascar.cc and
--                     src/ov_render_tascar.h; Sections, Media and Proxy have its sections, Config the whole
-- Scene               the document of the session that start_session writes for TASCAR,
--                     src/ov_render_tascar.cc: Net has the receivers of audio, Sources the sound sources,
--                     Senders what is sent, Rack and Head further parts, Virtual and Start the whole,
--                     Midi and Multicast what can be added, Join the client that it makes
-- Lobby               get_stage_dev and parse_config, src/ov_client_orlandoviols.cc, update_plugin_cfg,
--                     src/ov_types.cc, my_js_value, src/ov_tools.h; Service has the thread of the client with
--                     what it reports, Head the first part of parse_config, Answer the answer in
--                     device_update, src/ov_client_orlandoviols.cc, Merge json_merge, src/ov_tools.cc
--
-- State is passed explicitly: an operation takes the record of its object and returns it changed,
-- with what it asks of the network. Memory is a list of bytes; a write past its end is not made there,
-- and a read past its end is `none` where the code makes one. Integers wrap where the code's do: the
-- sequence numbers at 2^16, sizes at 2^64. The three buffers that the sorter passes around by pointer
-- are places (`to_input`, `to_buf1`, `to_buf2`), so a message that a handler changes is changed in its
-- buffer. The loop that drains the sorter runs on fuel 4, which is enough by the theorem on it below.
-- Calls of read and write meet a schedule of partial transfers, and the loop on the frames of a
-- connection has as many turns as there are bytes, and one, while each frame takes four at least.
-- The renderer notes what it starts and ends in a list of calls, with the settings it started from; what
-- TASCAR and JACK answer is an argument of each call, and an exception is a value, with the state left.
-- The sealed boxes of libsodium, floats, the clock, and what sendto and recvfrom return are
-- parameters, with their documented behaviour as the laws of a record.
--
-- The service thread of the lobby client takes a list of turns, each with an answer of the server; json_merge
-- recurses into the members of a value, with their depth as the fuel.
--
-- The document is the list of calls on its nodes; nodes are numbered in the order in which they are added.
-- A function that writes a part of it takes the document and returns it with the number of the node, or
-- the names of the ports to wait for.
--
-- Not modelled: threads and their locks (a lock is the Boolean result of try_lock), the socket calls of
-- the operating system, logging, how libcurl makes a request to the lobby server and the waiting between
-- two requests, and what TASCAR does with the document of a session: whether it takes it is an argument. The text
-- of numbers, the functions of real numbers and nlohmann::json are parameters, too; whether an ambient
-- sound can be fetched, and the address of this device, are arguments. Texts for the log (addr2str,
-- ep2str) are left out, as are the settings and statistics of the plugins as JSON, which are read from a
-- running session of TASCAR, update_plugincfg, which needs them, and what asks the operating system: the
-- sound cards, the MAC addresses, the network interfaces and the utility programs.
pub mod Prelude
pub mod Protocol
pub mod Message
pub mod Endpoint
pub mod Sorter
pub mod Real
pub mod CallerList
pub mod Socket
pub mod Client
pub mod Tunnel
pub mod PingStat
pub mod Extra
pub mod Lobby
pub mod Tools
pub mod Settings
pub mod Session
pub mod Scene
