-- ===== src/Lib.antt =====
-- The game server under backend/, a C program: clients connect by WebSocket, send packets, and walk
-- their players over maps that they share. A verification library of its core.
--
-- Parts, from the wire inwards:
--   Socket      ws_write and ws_read of backend/networking/web-socket.c, over a socket whose partial
--               reads and writes are parameters, with the gaps in what arrives, and memory whose grants and junk are parameters
--   WebSocket   the frames of web-socket.c: Frame (headers, ws_length, ws_bin_frame, ws_close_frame),
--               Sender (ws_write_frame, ws_close), Receiver (ws_read_frame, ws_apply_key), Echo
--               (ws_text_frame, ws_echo_server); Protocol is RFC 6455 apart from the code, which the
--               theorems compare the code with
--   Packet      backend/communication/packet.c, packet-types.c (Templates), packet-types.h (Opcode),
--               errors.c: packets inside the frames
--   Session     backend/player/session.c: which packets a session takes in which state
--   Maps        backend/maps/map.c and map-definitions.c: the maps, and in Maps/Collision their bitmap
--   Movement    backend/player/movement.c: how far a player may go
--   LinkedList  backend/structures/linked-list.c
--   World       the running server. State: players, maps and sessions by their addresses, the locks,
--               what was sent. Loading: map_load, map_unload, map_free, player_free. Occupants:
--               map_add_player, map_remove_player, map_send_packet of map.c. Placement: player_move of
--               backend/player/player.c, map_spawn_player and map_event_activate of map.c, map-events.c.
--               Handlers: backend/communication/packet-handlers.c and db_player_get_player of
--               backend/db/db-player.c. EventLoop: a round of backend/core/event-loop.c
--               Sessions: session_create and session_destroy of backend/player/session.c. Cache: the
--               cache of players. Random: map_random_coord and map_spawn_player_random. Keeps: what each
--               operation keeps, put together in Runs, where sessions come, go and send. Serving: the
--               thread of one client, event_loop_start over the bytes of its socket, and in
--               Serving/Upgraded from its request on. Startup: backend/main.c and map_lock_init. Counting:
--               loads and unloads of a map in any order. Inspections and Logins:
--               rounds for such packets. Returning and Respawn:
--               a move to the place that the player has already, which a login ends in
--   Awaiting    backend/authentication/awaiting-connections.c: tokens that wait for their client
--   Receiver    backend/authentication/auth-reciever.c: the thread that takes tokens in
--               Receiver/Starting is start_auth_reciever as a whole
--   Db          backend/db/db.c: which objects of the database's driver a connection holds
--   Listening   open_listenfd of auth-reciever.c and web_server_start of
--               backend/networking/web-server.c; Listening/Client: what the thread of a client allocates
--               and gives back (web_server_handle_client, error, br_init, br_destroy)
--   Http        backend/networking: buffered-reader.c (Reader), header-list.c (Headers), ws_create of
--               web-socket.c (Handshake), web-server.c (Server), header_add_header (Adding)
--   Tables      GLib's hash table: its operations and documented laws, and a table that has them
--   Base        numbers, words, strings, lists and faults that the parts share; Tests has concrete inputs
--
-- The authentication server sends a token and an id, which the receiver puts into the table of
-- awaiting connections; a cleaner goes through that table every five minutes. A client asks the web
-- server for a web socket and then sends packets, of which the first brings its token.
--
-- A round of the event loop reads a packet (Packet.packet_read, over WebSocket), asks the session's
-- state whether it is valid (Session), and hands it to its handler (World.Handlers); a move packet
-- comes to player_move, which asks Movement and the bitmap of the map, and tells the sessions there.
--
-- How C is modelled: what C leaves undefined, or never gets past, is a fault: a null or dangling
-- pointer, memory that was not set, an access out of bounds, a signed overflow, a lock taken twice, a missing return,
-- a table that changes while it is gone through. Words are
-- native numbers with their wrap-around written out, on a little-endian machine with 64-bit pointers;
-- an int is an integer. A pointer is an address, and a record that was freed is none.
--
-- Fuel: ws_write and ws_read run one round more than there are bytes, and each round but the last
-- moves a byte. player_free calls itself through map_unload and map_free; it has fuel 2, since a
-- second call meets the lock of the cache. player_move runs events, which may move the player again;
-- map_spawn_player and packet_handle_move give it fuel 2, one move inside another, as many as the
-- events of map-definitions.c set off.
--
-- map_random_coord has as much fuel as it may draw coordinates, and a reader of lines as often as it
-- may look for data. The loops of a client's thread and of web_server_start have no end of their own: they
-- run for as many turns as are asked for.
--
-- Not modelled: threads (one operation runs at a time; the mutexes of players, of rows and of the
-- table of awaiting connections are left out), poll, giving back memory that nothing reads again but in
-- Db and Listening, output; the cache of players inside the handlers, since the program never fills it
-- (Cache/Leaving has player_free with its removal). Parameters: the answers of the kernel (Socket, Peer, the records of Listening) and of the
-- database's driver (Db, and for the handlers Services, as is the table of awaiting connections there),
-- getaddrinfo, which is taken to succeed, what sscanf matches, tolower, SHA-1 and base64. The Python programs are
-- left out too.
pub mod Base
pub mod Maps
pub mod LinkedList
pub mod Movement
pub mod Socket
pub mod WebSocket
pub mod Packet
pub mod Session
pub mod Tables
pub mod Awaiting
pub mod Receiver
pub mod Db
pub mod Listening
pub mod Http
pub mod World
pub mod Tests
