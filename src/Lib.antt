-- ===== src/Lib.antt =====
-- Awale Online: a board game of two players over TCP, with spectators. A server keeps rooms and
-- games, a client for the terminal talks to it, and the two share a binary protocol.
--
-- Game models server/src/game.c and server/include/game.h. `Game` and `Player` are the structs,
-- `game_init`, `game_add_player`, `game_board_can_capture`, `game_is_ended` and `game_play` the
-- functions of these names; `sow`, `capture` and `any_safe` are their loops. A board is a list of
-- bytes, an array of players a function of the seat. The sowing loop runs on fuel of two rounds a
-- seed, since a lap of twelve rounds drops eleven; the other loops recur on the rounds that are
-- left. The capture test is given the memory that starts at the board, since its loop reads the
-- byte behind the twelve houses: with the layout of the struct this is the lowest byte of
-- `nb_players`. Sides are 0 and 1, as in all calls.
--
-- Wire models what server/src/protocol.c and client/src/protocol.c do with memory: a buffer is a
-- list of bytes, a write behind its end gives `none`, numbers of several bytes stand lowest byte
-- first, a string is the bytes before its NUL. Protocol holds the kinds of message of
-- include/client_server_protocol.h and include/server_client_protocol.h; its children set the
-- writers of one program against the reader of the other. Server.Writers and Client.Writers are the
-- functions `server_client_protocol_write_*` of the two files, Server.Reader is
-- `client_server_protocol_read` and Client.Reader is `server_client_protocol_read`; the table of
-- handlers is a parameter of a reader.
--
-- Server models the rest of the server. Server.State is the global state of server/src/server.c
-- with the structs of server/include/client.h and server/include/room.h, the functions of
-- server/src/room.c, and the loops that find and delete; an array is a function of the index, and
-- an index is compared with the array's length where a client, a room or a spectator is added, and
-- where the players and spectators of a game are listed or shown a move; a read of `rooms`,
-- `clients` or `players` elsewhere is by an index below one of these counts, or one that was found
-- so, and is not compared again. Server.Handlers and Server.Moves are the handlers of
-- server/src/protocol.c and `disconnect_user`: each gives the new state and the messages that it
-- sends, in their order, or `none` where it leaves an object. A local buffer, which is not
-- initialised, and what `rand` gives are arguments. Server.Loop is the loop of `app`, a round a
-- step, with `read_client` and `remove_client`; what `accept` and `recv` give is the environment's.
-- Loops run on the rounds that are left, so no fuel is needed. Server.Process is the process around
-- this loop: `init_connection`, the rounds of `app` by what `select` finds ready, with the
-- descriptors that it watches and the sockets that are opened and closed, and its end with
-- `clear_clients` and `end_connection`. Server.Names and Server.Sound follow the handlers and the
-- loop over all rounds, for the names and sockets of the clients and for the games in the rooms.
--
-- Text has what the client uses of the C library to read and print numbers: `strtol` in a base up
-- to 16 (`atoi` is `strtol` in base 10, and is converted the same way), `%d` and `%x`.
--
-- Client models the rest of the client. Client.State is the enumeration of client/include/state.h,
-- `set_current_state` of client/src/state.c and the actions of client/src/actions.c that it runs; a
-- reaction is the new state with what is printed and sent, in order. Client.Board is
-- `action_show_board`, as the text that it prints, with the widths of its lines and the numbers in
-- it. Client.Input is `handle_user_input`, and Client.Handlers are the handlers of the messages,
-- with the table that `app` fills. Client.Loop is the loop of client/src/app.c, a round a step,
-- with `read_server` of client/src/client.c; what `fgets` finds and what `recv` gives are the
-- environment's, and local buffers are arguments. Client.Run has the runs of this loop, and
-- Client.Process is the process: `main`, `app` and `init_connection` over a list of rounds, each
-- with what the system calls give in it. The other children are about these: Delivery and Lines
-- take a message and a line to its handler, Fits and Overflow compare a line with the buffer it is
-- written to, and Asked, Reactions, Answers and Moves count the moves.
--
-- System sets the two programs against each other: what one sends, in the form that the other's
-- loop gets.
--
-- Prelude has tests on numbers, lists with native indices, arrays as functions, and the fault
-- monad.
--
-- Not modelled: the log on stderr; `init` and `end`, which are empty on Linux; `game_board_print`,
-- which nothing calls; a `send` that fails, which ends the process; the limit of `FD_SETSIZE` on
-- descriptors; and what the C library and the system do behind their calls, of which the results
-- are arguments.
pub mod Prelude
pub mod Wire
pub mod Text
pub mod Game
pub mod Protocol
pub mod Server
pub mod Client
pub mod System
