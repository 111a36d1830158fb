-- ===== src/Lib.antt =====
-- The server and the client of itmmorgue, a multi-player game over TCP: what src/ of the repository
-- does, as definitions, and what makes it correct, as theorems.
--
-- The program. A server process keeps five player slots, one heap connection with a message queue per
-- client, the list through the connections, a chat, and the phase of the game. One thread accepts
-- clients, one thread per client reads its messages and empties its queue into its socket, and one
-- thread plays turns. A client keeps its own copy of the players and of the chat. Both read a
-- configuration, and the client its translations.
--
-- The files.
--   Base       lists over the native numbers, Boolean tests, C strings, and how a call can end: `ok`,
--              or `stop` with a panic, an exit, undefined behaviour, or fuel that ran out
--   Protocol   src/protocol.h and src/protocol.c: the messages (Types), the ring that queues them
--              (Mqueue), the queue that it is meant to be (Fifo), the refinement (Mqueue.Refine), and the
--              bytes of a message on a socket (Wire)
--   Keyboard   the keys of src/keyboard.h; Keyboard.Map is `keyboard_init` of src/keyboard.c and
--              `stuff_init` of src/stuff.c, and Keyboard.Defaults what they give by default
--   Player     src/player.h and src/player.c: `player_init`, `player_move`, and in Player.Receive the
--              client's `c_receive_players_full` and `c_receive_players`
--   Event      src/event.h and src/event.c: the events, the two questions about them, and `event_loop`
--   Chat       the growing buffers of src/chat.c and src/sysmsg.c; Chat.Input is the line that is typed
--              in `c_chat_open`, and Chat.Draw what `draw_sysmsg` and `draw_chat` print, the
--              prompt with what is typed too
--   Level      src/levels.h, src/tiles.h and the position of a tile from src/area.c
--   Area       the client's levels in src/area.c: `c_area_update` and `tile_destroy`, `c_level_add` in
--              Area.Levels, `draw_area` in Area.Drawing with its corner in Area.Camera, and
--              `s_levels_init` of src/levels.c in Area.Generator
--   World      what the threads of the server share: the players, the heap of connections, the two ends
--              of their list, the chat and the phase
--   Server     src/server.c, and what src/player.c and src/levels.c send. Connections is the accept
--              loop's round and `close_connection`; Send is what is queued for clients; Leave is
--              `player_connected_off`; Client, Reading, Handle and Round are `process_client`. Chain says what
--              the list of the connections is; Queues, Broadcast and Snapshot are about messages,
--              Drain about what is written, Accepted about the moves that clients ask
--              for, Start, Turn and Return about the phases of a game, and System about runs of
--              the whole server: Run is the step relation, Kept, Sending, Steps and Messages say
--              which steps leave the list alone, Listed what the others do to it, Sound and Rosters
--              what every state has of the players and queues, and Turns what turns rely on.
--              Setup is the start of the server, from which its runs begin, and Thread the
--              rounds of `process_client` (Arrives: a round with a message that came in)
--   Util       the text lengths and `readall` of src/itmmorgue.c
--   Config     src/config.c and src/locale.c: the two parsers and what reads files with them; Defaults
--              is the table of src/default_config.h, and Found what is looked up in it
--   Windows    src/windows.c: where the configuration puts the windows (Layout, Init), what a redraw
--              draws in which order (Draw, Frames, Redraw), and opening and closing (Open)
--   Client     src/client.c: the rounds of `worker`, `c_send_move` of src/player.c, and the keys of the
--              main loop (Keys); Arrive, Chatting and Delivered follow messages from the client to the
--              server
--   Splash     src/splash.c: what the splash screen draws (the two halves of the logo are First and
--              Second), where that is on the screen (OnScreen), what it leaves there (Written,
--              Shown), and the picture of the logo (Logo)
--   Menu       the menus of src/menu.c, their retries (Retry) and what they draw (Drawing), and
--              CHECK_CONNECTION of src/client.h
--
-- The state and its threads. Each operation takes the whole state and returns it. A call of `mqueue_put` or `mqueue_get`
-- is one step, under the queue's mutex. `Step` of Server.System.Run cuts the threads of the server
-- into the steps `accept_client`, `start_client`, `handle_start`, `drain`, `handle`, `leave` and `event_loop`, and
-- a run there is a sequence of whole steps. The list of the connections and the players have no mutex
-- (`close_connection` of src/server.c has a note to lock the list), so that steps of a real run may overlap in
-- time; such runs are not covered. An address is a number; the heap maps it to a
-- connection or, when it is free or freed, to nothing. A read through such an address, out of an array's
-- bounds, or of memory that was never written is `undefined`, and so is a signed overflow.
--
-- Bounds and fuel. Unsigned fields keep their wrap-around; sizes are those of a 64-bit machine. Loops
-- over arrays are recursion on their number of rounds. A loop over the list of the connections takes
-- fuel, and one more than the list's length is enough. The waiting of a turn takes 401 rounds at most.
-- The parsers take two and three rounds per byte of the text.
--
-- Parameters. malloc's address is an argument, and it does not fail. The files of lib/trie are not in
-- the repository: a trie is a type with `get` and `put`. The file system is a function, and so is what
-- the level generator prints. Keys, connections, sleeps and what is read are answers, and curses is
-- commands and a test whether a window can be made.
--
-- Not modelled. The colours and the set-up of curses, the client's socket, signals and exit, mutexes as such,
-- the log, and the scripts of the level generator.
mod Base
pub mod Protocol
pub mod Keyboard
pub mod Player
pub mod Level
pub mod Event
pub mod Chat
pub mod World
pub mod Windows
pub mod Client
pub mod Menu
pub mod Splash
pub mod Server
pub mod Util
pub mod Config
pub mod Area
