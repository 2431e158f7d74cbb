-- ===== src/Lib.antt =====
-- Verification of asmOS, a small operating layer for the PlayStation 2 and x86.
--
-- The program is a set of C modules with static state that call each other directly. A module's
-- static variables are a record here, an operation is a function that takes the record and returns
-- its result with the new record, and a pointer that may be null is an option. Numbers are natural
-- numbers, with the wrap of a machine word written out where the code has one.
--
-- The parts, and where they are modelled:
--   Prelude       shared names, Boolean tests, lists, words, C strings.
--   Allocator     the interface of an allocator: what a client relies on, with its laws.
--   Heap          src/memory_manager.c, the kernel heap: malloc, free, realloc, calloc. A heap is
--                 the list of its blocks in address order, and the bytes of the payloads. Tiling and
--                 Blocks hold the invariant and its lemmas, InUse the list of the blocks in use,
--                 Memory the loops over bytes, Malloc, Free and Contents the theorems,
--                 fills the interface Allocator, and Runs is about sequences of calls.
--   Budget        src/memory_budget.c, the accounts of the memory regions.
--   Swap          src/memory_budget.c, the swap slots, over any allocator and the accounts.
--                 Ownership says who holds which pointer, Safety that no operation breaks it,
--                 and Runs that no sequence of calls does.
--   Rle           src/memory_budget.c, the compression of swapped memory.
--   Transport     src/transport.c, packets with a checksum, heartbeats and reconnection. Packet is
--                 about the bytes on the network, Failover about runs of calls.
--   Party         src/party.c, rooms on the network, whose messages go over Transport. Rooms is
--                 about the room in runs of calls, Messages about what arrives.
--   Storage       platform/x86/hal_storage.c, files on a FAT12 disk. Names is about file names,
--                 Directory about the root directory, Roundtrip about whole files, Ram is a disk for
--                 tests.
--   SaveManager   src/save_manager.c, backups and clones of saves, as files of Storage. Clones is
--                 about the files of the slots.
--   GameHistory   src/game_history.c, the list of played games.
--   Profiles      src/controller_remap.c, the saved settings of the controller.
--   Bluetooth     src/bluetooth.c, paired devices and the map of the controller.
--   Streams       src/streaming.c, the chunked file requests.
--   Streaming     src/streaming.c, the stream of the screen, whose chunks go over Transport. Frames
--                 is about what a frame puts on the network.
--   Net           src/net/udp.c and src/net/icmp.c. Queue is about the ring of received packets,
--                 Delivery about datagrams, Address about the text of an address, Icmp about the
--                 echo request and its checksum.
--   Console       src/kernel.c, the text screen, kprintf and ksscanf. Paper is about the screen as
--                 the end of a longer paper, Format about printed and scanned numbers.
--   Video         include/video.h, the size of the screen.
--   Graphics      src/graphics.c, pixels, shapes and text. Shapes and Letters say which pixels are
--                 painted.
--   Games         src/game.c, the rules of Snake, Pong, Racing and Tetris. Snake/Board is about the
--                 cells of the snake, Pong/Field about the ball and the paddles, Racing/Road about
--                 the obstacles as a list, Tetris/Lines about the cleared lines, Tetris/Well about
--                 where the piece can be.
--   BlockDev      src/block_dev.c, sectors over the calls of the BIOS.
--   Fat12         src/fat12.c, the FAT12 driver over the sectors of a disk. Chains is about the
--                 clusters of a file, and Chains/Lengths about how many there can be.
--   Scheduler     src/scheduler.c, the tasks and whose turn it is, on x86.
--   Pause         src/pause_engine.c, the titles that may be paused.
-- Functions keep their names from the source. A loop of the source, or a step of a larger function,
-- that is a definition of its own has a comment that says so.
--
-- Fuel. `compress_from` gets the length of the source, and each round reads at least one byte.
-- `read_chain` gets one round more than the wanted bytes fill sectors, and each round but the last
-- reads a whole sector; `write_data` and `read_clusters` likewise. `clear_rows` of Tetris gets 41
-- rounds: one for each of the 20 rows, one more for each row that is cleared, and the last. The
-- folding of a checksum gets three rounds, of which it takes at most two and the one that ends it.
-- The other loops are recursions on the data, or on the number of their rounds; the loop of a game
-- is a recursion on the keys that come before each of its ticks.
--
-- What is a parameter: the address of the memory pool, the disk (Storage.Device, with the laws of
-- its sectors, and the sectors of Fat12), the calls of the BIOS under BlockDev, the network (whether
-- a packet was sent, and what arrives), the framebuffer that is streamed, the font, and the
-- allocator under the swap slots.
--
-- What is not modelled: messages on the console, the block headers as bytes of the pool, which
-- are the list of blocks in place of bytes, pointers into the pool that no block begins with
-- (`none` stands for what the code does there), uninitialised memory, which the pool's bytes
-- stand for, the clearing of the swap slots by `memory_budget_init`, which is run before any slot
-- is taken, what a block device leaves of a sector whose read fails, and FAT entries behind the
-- 4608 bytes of the FAT, for which the code reads the neighbouring array. A write past the end of
-- a block or of a buffer has no result either where the model says so. Of the games, the drawing
-- and the waiting are left out, and Space Invaders and the launcher have no model, and neither
-- have the lines and the demo of the graphics, the memory card, the quantum and subsystem
-- registries, the shell, the loader, and the wrappers of hardware registers and of the libraries
-- of the PlayStation 2.
pub mod Prelude
pub mod Allocator
pub mod Heap
pub mod Budget
pub mod Swap
pub mod Rle
pub mod Transport
pub mod Party
pub mod Storage
pub mod SaveManager
pub mod GameHistory
pub mod Profiles
pub mod Bluetooth
pub mod Pause
pub mod Video
pub mod Streaming
pub mod Streams
pub mod Scheduler
pub mod Net
pub mod Console
pub mod Graphics
pub mod Games
pub mod BlockDev
pub mod Fat12
