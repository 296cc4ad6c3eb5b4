-- ===== src/Lib.antt =====
-- A model of libopenwch-tools, which programs WCH RISC-V microcontrollers through a WCH-LinkE.
--
-- The program is a stack of layers, and a file or folder here models each of them:
--
--   Target      src/target.c: the part table, detection by the identifiers that a programmer reports,
--               and lookup by name.
--   Status      src/linke.h, `enum wl_status`: a call is a function from a state to a result and a
--               state, and it keeps what it changed where it fails.
--   Usb         src/usb.c and src/usb_info.h: the scan of the bus, opening and closing a programmer,
--               the mode commands, and the transport over the endpoints. libusb is the record of calls
--               `Libusb`, on a world that they pass on.
--   Programmer  src/usb_link.c: the choice among the programmers that a scan finds, the mode switches
--               with the wait for the programmer to come back, and wl_linke_open with its closes.
--   Linke       src/linke.c over src/transport.h: the requests, the attach, reset and release
--               sequences, detection, the choice of the debug clock, register access, and the calls
--               that read memory and write flash. A `Link` is the wl_linke_t; what the transport's
--               context points into is its `world`. The transport is a parameter, which `usb_transport`
--               of Usb/Wire fills.
--   Dm          src/dm.c: abstract commands, the program buffer, memory access through it, and the
--               encoder of the instructions that it runs. The registers of the debug module are a
--               parameter (`Dmi`) that Linke/Program fills with the register access of Linke.
--   Flash       src/flash.c and src/flash_ch32v0.c: the alias and the range check, the page algorithm
--               of the CH32V00x, and verification. What the algorithm uses of the debug module is the
--               record `Access`, which `of_dmi` fills with Dm.
--   Sim         tests/sim_programmer.c, in three layers. Sim: the flash and its controller, as an access
--               of the core reaches them; `Sim.access` fills `Access` too, and the flash algorithm is run
--               against it in Flash/Ch32v0 and Flash/Image/Program. Sim/Core: the rest of the core's
--               memory, its registers, the interpreter of the program buffer, and the debug module, which
--               fills `Dmi`. Sim/Packets: the answers to requests, a transport for Linke. Sim/Programming
--               puts the layers together: each call on the upper layer is simulated by the call on the
--               layer below (Status/Simulates, Dm/Related, Flash/Ch32v0/Alike). Sim/Patching and
--               Sim/Breakpoints do the same for what the GDB server patches in the flash.
--   Gdb         src/gdb_server.c: the hexadecimal codec, the packet framing, the breakpoint table (over
--               a record of what reads and patches memory, which Patch fills), patching flash and RAM,
--               run control, the register and memory packets, the documents, the monitor commands, the
--               session loop, and the server from open to close. A connection is the bytes still to
--               come, the bytes sent, and the number of sends that succeed; what poll reports while the
--               core runs is a list.
--   Cli         src/main.c: the options, the commands with their files and their output, the terminal on
--               the debug module's data registers, and main with its exit statuses. A tool is the host
--               and what is printed. The files and strtoul are parameters.
--
-- What a call keeps of the state behind it, whatever it returns, is Status/Preserves: Dm/Preserves,
-- Flash/Preserves, Linke/Preserves and Gdb/Preserves carry it from the register accesses up to every call
-- of a layer, and Cli/Handles uses it for the number of open devices over the whole of main.
--
-- Prelude has the shared names: native numbers, lists indexed by them, fixed-width words, Boolean tests,
-- texts and the laws of the bit operations.
--
-- Numbers are native; a uint32_t sum is taken modulo 2 ^ 32 where the source can wrap, and the uint64_t
-- sum of the range check modulo 2 ^ 64, since a length of type size_t can make it wrap. Sums of the
-- lengths of objects in memory are below 2 ^ 63, and are taken as they are. An out-parameter is the result of the call. Logging,
-- sleeping and the messages on stderr are left out, and memory allocation succeeds.
--
-- Bounds and fuel: the polls of dm_wait, wait_ready and gdb_dm_wait_halted count down from their limits
-- in the source (WL_DM_TIMEOUT_US, 200000 and 2000), and wait_for_mode makes 50 scans, as many as the
-- source's waiting time holds of its polling intervals. The loop of wl_flash_verify takes a round for
-- each byte left and one more, and the page loop of wl_flash_ch32v0_write a round for each byte of the
-- image and two more, since a round of either covers at least one byte; `fail io` marks fuel that ran
-- out, a status that neither function makes itself. A debugging session has a round for each byte to
-- come and one more, since a round takes at least one byte or ends the session. A decimal number is
-- printed with at most ten digits, which hold 32 bits. The terminal runs for a given number of rounds,
-- which is when the signal arrives. The simulated core's run of the program buffer counts down from the
-- 256 steps of the source.
--
-- Not modelled: the socket calls of src/gdb_server.c (gdb_listen, gdb_recv_byte), wl_usb_strerror,
-- src/log.c and the texts of src/main.c, which print; show_write_progress and the callbacks that call
-- it; allocation that fails; of tests/sim_programmer.c, wl_sim_free, sim_bulk_out, which only refuses,
-- and the accessors that only read a field of its record.
pub mod Prelude
pub mod Status
pub mod Target
pub mod Usb
pub mod Programmer
pub mod Linke
pub mod Dm
pub mod Flash
pub mod Sim
pub mod Gdb
pub mod Cli
