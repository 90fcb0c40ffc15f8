-- ===== src/Lib.antt =====
-- A model of the simulated USB 2.0 host and device in C (vpi/usb) and of the simulation that tests the
-- hardware with them (vpi), with the theorems about it.
--
-- The program steps a host and a device against each other, one call for each clock cycle of a
-- ULPI bus. vpi/usb/ulpi.c has the state machines of single packets (tokens, data, handshakes) on
-- the host's side, each a step function on a `transfer_t` and the bus; vpi/usb/usbhost.c composes
-- them into bulk transactions, resets and frames, and vpi/usb/stdreq.c into control transfers;
-- vpi/usb/usbfunc.c is the device, and vpi/usb/usbcrc.c has the CRCs that all of them use.
-- vpi/usb/ulpiphy.c is the PHY between them: its registers, its start and the negotiation of the
-- speed. vpi/ulpisim.c owns a PHY, a host and a list of test cases (vpi/tc_*.c) and advances them on
-- every clock edge of a simulator: the PHY until the speed is negotiated, then a call of the current
-- test case and steps of the host by turns.
--
-- Files:
--   Base: lists, fixed-width words, Boolean tests, the result of code that may fail, and the bit
--     laws.
--   Crc: vpi/usb/usbcrc.c (`crc5_calc`, `crc5_check`, `crc16_calc`, `crc16_check`). Its children
--     are about the CRC5 (Token), the linearity of the CRC16 (Linear), packets (Packet) and
--     detected errors (Detect).
--   Ulpi: vpi/usb/ulpi.h and the helpers of vpi/usb/ulpi.c, with `ulpi_bus_t` as the record Bus
--     and `transfer_t` as Transfer (in Ulpi/Signals). Ulpi/Step has the step functions, one file
--     each, with `drive_eop` and `check_rx_crc16` in Eop; Ulpi/Run is `ulpi_step_with`. Listen is
--     a link that records the bus; TokenRun and SendRun are whole runs, Handshake the reception of an
--     ACK, Receive, Check, Packet and Overrun that of whole packets, Laws the helpers.
--   Host: vpi/usb/usbhost.h, with `usb_host_t` as the record Host; Host/Bulk has the bulk
--     transactions, Host/Step is `usbh_step`, Host/Request and Host/Control are vpi/usb/stdreq.c.
--     Codes bounds the results of the step functions; ControlLaws, RequestLaws, StepLaws,
--     Throttle, TimeOut, Opening and Acknowledge are about control transfers, requests, the host's
--     cycle, random wait states, the turn-around timer, the tokens and the ACK of bulk
--     transactions; Run is the run of a bulk transaction that the last two speak of.
--     Transaction is about a whole bulk OUT transaction: its steps, with Token, Data, Payload and
--     Answer for the phases and Whole for their sum. Incoming is about a whole bulk IN transaction,
--     on a bus that the link drives in some cycles: Token, then Start, Packet and End for the data
--     packet with Data for their sum, Answer, and Whole for the transaction; Silence is about one
--     without an answer.
--   Func: vpi/usb/usbfunc.h, with `usb_func_t` as the record Func; Func/Recv, Func/Send and
--     Func/Step are vpi/usb/usbfunc.c. Token is about a token from host to device, Deaf about
--     received data.
--   Phy: vpi/usb/ulpiphy.h and the helpers of vpi/usb/ulpiphy.c, with `ulpi_phy_t` as the record
--     Phy; Phy/Command is `uphy_txcmd_step`, Phy/Step is `uphy_step`. Run and Registers are about
--     register writes and reads, Start about the start, ChirpCycles and Chirp about the negotiation
--     of the speed.
--   Descriptor: `desc_recv` of vpi/usb/descriptor.c, and Descriptor/Laws about whole packets.
--   Cases: what the test cases share, with `testcase_t`'s data as a type of its own for each test.
--     Control has vpi/tc_getdesc.c, vpi/tc_setaddr.c and vpi/tc_setconf.c, Requests vpi/tc_getconf.c
--     and vpi/tc_getstrs.c, Bulk vpi/tc_waitsof.c, vpi/tc_bulkin.c and vpi/tc_bulkout.c, Ddr
--     vpi/tc_ddr3out.c and vpi/tc_ddr3in.c, Parity vpi/tc_parity.c, Restarts vpi/tc_restarts.c. Runs
--     has the runs of a test and the host by turns, Stages and Addressing the control transfers,
--     Prepared, Commands and Corrupt the packets that tests prepare.
--   Bench: vpi/ulpisim.h, with `ut_state_t` as the record Ut and the function pointers of a test as
--     the record TestOps; Bench/Step has `stim_step`, `test_step`, `ut_step` and `cb_step_sync`,
--     Bench/Suite the tests and the state of `ut_compiletf`. Queue is `test_step` without indices,
--     Codes bounds the results of the tests, Finishes is about the clock edges at which a test
--     finishes, Counters and Order are about all runs, and Left, Nearer
--     and Ends about the number of calls that a test makes; Clock has `ut_calltf` and `cb_step_clock`.
--   Fifo: vpi/packet_tb.c, a test bench of its own for a packet FIFO, with `fifo_sigs_t` as the record
--     Sigs and `tc_state_t` as TcState; Packets has `store_packet` and `fetch_packet`, Steps the tests,
--     Run `pt_step` and the clock edge (`cb_step_sync`, here pt_step_sync). Beats, Stored and Fetched are
--     about whole packets.
--     Clock has `cb_step_clock` (here pt_step_clock) and `pt_calltf`.
--   Vpi: what vpi/ulpisim.c, vpi/packet_tb.c and vpi/monitor.c ask of the simulator: the checks of the
--     arguments of a task, with the simulator as the record Simulator, Time the scale of its time, and
--     Monitor the task of vpi/monitor.c. Arguments, Shapes, Edges and Lines are about the checks, the
--     clock edges and what the monitor prints.
--   Tests: runs at concrete inputs.
--
-- A step function of the source returns an `int` and writes through three pointers; here it maps
-- the state, `*in` and the old `*out` to the returned code, the new state and the new `*out`. A
-- failed `assert`, an access outside an array and the like are the faults of Base/Returns. Numbers are
-- natural, and a cast, a store into a fixed width or an unsigned increment is written out as a
-- remainder; a counter that indexes an array is not, since an access past the array is a fault
-- long before it wraps. The bytes of arrays and buses are taken to be below 256 where a theorem
-- says so.
--
-- `ulpi_step_with` loops until a step returns other than 0. Its model has fuel, one unit for each
-- round, and returns `none` when the fuel ends; the theorems about it say how much is enough, and
-- that more changes nothing. `rand()` is an argument of the bulk transactions. What `malloc`
-- returns is an argument of the functions that call it. The test cases take both from the record
-- Calls: the values of `rand()` in the order of the calls, and the bytes of a pointer.
--
-- The simulator (VPI) is not part of the repository. Its iterators are the record Simulator, whose laws
-- are what its standard says of `vpi_scan`; its times and the values of signals are arguments.
--
-- Not modelled: printing, but for the lines of vpi/monitor.c; the build with `__fast_eop`; the test
-- functions beside the code; the registration with the simulator; the Verilog cores; the tools in Rust
-- and Haskell.
pub mod Base
pub mod Bench
pub mod Cases
pub mod Fifo
pub mod Crc
pub mod Ulpi
pub mod Vpi
pub mod Host
pub mod Func
pub mod Phy
pub mod Descriptor
mod Tests
