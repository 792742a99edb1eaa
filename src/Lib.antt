-- ===== src/Lib.antt =====
-- A model of pyXCP, a master for the universal measurement and calibration protocol XCP, and
-- theorems about it.
--
-- A master (pyxcp/master/master.py) sends commands to a slave in a control unit over a transport
-- and waits for the responses. Its service methods run under an executor that repeats a failed
-- command as the protocol asks. Before a measurement the DAQ lists are optimised, so that the
-- variables fit the transfer objects of the slave.
--
-- Types: the commands, their categories and the error codes (pyxcp/types.py: Command,
--   COMMAND_CATEGORIES, XcpError, Event). An error code is a named member, or the bare number that the
--   parser gives for a byte without a name.
-- ErrorMatrix: the table of pre-actions and actions (pyxcp/errormatrix.py: ERROR_MATRIX), one list
--   for each command; a cell holds one item or a tuple of items, as in the source.
-- ErrorHandler: pyxcp/master/errorhandler.py. Repeater is the class of that name; Recovery holds
--   getActions and Handler.actions; Executor holds HandlerStack and the loop of Executor.__call__.
--   The service methods are a field `execute` of the record Instance: a function from the call and
--   the state of master, transport and slave to an outcome and the next state. `round` is one round
--   of the loop, `run` the loop with fuel, and `call` a call on a fresh executor. The source has no
--   bound on the rounds; the theorems give the fuel that is enough, or say that none is. Arguments
--   are integers and byte strings. Waiting times, log output and diagnostics are not modelled.
-- Optimize: pyxcp/daq_stim/optimize. BinPacking is first_fit_decreasing over items of any type with
--   a length; Blocks is make_continuous_blocks. Sizes and lengths are numbers without a bound, while
--   those of the C++ classes have 16 bits and greater ones are a TypeError: the bounds of the theorems
--   on make_continuous_blocks keep the sections below it, and first_fit_decreasing is meant for sizes
--   of 16 bits. `sorted` is a stable insertion sort (Prelude/Sort).
-- Checksum: pyxcp/checksum.py. The lookup tables are copied in full (Crc16Table, CcittTable). Crc is
--   reflect and the class Crc16; Sums holds adder, pad_to_word_size and wordSum; Algorithms holds
--   ALGO, check and validate_checksum. Frames are lists of bytes, exceptions are values, and
--   zlib.crc32 is a parameter.
-- Can: pyxcp/transport/can.py. Identifier is the class of that name; Filter is SoftwareFilter with
--   the filters that PythonCanWrapper.connect builds; Padding is pad_frame and set_DLC. An
--   exception is `none`. The bus itself, which python-can drives, is not modelled.
-- Transport: pyxcp/transport/base.py. process_response sorts the received packets; Waiting holds the
--   loops of get and block_receive. The listener thread is modelled by the packets that arrive in
--   each wait of such a loop, and the rounds of a loop are given as a list of waits: when it is
--   over, the result says that the loop still waits. The chain of event handlers is a parameter, which
--   Events fills.
-- Master: transfers in pyxcp/master/master.py. Download is push and flash_program with
--   _generalized_downloader and the loops below it, as the list of calls they make; addresses and
--   data are numbers, and progress callbacks and delays are left out. Download/Slave is the abstract
--   slave that the calls are checked against: it accepts a packet that opens a block when none is
--   open, or that goes on with the open one, and answers when the block is complete, before the
--   master sends more; a response that the program does not wait for may come later, so that the
--   slave is no model of a transfer without block mode. Download/Slave/Sizes are the limits of such a
--   slave, MAX_CTO, MAX_BS and the byte for a size, which the theorem on whole transfers asks for.
--   Fetch is fetch, over any upload; Fetch/Upload is upload with the response that request of
--   pyxcp/transport/base.py takes from the queue, and the answer of the slave is a parameter: the
--   packets that it sends for so many elements at an address. Memory (Fetch/Reading) is the
--   interface between the two.
-- Master/Unlock: getSeed, unlock and cond_unlock of pyxcp/master/master.py. The requests and the
--   algorithm that makes a key are parameters, names that are not known are none, and the loop over
--   the parts of the seed has a number of rounds. A number that is no byte in UNLOCK ends the program
--   (pyxcp/cpp_ext/framing.hpp: set_send_buffer). Unlock/Conditional is cond_unlock, and
--   Unlock/Slave an abstract slave that hands out a seed and takes a key in parts.
-- Events: pyxcp/events.py. TimeSync is the parser of EV_TIME_SYNC packets; `none` is a ValueError.
--   Chain is the chain of handlers with process_event_packet of pyxcp/transport/base.py, which
--   Chain/Reception puts in the place of Transport's parameter. The properties of a slave are a
--   dictionary, in which CONNECT stores MAX_CTO and the byte order (pyxcp/master/master.py:
--   SlaveProperties). Log output is left out, so that a
--   handler that only writes to the log keeps the state.
-- Daq: pyxcp/daq_stim/__init__.py. Sizes holds the sizes that DaqProcessor.setup computes from the
--   answers of the slave, and the layout of a list by make_continuous_blocks and
--   first_fit_decreasing. Measurements are sizes and addresses; sizes are numbers without a sign.
--   Setup is the sequence of commands that setup sends, up to the exception for packed lists, and
--   Setup/Slave an abstract slave that allocates lists, transfer objects and entries in the order of
--   the protocol.
-- Recorder: pyxcp/recorder/reco.py. Writer is XcpLogFileWriter and Reader is XcpLogFileReader; the
--   mapped file is a list of bytes, a time stamp a double, by its 64 bits (an integer that a caller
--   passes is rounded to one before), and lz4.block a parameter with the bound
--   that LZ4 states. Content is the layout of a file, Filling, Adding, Closing and Saving follow a
--   writer, and Reading a reader. compression_ratio and close of the reader are not modelled.
-- Calibration: pyxcp/master/calibration.py. Layout holds its data classes, Discovery is refresh, and
--   Operations the other methods. A dictionary is a list in the order of insertion, and the commands
--   of the master are functions on the state of the slave, which give a value or raise. Calls puts
--   calls one after another, Kept is about the object after them, and Permission about set_page.
-- TimeCorrelation: SetProperties and TimeCorrelationPropertiesResponse of pyxcp/time_correlation.py.
--   Members of enumerations are their numbers, and `none` is a ValueError. The byte order is one of
--   the two that the protocol knows; the clock structures and GET_DAQ_CLOCK are not modelled.
--
-- Shared helpers are in Prelude: lists, tests, bits, masks and words, bytes in either order (Bytes), several
-- numbers in one sequence of bytes (Struct), and sequences of steps that may fail (Runs). Tests modules
-- hold runs on concrete inputs, and each theorem at an input that meets its hypotheses.
mod Prelude
pub mod Types
pub mod ErrorMatrix
pub mod ErrorHandler
pub mod Optimize
pub mod Checksum
pub mod Can
pub mod Transport
pub mod Master
pub mod Events
pub mod Daq
pub mod Recorder
pub mod TimeCorrelation
pub mod Calibration
