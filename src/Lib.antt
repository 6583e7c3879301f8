-- ===== src/Lib.antt =====
-- nuhal: C utilities and a hardware abstraction for x86 Linux and the Tiva microcontroller.
--
-- The portable library is in nuhal_all. Its parts are modelled one by one, each in a file of its
-- name, and meet as the C files do: whatever is sent is written to a byte stream, a float is handed
-- on as its bits, an error ends the call, and time is read from a clock of the platform.
--
-- - Common and its children: numbers with the wrap-around written out (Words), tests (Tests), lists
--   over the native numbers (Lists), bits by binary digits (Bits), remainders (Modular), and the
--   outcome of a call of C (Effect): it returns a value, or calls error() with a text and does not
--   return, or does what C leaves undefined.
-- - Memory: objects of bytes, and runs of bytes in them. A pointer to an object is the object from
--   the pointer on, or an offset in it; NULL is `none`.
-- - Floats: the float operations, a parameter of the functions that compute with floats. A float
--   is its 32-bit pattern, so that serialising one copies its bits. What a theorem needs of the
--   operations is among its hypotheses.
-- - Bytestream: nuhal_all/src/bytestream.c, `struct bytestream` as a record with the object that
--   `data` points into. Codec says what an injection and an extraction of any type promise, and
--   Codec/Products how records of C follow from their fields; Integers and Decode have the built-in
--   types, Builtin their codecs, Strings the strings and arrays.
-- - Utilities: nuhal_all/src/utilities.c.
-- - Queue: nuhal_all/src/queue.c. Fifo is the specification, a list of items with a bound;
--   Invariant is the invariant, Window and Refinement the items that stand in the buffer. Blocking
--   has the calls that wait, over a clock and the queues that the attempts find. Concurrent has the
--   two sides of the queue in steps that interleave, and its Invariant what holds between any two.
-- - Uart: the blocking calls of nuhal_all/src/uart.c, over a record of the calls that a platform
--   implements. Line is what nuhal_all/include/nuhal/uart.h promises of these, of the writes apart from
--   the rest, Wire a line that does it, and Read, Expected, Terminator and Write are about the loops. Host has the calls of
--   nuhal_linux/src/uart_host.c on an open port, over those of the system, and Host/OnLine what these
--   are to do for a port of Linux to be a line that works for reads. Host/Ports is the list of open ports, a
--   heap of structures, and Ports/Open the opening of one; Chain, Link, Unlink, Close and Listed are
--   about the list, Calls about the system's calls, Lifetime and Opened about the calls over the list. Tiva is nuhal_tiva/src/uart_tiva.c
--   over the calls of TivaWare, with the calls that have no counterpart in uart.h in Tiva/Control,
--   and Tiva/OnLine is about the UART as a line that works. Tiva/Drained and Tiva/Opened are about its
--   opening.
-- - Protocol: the packets of nuhal_all/src/protocol.c and the exchange of them over a port. Checksum
--   and Header are about the packet's bytes, Send and Receive about one end, Exchange about both.
--   Broadcast is the broadcast to several ports; Verified is about what it hands back, Ends, Calls,
--   Sizes and Whole about its end.
-- - Encoder and Pid: nuhal_all/src/encoder.c and pid.c, with what they put on a stream in Serial.
-- - Matrix: nuhal_all/src/matrix.c, over the float operations.
-- - Led: the colours of nuhal_all/src/led.c on a stream, and nuhal_linux/src/led_host.c. Led/Tiva is
--   nuhal_tiva/src/led_tiva.c, over the pins. Led/Signals has the error signals of led.c over an LED
--   and a clock of a platform; their loops never end, so that each is the state after so many rounds.
-- - Error: nuhal_all/src/error.c, with the handlers as parameters; Platforms has those of
--   nuhal_linux/src/error_host.c and nuhal_tiva/src/error_tiva.c, without what they print. What error() does to its caller is
--   in Common/Effect.
-- - Time: the portable part of nuhal_all/src/time.c, over a sequence of clock readings; Host
--   and Tiva are the clocks of nuhal_linux/src/time_host.c and nuhal_tiva/src/time_tiva.c. Running has
--   the delays where each reading of the clock changes the state of the hardware.
-- - Tiva: the set-up of the processor in nuhal_tiva/src/tiva.c; Tiva/Clock is about the clock after it.
-- - Pin: the packing of pins in nuhal_tiva/include/nuhal/pin_tiva.h, and nuhal_tiva/src/pin_tiva.c in
--   Setup, over TivaWare: its constants, calls and registers are a record.
--
-- Bounds. size_t is of 64 bits, as on the host, and a stream has less than 2^63 bytes. The
-- blocking calls of the UART return an int, which is given by its 32 bits; what is proved of them is for
-- less than 2^31 bytes, where the result is exact and a size_t of 32 bits, as on the Tiva, is enough. A queue's
-- buffer is counted in a uint32_t. The waiting loop of `time_delay` is on fuel, one unit for each
-- reading of the clock; it ends with the fuel that its clock needs to reach the duration. So are the
-- loops of the blocking calls of the queue. The loops of the UART take a round for each byte and for
-- each call that finds nothing to read or no room; a line bounds the number of these. The loop of a
-- broadcast takes those that its timeout leaves on a clock that runs. `error` needs three units, one
-- for each call of it that can stand inside another.
--
-- Not modelled: uart_printf and uart_scanf, which are calls of vsnprintf and vsscanf over variable
-- arguments; protocol_open, which hands three constants to uart_open; what the handlers of the platforms
-- for errors print; the vendored test framework, the tests and the build files.
pub mod Common
pub mod Floats
pub mod Memory
pub mod Utilities
pub mod Bytestream
pub mod Encoder
pub mod Error
pub mod Matrix
pub mod Led
pub mod Pid
pub mod Pin
pub mod Protocol
pub mod Queue
pub mod Time
pub mod Tiva
pub mod Uart
