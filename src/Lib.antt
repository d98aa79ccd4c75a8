-- ===== src/Lib.antt =====
-- Models and proofs for morse_cli, the command line tool that configures Morse Micro chips.
--
-- The program turns a command line into a command buffer, hands it to a transport, and waits for
-- the response. Of the transports the one over a UART is modelled from the buffer down to the
-- single octets: it appends a sequence number and a CRC to the command, sends it in a SLIP frame,
-- and reads frames until the response with that number arrives.
--
-- Base: numbers, lists, C's int results, and the bit operations as arithmetic (Base.Bits, Base.Xor).
-- Slip: transport/slip.c and slip.h. slip_rx and slip_tx are functions over the receiver's record
--   and over the state of the transport under them. Slip.Escape describes the format by itself.
-- Crc: crc7_gen, crc16_gen and crc16_check of utilities.c, morse_crc16 and its table of
--   transport/uart_slip.c. Registers are numbers; a shift to the left wraps at 2 ^ 32 or 2 ^ 16.
-- Transport: struct morsectrl_transport_buff and the error codes of transport/transport.h. A buffer
--   is the memory block with the offset of its data pointer.
-- UartSlip: transport/uart_slip.c; UartSlip.Setup has the options and the UART from uart_init
--   to uart_deinit. uart_write is a parameter over a state of the UART; uart_read is the list of what its calls return. The receive loop is a
--   recursion on that list: when it runs out the function still waits, which is a result of its own.
--   Failed assertions are a result too. cmd and resp are two different buffers.
-- Sdio: transport/sdio_over_spi.c over a record of the SPI driver's operations: commands without a
--   data phase (Sdio.Command), CMD53 with the layout of its frame and the blocks of a read
--   (Sdio.Cmd53), memory blocks and registers (Sdio.Memblock, over the two commands as parameters)
--   and the reset (Sdio.Reset). The loop over 64 KiB sections takes the buffer's length as fuel: a
--   round moves an octet or more. A size_t has 64 bits; what the code reads behind the end of a
--   buffer is not in the model, where the list ends.
-- Transport.Table, Transport.Dispatch: transport/transport.c. An iterator over the table is the rest
--   of the table; a null operation is `none`; the loops take the length of the table as fuel.
-- Command: command.c, with the transport's send operation as a parameter.
-- Raw: raw.c, from the values of its options to the octets of the request. Raw.Parse reads them back.
-- Utilities: the conversions of utilities.c, over strtol and strtoul as parameters.
-- Twt: twt.c, over the list of what getopt returns and the same parameters.
-- SetChannel: channel.c, from the values of its options to the commands that it sends.
--
-- ConfigFile: config_file.c, over malloc, which may fail for each of its purposes by itself, and the
--   octets of the file. The buffer for a line keeps what earlier lines left in it. The loop takes one round more than the file has octets. Texts in
--   blocks of memory, with snprintf, strncmp and isspace, are in Base.Strings.
--
-- Standby: standby.c. The parser of key=value files is over the code for a pair (Standby,
--   Standby.Config, Standby.Session); the commands are in Standby.Request and Standby.Top, over the
--   sending, the files and the library functions that read numbers. A loop over a file takes one
--   round more than the file has octets.
--
-- CommandLine: main and usage of morsectrl.c, from the values of the option table to the exit code,
--   with the configuration file of ConfigFile and with the transport and the handlers, as main has
--   sorted them, over a state.
--
-- Elf: elf_file.c. The files are octets in memory; what is read behind their end is zero, and a
--   read of a file whose offset lies behind the end does not end, which is the result `none`.
--   Elf.Load has the loading onto the chip with the allocation of a buffer and
--   morsectrl_transport_mem_write as parameters, Elf.Command the command load_elf. The
--   theorems on the statistics and on segments ask that what the code reads lies in the file; the
--   segments are described by the members of the headers in the file (Elf.Segments), and Elf.Stats,
--   Elf.Written and Elf.Whole have the theorems.
--
-- VendorIe: vendor_ie.c, over the list of what getopt returns.
--
-- Whitelist: whitelist.c, the request from the options, with inet_pton and the sending as parameters.
--
-- Messages to the terminal are left out everywhere. Not modelled: the device drivers (libmpsse,
-- netlink, termios), which the transports call, the vendored libraries, and the commands that only
-- fill a request from their options.
pub mod Base
pub mod Slip
pub mod Crc
pub mod Transport
pub mod UartSlip
pub mod Sdio
pub mod Command
pub mod Raw
pub mod Utilities
pub mod Twt
pub mod SetChannel
pub mod ConfigFile
pub mod Standby
pub mod CommandLine
pub mod Elf
pub mod Whitelist
pub mod VendorIe
