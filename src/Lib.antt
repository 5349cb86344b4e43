-- ===== src/Lib.antt =====
-- A selective-repeat file transfer over UDP: a verification library of the packet format, of the
-- functions that build, send and receive packets, and of the loops of the receiver and the sender.
--
-- The program. `src/packet_implem.c` has the packet, its setters and getters, and the conversion
-- from and to datagrams, with a length field of one or two bytes. `src/packet_utils.c` builds data
-- packets and acknowledgements on it, sends and receives them, and tests sequence numbers against
-- a window on a circle of 256. `src/receiver.c` runs the receiver on these: it receives a packet,
-- writes it to a file when it is the next expected, keeps it in a buffer when it is in the window
-- and early, answers it with an acknowledgement, and stops at a data packet of length 0.
-- `src/sender.c` sends packets until it has made ten, keeps them in a buffer until they are
-- acknowledged, and moves its window behind each acknowledgement. `old/src` is an earlier receiver,
-- for several senders, with its own window arithmetic and lists.
--
-- The files.
--   Base      numbers of C, bytes in both orders, reads and writes in an object, and `Run`, for
--             code that can fault (undefined behaviour) or end the process (`error` of
--             `src/utils.c`).
--   Zlib      `crc32`, a parameter: any function from bytes to 32-bit words whose value on NULL
--             is 0.
--   Packet    `src/packet_implem.c`. The packed struct is a record with a field for each bit
--             field; `first_byte` and `set_first_byte` are its first byte, as gcc lays it out on
--             a little-endian machine. Varuint has the length field, Decode and Encode the two
--             conversions, cut at the comments in the source into one function for each step.
--   Window    `is_in_window` of `src/packet_utils.c`.
--   Transfer  the rest of `src/packet_utils.c`; Text has the functions that the programs do not
--             call.
--   Receiver  `selective_repeat_receiver` of `src/receiver.c`. State has the local variables as a
--             record and the packets in a store of addresses, because the receive buffer and
--             `data_packet` point to the same packet; Steps has the branches of the loop's body,
--             Loop the body and the loop.
--   Sender    `selective_repeat_sender` of `src/sender.c`, with `resize_buffer` and `free_receiver`,
--             which no file declares, as parameters. The packets stand in the buffer itself, since
--             each is held by its slot alone; a turn is one passage of the loop.
--   Command   `parse_commands` of both programs and `create_file` of `src/utils.c`, with what
--             `getopt`, `atoi` and `printf` give as arguments.
--   Driver    `src/test.c`, the test driver: its tests of the packet functions, and the packets that
--             its other tests send.
--   Program   `src/socket.c` and the two `main` functions, from the command line through the loop
--             to the exit status.
--   Log       `dump` of `src/log.c`.
--   Old       the earlier receiver, for several senders: LinkedList is `old/src/LinkedList.c`, the
--             packets that wait for earlier ones, as a list of nodes with addresses of packets;
--             ConnexionList is `old/src/ConnexionList.c`, one connection for each sender;
--             Packet is `old/src/packet_implem.c`, on the `Pkt` of Packet, since the two structs
--             have the same fields; Window has the window arithmetic of
--             `old/src/read_write_loop.c`, and Loop that file's function: State has its global
--             variables, the packets in a store of addresses, the files and the socket's queue as
--             one record, Serve places a data packet, Reply makes the three replies, and Pass is
--             the body of the loop and the loop; Called has the loop as `main` calls it, with a
--             head that may be no list and a descriptor that may be -1. Socket is `old/src/socket.c`, and Program the
--             `main` function of `old/src/receiver.c`, with its loop over the arguments.
--   Samples   a checksum in place of the CRC, packets, and functions in place of `atoi`, `sprintf`
--             and `resize_buffer`, for the tests.
--
-- Conventions. A pointer that may be NULL is an `Option`. The object behind a pointer is the list
-- of its bytes to its end; a read or write past that end has the result `none` or `fault`. The
-- result of `malloc`, `calloc`, `recv`, `recvfrom`, `sendto`, `fopen`, `getaddrinfo`, `socket` and
-- `bind` is an argument of the function that calls it, and so is what `getopt` finds; the loop of
-- the receiver takes the result of `create_file` as one, and `receiver_main` fills it in. `error`
-- ends the process, so that what follows a call of it is not reached. Acknowledgement packets are
-- not put into the store, since nothing else points to them. Each loop of a program runs over a
-- list with one entry for each round, what the system does in it. Three loops run on fuel: that of
-- the earlier receiver over the packets that wait, which gets one unit for each node of the list,
-- since each turn takes a node off; that over its arguments, with one unit for each of them, since
-- each turn moves on; and that of `dump` over its rows, with one unit for each byte. The `int`s of
-- the loops are integers without bounds. Calls that only print are left out, but for
-- `print_data` in the receiver's loop: its `%s` reads a payload up to its first zero byte, and is a
-- fault on a payload with none; what the C library does with NULL there, which the language leaves
-- undefined, is an argument of the round. The other calls that print read packets that the code
-- around them reads too, or has made. A file that cannot be opened is a `FILE*` that is NULL,
-- since `create_file` does not see it. The memory for the head of the earlier receiver's list is
-- never written: whether it holds zeros is an argument. `free(buffer)` at the end of the sender's
-- loop is a fault.
--
-- Not modelled: the functions that only print (`print_ack` and `print_buffer` of
-- `src/packet_utils.c`, `endianess` of `src/utils.c`, `printPkt` and `printList` of `old/src`), the
-- course's skeleton, and the link simulator under `linksim`, another author's program.
pub mod Base
pub mod Zlib
pub mod Packet
pub mod Window
pub mod Transfer
pub mod Receiver
pub mod Sender
pub mod Command
pub mod Driver
pub mod Program
pub mod Log
pub mod Samples
pub mod Old
