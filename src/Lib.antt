-- ===== src/Lib.antt =====
-- A verification library for libUartCommProtocolLinuxClient, a packet protocol with acknowledgements
-- over a serial line, and the utilities it rests on.
--
-- The parts. protocol/uni_communication.c frames an application's packets, sends them, waits for the
-- peer's acknowledgement and resends; on the receiving side it takes one byte at a time, finds frames
-- in the stream, answers them and passes them to the application. It checks frames by the CRC of
-- utils/uni_crc16.c. The sleep between two sends is utils/uni_interruptable.c's, which the receiving
-- side breaks when an answer comes. The bytes come from uart/uni_uart.c: one thread reads the device
-- into a ring of utils/uni_ringbuf.c, and another one gives the parser what the ring holds. All parts
-- log through utils/uni_log.c. Over the protocol, channel/uni_channel.c queues each packet that
-- arrives in an event list of utils/uni_event_list.c, whose worker hands it to the part that takes it:
-- channel/uni_network_helper_server.c does the socket calls of a peer that runs
-- channel/uni_network_helper_client.c, channel/uni_asr_business.c has the speech requests, and
-- channel/uni_audio_control_server.c the playback. main.c puts them together: it has an event list of its
-- own in front of the channel's, and reads commands from the terminal.
--
-- The files.
--   Prelude: shared names, lists over native numbers, Boolean tests, laws of exclusive or, integers.
--   Crc16: `crc16tab` and `crc16` (utils/uni_crc16.c). Crc16/Detect and Crc16/Xmodem have its proofs.
--   Protocol/State: the globals and the function statics of protocol/uni_communication.c as one
--     record, and the calls out as a list of effects. A fault is `none`.
--   Protocol/Packet: the fields of `CommProtocolPacket`, the checksum, `_assmeble_packet`.
--   Protocol/Send: `_wait_ack`, `_write_uart`, `_assemble_and_send_frame`,
--     `CommProtocolPacketAssembleAndSend`.
--   Protocol/Receive: `_protocol_buffer_generate_byte_by_byte` and all it calls,
--     `CommProtocolReceiveUartData`. The jumps to L_HEADER and L_END are `store_byte` and
--     `end_of_byte`.
--   The other files of Protocol are proofs: Frame and Reply about building and answering, Buffer,
--     Process and Safety about the buffer's bounds, Parse, Whole, Deliver and RoundTrip about a frame's
--     way through the parser, Answer, Reliable, Delivery and Nacked about acknowledgements and resends,
--     Exchange about two peers. Protocol/Life is `CommProtocolInit` and `CommProtocolFinal`, and
--     Protocol/Samples has states for the tests.
--   RingBuf: utils/uni_ringbuf.c, the ring of bytes behind uart/uni_uart.c. RingBuf/Inv has its invariant and
--     the bytes that it holds, Read and Write the two copies, Refine the bounded queue it implements, and
--     Calls is what its callers use.
--   EventList: utils/uni_event_list.c, three queues of events that a worker consumes by priority.
--     EventList/Drain is about loops that nothing disturbs, EventList/Order and the files below it
--     about any interleaving of the threads, one call of EventListAdd or one of the two
--     parts of a round at a time: the part under the mutex, and the handlers and the release after it.
--   NetHelper: channel/uni_network_helper_server.c and channel/uni_network_helper_client.c, by which a
--     device without a network uses its peer's sockets. Codes and Messages are
--     channel/uni_network_helper.h; System is the system's calls as a parameter, Server the handlers
--     `_server_do_...`; Client is the table `g_socks`, Calls the `NetHelperCliRpc...` functions and
--     Responses the handlers `_client_do_...`. Exchange joins the two over a line that loses nothing
--     but what the protocol refuses as too long, a payload of more than 8160 bytes,
--     Request says what a remote call stands for; Owner, Local, Sessions, Opening, Ensures and Kept
--     carry the proofs of Remote, Sockets, Reading, Closing, Answers, Table, Limits and Reuse.
--   Channel: Audio is channel/uni_audio_control_server.c, Speech is channel/uni_asr_business.c,
--     Routing is `_event_list_event_handler` of channel/uni_channel.c, Queue
--     is the rest of that file over the event list of EventList, and Codes has the numbers of their
--     messages. Playing, Recording, Routed, Queued and Handed are proofs.
--   Uart: the two threads of uart/uni_uart.c, `_recv_task` and `_protocol_stack_parse_task`, in turns that
--     end at a call of the ring or of the parser, and in Uart/Open the functions that open, set up, write
--     to and close the device. Uart/Stream compares the ring between the threads with the queue of
--     Uart/ByteQueue, Uart/Ahead and Uart/Drain are about the bytes on their way and the turns they take,
--     and Uart/Whole follows a frame from the device to the application.
--   Interruptable: utils/uni_interruptable.c, a sleep that a byte in a pipe ends. Interruptable/Latch
--     compares it with a latch, and Interruptable/Life is about what it opens and allocates.
--   Log: utils/uni_log.c. Log/Lines and Log/Bytes are about the buffer of a line, Log/Ending about the
--     message and the newline, and Log/Write about what is printed and saved.
--   Program: main.c, its event list between the protocol and the channel, and in Program/Commands what is
--     typed. Program/Order, Passed and Reached follow a packet through both event lists.
--
-- Conventions. Bytes and machine words are native numbers with their wrap-around written out. The
-- allocator is a parameter that may fail; theorems that need memory say so. What arrives while a sender
-- sleeps is a parameter of the sending functions. Locks are not modelled: what is done under one is
-- done alone. The resend loop recurses on the resends left, five at first, so no fuel is needed.
--
-- The transmission of a remote call is a parameter too, which gives the state when the call's wait ends;
-- semaphores are a record of operations with two laws, and the peer's system is a function from the
-- calls so far to the next answer. Memory for messages is taken to be left.
--
-- The turns of the two threads of uart/uni_uart.c and the calls of utils/uni_interruptable.c and
-- utils/uni_log.c recurse on nothing but lists, so they need no fuel. The log's texts of time, thread and
-- line number, and the message, are parameters, as snprintf's formatting is the C library's.
--
-- Not modelled: the operating system's semaphores and threads, the start of main.c, and under
-- channel/ the debug messages and the daemon, which nothing uses and whose uni_iot.h the repository
-- lacks. The calls of the log from the other parts are left out.
pub mod Channel
pub mod Crc16
pub mod EventList
pub mod Interruptable
pub mod Log
pub mod NetHelper
pub mod Prelude
pub mod Program
pub mod Protocol
pub mod RingBuf
pub mod Uart
