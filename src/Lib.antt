-- ===== src/Lib.antt =====
-- The device connector (hdc) of supertools: main/src/main/cpp/hdctools and
-- main/src/main/cpp/hdctools_src/source/src, as the host build compiles it.
--
-- A session joins the server on the host with a device, over TCP, USB or a serial line. What one side hands to
-- `Send` becomes a packet: a head, a serialized `PayloadProtect` and the data. The other side gathers the
-- bytes that arrive, cuts them into packets and hands each to `FetchCommand`, which starts tasks or feeds those
-- that run. On a serial line a packet is cut again into packages, each with check sums, a number and an
-- acknowledgement. The parts and where they are modelled (paths below source/src/common, if none is given):
--
--   Serial      serial_struct_define.h and serial_struct.h: varints, keys, messages and the registered
--               structs of session.h and transfer.h
--   Session     session.cpp. Packet: the packet of `Send`, `DecryptPayload` and `OnRead`; Read: `FetchIOBuf`;
--               Admin: `AdminSession` and `VoteReset`; Send: `Send` and `SendByProtocol`; Tasks:
--               `NeedNewTaskInfo`, `AdminTask`, `DispatchTaskData`, `BeginRemoveTask` with its timer,
--               `TryRemoveTask` and `ClearOwnTasks`; Life: the handles, the references
--               and the end of a session, with `Connect` of host_tcp.cpp
--   Heartbeat   heartbeat.cpp: the counters of a session
--   Uart        uart.h and uart.cpp. Head: check sums and `ValidateUartPacket`; Fragments: `SendUARTData`;
--               Queue: the packages that wait to be sent or answered
--   Tar         header.h and header.cpp. Header: the octal fields and the check sum of tar headers; Entry:
--               names and entry.cpp; Archive: payloads, compress.cpp and decompress.cpp
--   Tlv         tlv.cpp: tagged values
--   Credential  credential_message.cpp: messages of the credential service
--   Channel     channel.cpp, the channels between the server and its clients. Stream: frames and
--               `ReadStream`; Table: `AdminChannel`; Life: the references and the end of one channel
--   Shell       host_shell_option.cpp in source/src/host: the options of `shell` as tagged values
--   Transfer    transfer.cpp. Block: `SendIOPayload` and `RecvIOPayload`; File: the reads and writes of a whole
--               file; Buffers: circle_buffer.cpp, the pool that the blocks are read into
--   Forward     forward.cpp. Node: the text of an end; Contexts: the contexts of a task and how they end; Commands
--               and Dispatch: what sets them up and what arrives; Alive and Flow: a task over any sequence of
--               events, and bytes from one side to the other
--   Server      server.cpp in main/src/main/cpp/hdctools. Daemons: `AdminDaemonMap` and its users;
--               Forwards: `AdminForwardMap` and `CleanForwardMap`
--   Base        base.cpp in main/src/main/cpp/hdctools. Deleted: the record of freed sessions; Args:
--               `SplitCommandToArgs`; Names: `CheckBundleName`; Fields: `TlvAppend` and `TlvToStringMap`
--   Common      Boolean tests, lists, maps and bytes that the others share
--
-- A function of the source has the same name here, in lower case with underscores; a method takes the state
-- that it changes and returns it. A byte is a number below 256, a string or buffer the list of its bytes, and an
-- unsigned integer a number whose wrap-around is written out. A `std::map` is a list in the order of its keys.
-- Objects that several owners share stand in a heap under handles.
--
-- Loops whose end the structure does not show run on fuel: `FetchIOBuf` and `ReadMessage` take a byte or more a
-- turn, as do the loop of `ReadStream` and the reads of a file, the TLV constructor and `TlvToStringMap` more
-- than a head, `SendUARTData` a package's data, the unpacking of a tar file a block, `PayloadToFile` a buffer and
-- `CleanForwardMap` an entry, so one turn more than there are bytes, or entries, is enough; the results say that
-- the fuel does not run out.
--
-- Outside, as parameters: `FetchCommand` and `IsDead`, the allocation and `memcpy_s` of `Send`, the clock and
-- the writes of the serial line, LZ4, the bytes that libuv gives for a read of a file, the files that are packed
-- into a tar file and those that can be made, and the virtual functions of a task. What a lock guards is
-- one step; in Server.Daemons and in Life of Session and Channel other threads come between a function's steps,
-- elsewhere a function runs without them.
-- Not modelled: the walk through a directory that is packed, libuv callbacks and threads but for those of
-- channels and of sessions over TCP, sockets and devices, the opening of files and their directories, how
-- forwarded sockets and devices are opened, authentication, console output, and the copies of other projects.
pub mod Base
pub mod Channel
pub mod Common
pub mod Credential
pub mod Forward
pub mod Heartbeat
pub mod Serial
pub mod Server
pub mod Session
pub mod Shell
pub mod Tar
pub mod Tlv
pub mod Transfer
pub mod Uart
