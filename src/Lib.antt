-- ===== src/Lib.antt =====
-- Verification library for the host tools of ESP-Iris (components/esp_iris/tools/iris_gateway).
--
-- ESP-Iris connects devices to a host gateway. A device and the host exchange frames over a serial
-- line or a TCP connection; the gateway keeps a session for each device, queues operations on it,
-- and records them durably. The library follows that layering:
--
-- Common: shared names. Byte strings are lists of numbers, Python's integers that may be negative
--   are the type of Common.Ints, exceptions are values of a result type, dictionaries are
--   association lists in insertion order.
-- Wire: protocol.py. Wire.Codes holds its enumerations, Wire.Cobs `cobs_encode` and `cobs_decode`,
--   Wire.Frame `encode_frame` and `decode_frame`, Wire.Stream the class `FrameDecoder`, Wire.Tlv
--   `encode_tlv`, `decode_tlv` and the typed readers. Wire.Crc writes out `zlib.crc32` of the
--   standard library.
-- StateMachine: state_machine.py, the transition tables of operations and sessions.
-- Session: session.py, the host's end of a link to one device. Session.State holds the state of
--   `DeviceSession` and the sequencing of its handlers, Session.Send what it writes (`_send`,
--   requests, credit), Session.Info and Session.Hello `_handle_hello`, Session.Records and
--   Session.Receive the other handlers and `_handle_frame`, Session.Requests and Session.Probes the
--   methods that ask the device, over what their requests return. A handler runs as one step: the
--   frames of a link are handled by one task, in order. The authentication code of a HELLO_ACK and
--   the random nonce are parameters. Texts are kept as the bytes that are decoded.
-- Operations: Operations.Rows holds the table `operations` of store.py (`create_operation`,
--   `update_operation`), `require_same_request` of operation_identity.py and `_transition` of
--   operations.py; SQLite's statements on one key are those of an association list, and JSON columns
--   are texts. Operations.Calls is `stage` and `_run`, over how the call of the operation ends,
--   what is done to the table while it is awaited, and whether the sink takes the events.
--   Operations.Gate holds the lock of a device and its maintenance gate as a step
--   relation over what the tasks do between two waits, those of serialized operations and of those
--   that take no lock; it releases a lease only while it is active,
--   as its callers in gateway.py do. An `asyncio.Lock` goes to the first that waits.
-- Events: the event log of store.py (`append_event`, `events_after`, `latest_events`). The table is
--   a list of rows in the order of their identifiers; which identifier SQLite gives to a new row is an
--   argument, and it is assumed to be larger than any before, as AUTOINCREMENT promises.
-- Exchange: what the clients of a session see of it, its `_request` over an unknown device. A device
-- is any function of its state; it may answer, be late, or fail, each time as it likes.
-- Files: files.py, the file service of a device: Files.Paths and Files.Answers its checks,
--   Files.Methods the methods that ask once, Files.Listing, Files.Reading, and Files.Writing with
--   Files.Uploading the loops. Cursors, limits and offsets are numbers that are not negative.
--   `list_directory` takes fuel, since a device may send pages without end; the fuel that suffices
--   is a page for each entry and one more. What a client assumes of a device is a record of the
--   device's state (Files.Receiving, Files.Content, Files.Listed).
-- SystemUpdate: system_update_transport.py, and the loading of a bundle in system_update.py. SystemUpdate.Transfer
--   holds the steps of `perform_system_update`, SystemUpdate.Perform the whole of it. The loop over a
--   component's bytes takes fuel, since a device may be late for ever; it is proved that as many
--   rounds suffice as there are bytes and late answers. Random bytes are a parameter.
-- Loading a bundle is SystemUpdate.Manifest (the checks on JSON values), SystemUpdate.Archive,
--   SystemUpdate.Firmware (firmware.py), SystemUpdate.Components and SystemUpdate.Layout, composed in
--   SystemUpdate.Loading. What `zipfile` lists, `json.loads` of the decoded bytes (with the pairs of an
--   object in order, since the source's hook reads them), `hashlib.sha256` and the public keys are
--   parameters. A text is the list of its characters' numbers.
--
-- Loops of the code that advance an offset through a byte string recur on the rest of that string,
-- with fuel. The fuel is the length of the input, each round consumes at least a byte, and an error
-- of the model's own, `out_of_fuel`, is proved never to be raised. A loop over items is a recursion
-- on the list.
--
-- Not modelled: the firmware in C, the browser frontend, the HTTP routes, the file system, SQLite
-- itself, cryptography, and the wall clock; and of the host tools so far the building of bundles, the
-- workflow around an update, reconciliation, the links, media conversion, the permissions of an
-- actor, and the observability counters.
pub mod Common
pub mod Events
pub mod Exchange
pub mod Files
pub mod Operations
pub mod Session
pub mod StateMachine
pub mod SystemUpdate
pub mod Wire
