-- ===== src/Lib.antt =====
-- A verification of the Python parts of OT-Security: a one-way pipeline from sensors in an OT
-- network to detection. A sender reads the logs of a sensor, gives each record a sequence number and
-- sends it over a one-way UDP link in authenticated fragments; a receiver checks, reassembles and
-- deduplicates them, spools them to disk and publishes them; detectors turn the events into findings and
-- incidents. There is no way back over the link, so the receiver alone must tell new records from
-- copies and count what was lost.
--
-- Common          names of the libraries, tests on numbers, lists, integers, bytes and the insertion-
--                 ordered dict of Python as an association list (Common/Dict.antt).
-- Link/Frame      lib/sih_common/linkframe.py: `encode` is LinkCodec.encode and `decode` is
--                 LinkCodec.decode, with the exceptions as the values of `Error`. `frames_from` is the
--                 loop over the fragments, `decode_body` and `decode_mid` the two halves of decode.
-- Link/Reassembly ingest/receiver/sih_receiver/reassembly.py: `add` is Reassembler.add, which answers
--                 by an `Answer` and returns what it appends to `expired`; `expire` is
--                 Reassembler.expire.
-- Receiver/Dedup  ingest/receiver/sih_receiver/dedup.py: `check` and `mark` are the methods of
--                 DedupWindow, `mark_stream` the part of mark that changes one stream, with its branches
--                 `advance` and `settle`; Snapshot holds `snapshot` and `restore`.
-- Receiver/Spool  ingest/receiver/sih_receiver/spool.py: `append` is Spool.append (`append_record` its part
--                 under the lock), `release` and `sync` the methods, `valid_prefix` is _valid_prefix,
--                 `parse_body` is _parse_body and `open_spool` is __init__.
-- Receiver/Core   ingest/receiver/sih_receiver/core.py: `handle_datagram`, `event`, `health_record`, `quarantine`
--                 and `housekeeping` are the methods of ReceiverCore, over the codec, the reassembler, the
--                 window, the spool and the rules of Contracts; `Environment.Tools` lists what they call.
-- Receiver/Publisher
--                 ingest/receiver/sih_receiver/publisher.py: `round` is a round of Publisher.pump; what the
--                 producer does in it is a list of events.
-- Contracts       lib/sih_common/contracts.py: the cross-field rules, and `validate` over schema errors, with the
--                 exceptions of the handling of a record.
-- Sender/Normalizer
--                 ingest/sender/sih_sender/normalizer.py: `normalize`, `envelope` and `emit_time_us` are the
--                 methods of ZeekNormalizer; Payload holds the builder, Fields the checks of single
--                 fields, and Records the payload of each log type.
-- Sender/State, Sender/Link, Sender/Context, Sender/Replay, Sender/Tail
--                 state.py, link.py, context.py, replay.py and tail.py of ingest/sender/sih_sender: `send` is
--                 LinkWriter.send, `send_record` the method of SenderContext, and `replay` that of
--                 ReplayMode, over the lines of a run, which `index` orders; `handle` is TailMode._handle.
-- Detect/FlowDelta
--                 flink/sih_detect/flowdelta.py: `on_event` and `on_timer` are the methods of
--                 FlowDeltaLogic; an `Effect` holds the new state, the metrics, the timer and the output.
-- Detect/Incidents
--                 flink/sih_detect/incidents.py: `on_event` and `on_timer` are the methods of IncidentLogic,
--                 `update` the branch of on_event for an open incident, `emit` the lines that its
--                 branches share; an `Alert` holds the arguments of alert_record.
-- Detect/Scan     flink/sih_detect/scan.py: `on_event` is the method of ScanLogic, and Timer holds its `on_timer`; a
--                 `Tally` is a map of counts with the number of its keys in the state, `contact` the branch of
--                 on_event for the pairs.
-- Backend/Auth    backend/sih_api/auth.py: `login`, `session` and `logout` are the methods of AuthStore.
-- Consumers/Base  consumers/sih_consumers/base.py: `durable_write` is the function of that name, `attempt` its try and
--                 `failed` its handler; Poll holds `run_consumer`, a round of which is `poll`. The storage answers
--                 each call by its number, so that any sequence of failures is covered.
-- Backend/Live    backend/sih_api/live.py: the ring and `backlog_after` of LiveHub; Stream has the rest of the hub
--                 (`publish`, `fanout`) with the stream of backend/sih_api/app.py (`connect`, `advance`), as steps
--                 of two threads in any order.
-- Consumers/Archive
--                 consumers/sih_consumers/archive.py: `export`, `read_back` and `verify` are the methods of Archiver;
--                 Cycle holds `cycle` and `restore`. `request` is a call of ClickHouse or of the object store, and
--                 the log of the state names what was verified, dropped and restored, the last first.
--
-- Conventions. Python's integers are ℕ where the code keeps them non-negative and ℤ elsewhere
-- (`base`, `highest` and `missing` of a stream). Text is a list of character codes, bytes are a list of
-- numbers. A method that changes an object returns its new state. An exception is a value of a
-- module's `Error`, `Failure` or `Escape`, and the state that an uncaught one leaves behind is not
-- modelled, or it is `none` with the state that it leaves (the consumers and the archive). Loops are
-- recursion on the number of their rounds or on the list that they walk over, except that of `valid_from`
-- in the spool, whose fuel is the number of bytes that it reads in rounds of at least nine, and that of
-- durable_write, which goes on as long as the storage fails, so that its fuel is any number of rounds.
--
-- Parameters: HMAC-SHA256, the uuid module, zlib.crc32 and base64, with the sizes and the inverse that their
-- documentation states; json, hashlib, gzip, int, decimal, ipaddress and the JSON Schema validator, of which
-- nothing is assumed; the readings of clocks, whether an attempt to send reaches the network, and what the
-- calls of Kafka, ClickHouse and the object store answer. Not modelled: sockets, files and third-party
-- services, threads other than those of Backend/Live, and the parts that are floating-point arithmetic, SQL,
-- HTTP or configuration.
pub mod Backend
pub mod Common
pub mod Consumers
pub mod Contracts
pub mod Detect
pub mod Link
pub mod Receiver
pub mod Sender
