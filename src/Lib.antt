-- ===== src/Lib.antt =====
-- The verification library of yugo's Python half: the fleet-bus adapter, its durable claim store,
-- the conversation history, the coordinator, the HTTP tool and the file tools.
--
-- How the parts interact. A message from the bus is decoded and validated (`_on_message`), the
-- directed lane (`_on_request`) claims its id in the SQLite claim store, runs one turn of the
-- model, publishes what the reply asks for, and completes or releases the claim. The baton
-- fields count the hops of a chain of envelopes. The coordinator relays each request from the
-- stream to the inbox of its recipient, and a monitor alerts when its heartbeats stop. The
-- history is what the model is shown of a thread.
--
-- Files, and the code that each is about:
--   Base, Json: shared helpers; decoded JSON values with Python's dict operations.
--   Dedup (yugo/dedup_store.py, yugo/dedup_verification.py): Table is the SQLite table and its
--     statements, Clock is `_lease_clock` and the boot id, Store is `claim`, `renew`, `complete`,
--     `release`, `prune` and `prune_idle`, which opens no transaction, so that each of its statements
--     is committed by itself; Spec describes the store by one optional row for each id.
--   DropReason (yugo/drop_disposition.py): the reasons for a drop.
--   Bus (yugo/fleet_bus.py): Platform holds what is taken from CPython's libraries, Name, Timestamp
--     and Envelope are the validation, Baton the outbound envelopes, Tags the `<BUS>` tags of a
--     reply, Frame the block that an envelope is shown in.
--   Session (yugo/fleet_bus.py, `FleetBus`): drops and `publish_request`; Turn is
--     `_publish_turn_output` and `_warn_origin`, Request the directed lane.
--   History (yugo/history.py): the store of each thread.
--   Coordinator (yugo/coordinator.py, yugo/coordinator_state.py): Mode reads the environment,
--     Guard is `_guarded_task_step`, Relay is `CoordinatorRelay`, Heartbeat and Monitor the two
--     ends of its heartbeat, Mounts the file system of the state file, Lock
--     `acquire_instance_lock`, State the sqlite state with `reconcile` and `accept_reset`; the
--     other files are their proofs.
--   Http (yugo/http_tools.py): Origin, Url, Address and Headers are the tests of names, URLs,
--     addresses and header fields, Authority and Credentials the credentials file, Chain the loop
--     of `http_get` over its redirects; the other files are their proofs.
--   Files (yugo/filesystem_tools.py): Path is `_validated_parts`, Workspace `read_file` and
--     `write_file`, Listing `list_dir`; Safe and Whole are proofs.
--   Tests: the theorems at concrete inputs.
--
-- State is passed explicitly; a raised exception is a value of the result. Times are natural
-- numbers: microseconds for the wall clock (a float of seconds in the code), nanoseconds for the
-- monotonic clock. What the store reads from outside (clocks, owner token, boot id file, whether
-- BEGIN and COMMIT succeed) is the record `Env`. The connection is the record `Net`, indexed by a
-- tick that each event advances. The record `Platform` holds NFKC, `json.dumps`, `str`,
-- `str.isalnum` and `datetime.fromisoformat`. The record `Urls` holds `urllib.parse`, IDNA and UTF-8,
-- and `Network` the resolver and the servers, which may answer by all that was sent before.
--
-- Fuel: `prune_loop` and `autocommit_loop` run on their budget plus one, since a round that does
-- not end the loop deletes a row at least. `follow` runs on `max_redirects`, as the code's own guard does.
-- `scan_tags` and `parse_attrs` run on the length of their text plus one, since each round
-- consumes a character at least.
--
-- Not modelled: the NATS connection itself and its callbacks, the renewal task (its effects
-- stand in the parameter `meanwhile`), a cancellation anywhere but at the session hook, the
-- fields of an audit line, the two time stamps that a heartbeat reports, the verification of the
-- database file, the wiring of the coordinator, the reading and decoding of an HTTP response, the
-- other tools and the Discord client.
pub mod Base
pub mod Dedup
pub mod DropReason
pub mod Json
pub mod Bus
pub mod History
pub mod Http
pub mod Files
pub mod Session
pub mod Coordinator
pub mod Tests
