-- ===== src/Lib.antt =====
-- Centralite Lighting for Home Assistant: the custom integration under custom_components/centralite.
--
-- A bridge (Elegance or JetStream) hangs on a serial line. A protocol object writes ASCII commands,
-- reads CR-framed lines, hands push events to callbacks and answers to the one pending request. A
-- coordinator keeps what is known of loads, switches and scenes, primes and polls an Elegance bridge
-- with its bulk query, and reconnects with a backoff when the link drops. Entities show that state
-- and issue commands.
--
-- Which file models what (paths under custom_components/centralite):
--   Base, Text           Python's integers, exceptions, str, int() and formats, as used there; Text/Match
--                        has the pieces of the regular expressions
--   Dict, Sets           dict, set and sorted
--   Protocol/Bitmap      protocol/common.py: parse_load_bitmap, parse_switch_bitmap
--   Protocol/Clock       protocol/elegance.py: encode_bcd_clock, parse_bcd_clock; datetime in Clock/Date
--   Protocol/Event       protocol/__init__.py: the push events
--   Protocol/Session     protocol/_base.py: the fields of _BaseSerialProtocol, connect, disconnect,
--                        _send, _sendrecv, _try_fulfill, _notify_disconnect, one round of _reader_loop;
--                        Session/Framing has _read_line and the loop over a byte stream
--   Protocol/Elegance    protocol/elegance.py: EleganceProtocol
--   Protocol/JetStream   protocol/jetstream.py: JetStreamProtocol
--   Coordinator          coordinator.py: State has the fields and the timers, Loads the load table,
--                        Handlers the callbacks and commands, Reconnect the coroutines cut at their
--                        awaits, Schedule the event loop that interleaves them as a step relation
--   Light                light.py: CentraliteLight
--   Switch               switch.py: the three entity classes
--   Migrate              migrate.py: the rules and classify; Migrate/Registry has async_migrate_entries
--   Parsers              parsers/elg.py (Elg, one file for each pass over the text, and Csv) and
--                        parsers/jts.py (Jts)
--   ConfigFlow           config_flow.py: Draft has what the import step collects from a file, Steps the
--                        steps of the two flows
--   Setup                __init__.py: the set-up, the unload and the reload of an entry, and async_init
--                        with whatever the event loop runs during its two awaits; Setup/Entry the labels and defaults of const.py, the flags of
--                        protocol/__init__.py and the labels of the coordinator; Setup/Entities the
--                        platforms' async_setup_entry and the constructors of light.py, switch.py,
--                        button.py and entity.py; Setup/Clock the press of the button
--   Trigger              device_trigger.py: async_get_triggers and the match of async_attach_trigger
-- The other modules hold lemmas and theorems, and the modules named Tests hold runs at concrete inputs.
--
-- A method of the protocol is a function of the session to a result and a session. A method that waits
-- takes the list of what the reader task meets until its wait ends, so every order of push events,
-- answers and a break is an argument. Python's exceptions are the values value_error, protocol_error,
-- transport_error and not_implemented. The wall clock, sleeps and time-outs leave no trace but the end
-- of that list. The coordinator is composed with the protocol through what an await of it gives: whether
-- the port opened, and the result of the bulk query, both arbitrary.
--
-- Bounds and fuel: str(n) runs on fuel n + 1, and a number has at most that many digits; the loop over a
-- byte stream runs on fuel length + 1, since each round takes a byte or ends it. Every other loop is
-- structural.
--
-- Not modelled: an OSError of the transport's write or drain and a cancelled request (both leave
-- through the caller's except clause), the delay between commands, the queue of the lock, logging,
-- and the window within disconnect() before its transport is closed. Character classes are those of
-- ASCII, which is all that the decoder of the reader lets through beside U+FFFD. The floats of
-- light.py are integer quotients, which give the same values over the ranges that light.py names.
-- Home Assistant's device lookups, the registry and the state machine that the migration works on,
-- and the XML parser of the .jts reader are parameters; a call that the registry refuses leaves it
-- as it was, and of a move to another platform under a unique id that is taken nothing is assumed. A
-- file that is imported is ASCII text. A form is given as it is filled in, and its schema is Home
-- Assistant's. In a set-up the issues, the platforms' set-up and unload, the update listener and the
-- reload are Home Assistant's and parameters, and the time that the button writes is an argument. A
-- printed file, in the round trips of the two readers, is this library's own description of the
-- format.
pub mod Base
pub mod Text
pub mod Dict
pub mod Sets
pub mod ConfigFlow
pub mod Parsers
pub mod Protocol
pub mod Coordinator
pub mod Light
pub mod Migrate
pub mod Setup
pub mod Switch
pub mod Trigger
