-- ===== src/Lib.antt =====
-- A model of ic-websocket-cdk, the library with which a canister of the Internet Computer talks to
-- clients over WebSockets, by way of gateways that poll its messages.
--
-- The parts, and where they are modelled (paths from the repository's root, S for
-- src/ic-websocket-cdk/src):
--
-- Constants: the constants of S/lib.rs.
-- Types, Types/Messages, Types/Gateway: S/types.rs; the data types, `RegisteredGateway` with its
--   message queue, `RegisteredClient`. Types/Gateway/Expiry is about `delete_old_messages`.
-- Params: `WsHandlers` and `WsInitParams` of S/types.rs.
-- Errors: S/errors.rs; a function that fails returns the text of its error.
-- Env: what the library takes from candid, serde_cbor, sha2, ic-certification, ic-cdk, ic-cdk-timers
--   and the canister itself, as a record of operations and their laws that every file takes as an
--   instance argument. A callback of the canister is a program (Env/Program): it may send messages
--   and, where the source lets it, close connections, and it changes the canister's own state.
-- State: the thread-local variables of S/state.rs and S/timers.rs in one record, with the time, the
--   timers and the certified data of the system, and the monad of the functions that change it: they
--   return a value, return an error, or trap. State/Gateways, Clients, Certification, Sending,
--   Removal, Polling and Service hold the functions of S/state.rs, and `send`, `close`, `wipe` and
--   `ws_get_messages` of S/lib.rs beside the part of the state that they use. State/Relates has the
--   rules for statements about all outcomes of an action; State/Steps, Missing and Reads say what
--   each lookup does; State/Registry is about who is connected, with the rules (Rules) that a
--   property of the connections follows to be kept by all functions; State/Queues about the queues.
--   State/Removal/NoErrors says that a removal has no error to return.
--   State/Safety has the rules for actions that do not trap.
-- Api: `ws_open`, `ws_close` and `ws_message` of S/lib.rs, with the callbacks that they call. Its
--   modules are named for what they are about: Opening, Closing, Disconnecting, Numbers, Service;
--   Kept and Incoming are about the registrations, Sound, NoCost and Spent about the queues, Safety about traps.
-- Timers: S/timers.rs, and `init` of S/lib.rs. Timers/Ready and Acknowledged are about the
--   acknowledgements, KeepAlive about the check that follows.
-- Canister: the initial state, and the states that are reached by any sequence of messages and timers.
--   Canister/Sessions is the abstract view: one session for each principal, and the events that change
--   the sessions; Canister/Silent runs the two timers after each other, and
--   Canister/Certified bounds the messages that are sent, by the Costs of State/Queues.
-- TestCanister: src/test_canister/src/lib.rs, and its canister.rs in TestCanister/Callbacks.
-- Decimal: how a nonce is printed and padded in a key.
-- Prelude: numbers of 64 bits, lists, texts, and maps as association lists.
-- Tests: concrete runs.
--
-- How the parts interact: `ws_open`, `ws_message` and `ws_close` change the maps of State through
-- the functions of State/Clients and State/Removal; each message to a client, also those of the
-- library itself, goes through `ws_send`, which numbers it, puts it at the end of the queue of the
-- client's gateway and certifies it; a gateway polls its queue by `ws_get_messages`. The timers send
-- acknowledgements and remove the clients that do not answer.
--
-- Numbers: an addition or subtraction on `u64` wraps at 2^64, as in the release build. Decimal
-- numbers have a fuel of 20 digits, enough for every number below 2^64; the other loops recurse on a
-- list or a count.
--
-- The order in which a hash map is visited is a parameter, of which only is known that it is a
-- permutation. A trap restores the state from before the message, an error does not. While
-- no message is queued, the certified data may be that of an older tree: at the installation, and
-- after `wipe`, which empties the tree and does not certify it. The unused
-- `msg_type` argument of `ws_message`, the printed lines, the Candid interfaces, the derived
-- trait instances and the tests are not modelled.
mod Prelude
pub mod Constants
pub mod Decimal
pub mod Types
pub mod Env
pub mod Errors
pub mod Params
pub mod State
pub mod Api
pub mod Timers
pub mod Canister
pub mod TestCanister
mod Tests
