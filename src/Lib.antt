-- ===== src/Lib.antt =====
-- A model of the messaging system's core: who belongs to a channel and what follows from it, the
-- tamper-evident log of events, and the delivery of outbox rows to the broker.
--
-- Parts and files, with the code that they follow:
--   Base        lists, tables, texts and results that the other modules share.
--   Merkle      backend/app/services/merkle_service.py: build_merkle_root, build_merkle_proof,
--               verify_merkle_proof and their helpers. A text is the list of its code points and
--               SHA-256 is the parameter sha256.
--   EventChain  backend/app/services/event_integrity_service.py, log_event of event_service.py and
--               _insert_delivery_event of worker/worker_app/outbox_runner.py: the hash chain of the
--               events of a scope. The canonical JSON of an event is the parameter serialize.
--   Identifier  backend/app/core/identifiers.py: usernames and channel slugs.
--   Rbac        backend/app/services/rbac.py: roles and permissions.
--   Store       backend/app/db/models.py: the rows, and a service call as a transaction that returns
--               an error or a value with the new database.
--   Topology    backend/app/services/outbox_service.py, with _enqueue_membership_update of
--               channel_service.py: outbox rows, membership generations, desired bindings.
--   Membership  backend/app/services/channel_service.py: the requests that change a membership.
--               Requests makes a sequence of them; a refused request leaves the database alone.
--   Membership/Invites
--               _validate_invite, accept_invite, join_channel and revoke_invite of the same service.
--   Delivery    worker/worker_app/outbox_runner.py: process_outbox_batch with its retries, backoff
--               and dead letters, and the manual reset of backend/app/services/delivery_service.py.
--   Bindings    _apply_broker_binding of worker/worker_app/outbox_runner.py with declare_user_queue
--               of worker/worker_app/mq/topology.py, on a broker given by its operations and laws.
--   Sessions    backend/app/services/auth_service.py with the tokens of core/security.py: accounts,
--               sessions, the rotation of refresh tokens and the context of an access. Steps says how
--               a session may change; Runs, Rotation and Access are about sequences of requests.
--   Tickets     backend/app/services/ws_ticket_service.py, on a Redis given by its operations and the
--               laws of what its keys hold. Fresh is about a key that stays empty, Once about the use
--               of a ticket.
--   Downloads   backend/app/services/download_service.py: the limiter, with the leases that it gave out.
--   Payloads    backend/app/core/payload_limits.py: sizes, the nesting of JSON, emoji.
--   Messages    backend/app/services/message_service.py: publication, edits, deletions, pins, reactions,
--               read markers and pages. Order is about the numbers of a channel, Retry about client ids,
--               Read about paging.
--
-- How they interact: a membership request (Membership) checks the roles (Rbac), writes one row, and
-- in the same transaction raises the channel's generation, queues outbox rows and writes the desired
-- binding (Topology). The worker takes the rows one by one (Delivery) and, for a binding, brings the
-- user's queue to what the database wants (Bindings). Events are chained by their hashes
-- (EventChain), and batches of hashes have Merkle roots (Merkle). A message (Messages) is a write to the
-- same rows of channels and members, and its outbox row is Topology's; the emoji of a reaction passes
-- Payloads. A ticket (Tickets) carries the user and the session of an access context (Sessions) to a
-- WebSocket.
--
-- Representation: a UUID is a number and a table is a list of keyed rows in the order of insertion;
-- times are in microseconds; a transaction runs alone, as the row locks and the advisory lock of a
-- scope make it. In Membership the audit log records the type, the channel and the actor of an
-- event; its hashing is EventChain's. In Sessions and Tickets a call returns its answer and the new state
-- side by side, as what is committed before an exception stays. The backoff multiplier is a fraction
-- and its power is exact up to the limit of a float, where it raises as in the code; the rounding of
-- floats below that limit is left out. A row that another transaction has locked is a parameter of the
-- worker's loop. The commit of a message cannot conflict with another one, so that error path of
-- publish_message is left out.
--
-- Fuel and bounds: the loops over a Merkle level are bounded by the number of leaves, which every
-- round makes smaller; a proof has at most 64 siblings, as in the code; the batch loop of the worker
-- is bounded by the limit of its caller; the walk over JSON has one round for each value, which is what
-- it takes; a ticket is tried three times, as in the code. All else is structural.
--
-- Not modelled: uploads and the sync of several channels, the creation of channels and invites, Merkle
-- checkpoints, email verification, rate limits, the encryption of content, WebSocket connections, HTTP
-- routes, migrations and the frontend, which are left for later or are calls of libraries. RabbitMQ,
-- PostgreSQL, Redis, SHA-256, password hashes, JSON Web Tokens, the envelope of encryption.py, JSON text
-- and the substitutions of sanitize_error are parameters or absent.
pub mod Base
pub mod Merkle
pub mod EventChain
pub mod Identifier
pub mod Rbac
pub mod Store
pub mod Topology
pub mod Membership
pub mod Delivery
pub mod Bindings
pub mod Sessions
pub mod Downloads
pub mod Messages
pub mod Payloads
pub mod Tickets
