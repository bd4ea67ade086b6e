-- ===== src/Lib.antt =====
-- The devices' side of Goster-IoT: the frames that devices speak, the commands that wait for them,
-- their identities, and the service that the protocol ingress calls.
--
-- The parts and their sources:
-- - Wire: protocol-ingress/internal/protocol/gosterwy. Wire/Types is types.go, Wire/Checksum and
--   Wire/Codec are codec.go (Pack, Unpack, nonceDirection, crc16Modbus); the modules below Codec
--   hold its theorems. The reader of a connection is the list of the bytes still to come. AES-GCM
--   is the record Gcm with the laws IsAead.
--   Wire/Payload is payload.go: the payloads of registrations, metrics and logs.
-- - Adapter: Types is protocol-ingress/internal/adapter/adapter.go, the events and commands that an
--   adapter hands to the normalizer and gets from it.
-- - Tcp: protocol-ingress/internal/adapter/customtcp. Auth, Session, Reports and Downlink are
--   session.go, Commands is resolveDownlinkCmd with the commands of session.go, Connection is
--   handleConnection, from the first frame to the deferred RequeueInflight. Types holds the
--   environment Env of a connection: the core's client, the normalizer, the socket, the clock and
--   the cryptography, over a state of the world that each call may change. Below Connection, Reach is
--   the relation of the steps of a connection; Rounds, Deliveries and Loop show that the loop goes by
--   it; Returns in Loop says where the loop comes to return; Outside, Numbering and Settled are
--   about what has happened then.
-- - Downlink: Queue is go/src/device_manager/message_queue.go, Commands is
--   go/src/storage/command/repository.go, Service is downlink_command_service.go over the interfaces
--   CommandRepository and DeviceCommandQueue, which Service/Memory fills with the other two.
-- - Device: Table is go/src/storage/device/repository.go, Registry is device_registry_service.go with
--   its token cache, Presence is device_presence_service.go with its store, Access is
--   access_control.go.
-- - Login: Store, Guard and Key are go/src/web/v1/login_attempt_store_memory.go and
--   login_guard.go.
-- - Ingress: Messages, Commands, Devices and Events are handlers of go/src/web/ingress/service.go, over
--   the registry and the service of downlink commands.
-- - Identity: Resolver is go/src/identity/principal_resolver.go.
-- - Tenant: Tables are the tables that go/src/storage/tenant/repository.go reads and writes, Members
--   its operations on tenants and their users, Invitations those on invitations. Invitations/Accepted,
--   Ready and Once use the same accept_invitation; Once has the calls that may come between.
--   Owned is about the tenants that are created with an owner.
-- - Common: lists, results, words, texts and maps that the parts share.
--
-- State is passed explicitly, an error is a value of a Result, and each method that holds a mutex is
-- one step. A string is the list of its bytes; case is changed for ASCII letters alone. Numbers are
-- natural, cut to their width where the code cuts them; a signed number whose sign matters is an ℤ.
-- A float32 is its bits. Times are natural numbers, and a clock's reading is an argument. Random
-- tokens and SHA-256 digests are arguments. A table of the database is a list or a map, and a
-- statement that the database cannot run is the state's flag `up`. Whether the database checks a
-- reference to a tenant is the flag `foreign_keys`; that the name of a tenant is unique is from
-- go/db/schema. In the id made from a tenant's name a byte that is not ASCII counts as part of a
-- letter.
--
-- The loop of a connection runs on fuel, one unit for each frame that is read; a frame has at least 48
-- bytes, and the loop is shown to end with more fuel than bytes that arrive. All other loops are
-- structural.
--
-- Not modelled: the listener of the TCP adapter and its idle watch (both end a connection by ending
-- its input), MQTT, the normalizer, users, the lists of tenants and of their users, the HTTP
-- handlers, configuration, schema and logging, and generated code. Two calls of the registry at once
-- are not interleaved. The database does not begin to fail in the middle of one call, but for the
-- LoadConfig of RefreshToken and DeleteDevice, which may fail by itself (`loads`).
pub mod Common
pub mod Wire
pub mod Downlink
pub mod Device
pub mod Login
pub mod Ingress
pub mod Identity
pub mod Adapter
pub mod Tcp
pub mod Tenant
