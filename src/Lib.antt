-- ===== src/Lib.antt =====
-- A model of Meemaw, a wallet whose private key is split between a server and its clients' devices.
--
-- The parts and how they interact. The packages of utils/tss run the threshold signature protocols
-- of the library getamis/alice: key generation (DKG), signing, and adding a device. Each party has a
-- service around a library process, and a peer manager, in whose queue the process leaves messages
-- for the other parties; the server passes the messages between two devices on. The results are
-- wallet data, which the server's vault encrypts with a key that the client keeps and stores in the
-- database. A request is authorized by an auth provider, gets an access token, and acts for the user
-- of that token; one of the requests exports the private key from the two shares. The DKG and the
-- signing run over a websocket, between a handler of the server and the client; each side has a
-- goroutine that reads, one that sends, and one that waits for the process. A device is added by two
-- handlers at once, one for the new device and one for an existing one. The clients sign Ethereum
-- transactions.
--
-- Which file models which part.
-- Prelude (and its children): lists, strings, maps, integers, and `Outcome`, the result of a Go call: a
-- value, an error, or a panic. Encoding: encoding/hex and the numbers that math/big reads and prints.
-- Tss.PeerManager: utils/tss/peerManager.go; Queue and Fifo have what its queue is to each peer.
-- Tss.Wallet: the wallet data of utils/tss/tssManager.go and ConvertDKGResult; Merge and RoundTrip.
-- Tss.Signature: ToLowS, GenerateSignature and PostProcess; LowS, Field, RecoveryId and Layout.
-- Tss.Service: the services of serviceDkg.go, serviceSigner.go and serviceAdd.go; Lifecycle.
-- Tss.Actors: ServerDkg, ClientDkg and AdderGenericHandle; Signer and Adder have the other actors,
-- Relay and Parties are about them.
-- Signer.Signed and Signer.Endpoint have what a signer returns and how it stands at its connection.
-- Tss.Connection: Send, Receive and stringToMsg of tssManager.go; Turns and Kept.
-- Tss.Recovery: utils/tss/recovery.go and RecoverPrivateKeyWrapper; Sum.
-- Server.Database: server/database/query.sql.go on the tables of server/sqlc/schema.sql; Integrity
-- and Parameters. Server.Vault: server/vault/wallet.go; Wallets and
-- Devices.
-- Server.Auth: the middlewares and authorization handlers of server/handlers.go; Identity.
-- Server.Providers: server/auth_providers.go; Named. Server.Export: server/tss_recover.go; Tokens.
-- Server.Origin: the upgrade of a connection, as the handlers do it. Server.Dkg: server/tss_dkg.go;
-- Steps, Safety, Protocol, Result, Stuck and Acks. Server.Sign: server/tss_sign.go; Begun and Session.
-- Server.AddDevice: the start of the handlers of server/tss_add.go and their channels; Pairing. Then
-- Shared, what both handlers use; Register and Accept, RegisterDeviceHandler and AcceptDeviceHandler;
-- Run, the two together; the children of Register and Accept, Completed and Result are about them.
-- Ws: utils/ws/ws.go; Rounds; Endpoint and Written: what the ends of adding a device have in common.
-- Tx: utils/tx/tx.go; Numbers and Forms.
-- Client: client/client.go, but for its goroutines: Client.Session has those of Sign, Client.Dkg those
-- of Dkg; Exports, Session.Signed and Dkg.Returns are about them.
-- Client.AddDevice: RegisterDevice and AcceptDevice of client/tss_add.go, in Register and Accept; Safe
-- and Returns. Client.Backup: the end of client/tss_add.go, from `backup` on; Returns and Kept.
-- Prelude.Errors: the texts of utils/types/errors.go.
-- The modules called Tests (and their children) run the model on small inputs.
--
-- How state and operations correspond. A Go method that changes its receiver is a function from the old
-- state to the new one, with the same name in snake_case; a mutex makes each operation one step. The
-- constructors and methods of the third-party libraries (alice, go-ethereum, AES-GCM, JSON, uuid, the
-- token cache, HTTP) are fields of the records Alice, Library, Ecdsa, SignerLibrary, AddLibrary,
-- Birkhoff, Curve, Crypto, Cache and Web; what is relied on is in AliceLaws, NeverPanics, CryptoLaws
-- and CacheLaws. A channel that is closed is the flag `done`. Waiting for it is `none`. Concurrent
-- goroutines are a function `step` on their common state and an event that says which of them runs and
-- what its connection gives; a list of events is an interleaving. A goroutine that waits is
-- one whose step changes nothing. An atomic step is one body of a loop, or what lies between two
-- points where the handler waits; what a library's process does in between is an event too.
-- The two handlers that add a device share eight channels with room for one value, which are fields
-- with an Option or a Bool, and the adders, which each of them knows by the place in a list. What is
-- assumed of the existing device, that it sends its last message only after AcceptDeviceHandler's last
-- one was written, is the hypothesis HonestRun; Client.AddDevice.Accept.Returns has what AcceptDevice
-- does about it.
--
-- Bounds and fuel. `bit_len`, `number_bytes` and the decimal digits recurse on fuel that starts at the
-- number itself, or above it, and each step divides by 2, 256 or 10. The recovery loop has the two
-- rounds of the source. All other loops recurse on their list.
--
-- Not modelled: logging, the clock (a timeout shows as a read or a write that fails, or as the end of
-- the sender), and the closing of connections; the two devices and the two handlers that add a device
-- as one system: each side takes whatever messages the other may send; the bindings of the client for
-- the web and for phones; configuration and start-up; RpcHandler and ServeWasm, which only pass bytes
-- on.
pub mod Prelude
pub mod Encoding
pub mod Tss
pub mod Ws
pub mod Tx
pub mod Server
pub mod Client
