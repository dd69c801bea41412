-- ===== src/Lib.antt =====
-- Verification of the Go packages that speak to Steam: identifiers, authenticator codes, the
-- messages and the encrypted TCP channel of the connection manager (CM), and the client of Team
-- Fortress 2's Game Coordinator (GC) on top of it.
--
-- The parts, from the bottom up. A file is named by its module; sources are named from the
-- repository's root.
--
-- - Prelude: Boolean tests, lists, the results of fallible code (a value, an error, a panic, or a
--   loop that was cut off by its fuel), bits, bytes, decimals and the exclusive or. It models what
--   the sources use of Go itself and of encoding/binary, strconv and crypto/subtle.
-- - SteamId (steamid/steamid.go): identifiers of 64 bits and their fields, `SetUniverse` being
--   set_universe and so on; SteamId.Text has the text formats.
-- - SteamTotp (steamtotp/steamtotp.go): `GenerateAuthCode`, `GetDeviceID` and the confirmation keys.
-- - SteamClient.Message (steamclient/message.go): `encodePacket` and `decodePacket` with their two
--   formats; SteamClient.Message.Multi has `decodeMulti`. SteamClient.Protocol holds what is taken
--   from protobuf.
-- - SteamClient.Gc (steamclient/gc.go): messages of a GC inside packets.
-- - SteamClient.Events (steamclient/friends.go, persona.go and notifications.go): what the handlers of
--   pushed messages make of them.
-- - SteamClient.Session (steamclient/steamclient.go, steamclient/reconnect.go): the state of the
--   client. SteamClient.Session.Dispatch has `handlePacket`, SteamClient.Session.Send `sendPacket`,
--   SteamClient.Session.Calls `callServiceMethod` and what it waits on,
--   SteamClient.Session.Lifecycle `Connect`, `Disconnect`, `Reconnect` and the loops, and
--   SteamClient.Session.Login `Login`. SteamClient.Session.Links and SteamClient.Session.Matched
--   follow the response channels through all of these.
-- - SteamClient.Requests (steamclient/friends.go, persona.go, games.go, auth.go and `SendGCMessage`):
--   the requests on top of the session.
-- - SteamClient.Crypto (steamclient/crypto.go): padding, CBC and the cipher of the channel.
-- - SteamClient.Tcp (steamclient/transport_tcp.go): frames and the handshake that makes the cipher.
-- - Tf2.Wire: the loop over the fields of a message that tf2/item.go, tf2/socache.go and tf2/tf2.go
--   repeat in every decoder; a decoder is its Cases. Tf2.Wire.Fields describes messages as lists of
--   fields, which the decoders are compared with.
-- - Tf2.Item (tf2/item.go), Tf2.Messages and Tf2.Cache (tf2/socache.go): items, accounts, the
--   messages of the shared-object cache and the cache.
-- - Tf2.Client (tf2/tf2.go, tf2/socache.go): the client's state, callbacks and requests;
--   Tf2.Client.Objects has the handlers of the cache's messages, Tf2.Client.Dispatch
--   `handleGCMessage`, and Tf2.Client.Hello `Connect` and the hello loops as steps that interleave.
-- - SteamCommunity.Texts holds what the package uses of Go's strings on lists of runes;
--   SteamCommunity.Market (steamcommunity/market.go) parses the pages of the market, with
--   SteamCommunity.Market.Endpoints for its functions, and SteamCommunity.Inventory
--   (steamcommunity/inventory.go) joins and pages inventories. SteamCommunity.Confirmation
--   (steamcommunity/confirmation.go) lists and answers confirmations, with each request that is
--   sent, the queries for the time included.
-- - SteamApi.AssetClasses (steamapi/assetclassinfo.go): the descriptions of classes, asked for a
--   hundred at a time, over SteamApi.Json, the shapes in which they are written, and
--   SteamApi.Descriptions (steamapi/tradeoffer_types.go). SteamApi.Time (steamapi/time.go) reads the
--   server's time, which confirmations ask for.
-- - SteamSession (steamsession/session.go): the login over HTTP with its polling, and the session
--   in a file.
-- - Tests: instances of the parameters, runs at concrete inputs, and examples of the results.
--
-- Parameters. HTTP, JSON, files, regular expressions, protobuf's Marshal and Unmarshal, protowire,
-- gzip, AES, HMAC, SHA1, RSA, CRC32, base64, hex, the random source and the clock are arguments; results that depend on what their
-- documentation says name it as a hypothesis, and Tests has instances for which it holds.
--
-- Fuel. The loops over bytes run on as much fuel as there are bytes to read (one round more in
-- `decodeMulti`), since each round reads one byte at least: the result stuck stands for a loop that
-- goes on, and is shown not to occur. `handlePacket` runs on a bound of the depth of groups in
-- groups, `GetInventory` on a bound of the number of pages, and `PollAuthSessionStatus` on one of
-- the number of polls: nothing in the code bounds these where groups are compressed, where each page
-- says that there is another, and where polls fail while the context lives.
--
-- Concurrency. The steps of Tf2.Client.Hello are those of the goroutines: a locked section of
-- `Connect`, a send, the start of a loop, `Disconnect`, and the whole handler of a message, although
-- some handlers take the lock twice.
-- A call that waits takes the packets that arrive meanwhile and the case of its select as arguments;
-- SteamClient.Session.Matched.Steps interleaves the steps of all calls and loops instead. The
-- function in `OnPacket` is a stack of listeners, what the closures of `expectEMsg` hold. A read loop
-- reads a list of messages, behind which a read fails.
--
-- Not modelled: logging, locks as such, the WebSocket and dialling, the discovery of servers over
-- HTTP, the HTTP package steamstore, the rest of steamapi, steamsession and steamcommunity, and the
-- generated package protocol.
pub mod Prelude
pub mod SteamId
pub mod SteamTotp
pub mod SteamClient
pub mod SteamApi
pub mod SteamCommunity
pub mod SteamSession
pub mod Tf2
pub mod Tests
