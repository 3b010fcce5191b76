-- ===== src/Lib.antt =====
-- The game server: its network layer, a client's login, the state of a player, the scenes, the area of
-- interest.
--
-- A game zone is a set of processes. Messages travel between them as frames on TcpConnection, each with
-- two RingBuffer. Clients connect to a GatewayServer, log in there, and have their messages passed on to
-- a scene. A SceneServer runs scenes, which its SceneManager keeps, with the players in
-- them; a player has bags, items, buffs, tasks and spells, a manager each. The SessionServer
-- knows which SceneServer runs which scene, and numbers the copies. The SuperServer
-- leads a login from the Gateway to the RecordServer, which loads the user, to the SessionServer, which
-- finds the scene's server, and to that SceneServer; it also queues what goes to the login server. The
-- AOIServer is told of entities that enter, move and leave, and keeps them by cell of a map.
--
-- Net/Ring: sdk/net/RingBuffer.h, every operation by its name. Net/Connection:
-- sdk/net/TcpConnection.cpp, where `queue_msg` and `send_msg` are SendMsg, `write_out` the two write
-- loops, `read_in` the two read loops, `process_messages` processMessages. What a socket or the TLS
-- library answers is a list of outcomes. processMessages runs on fuel; one round more than the buffer
-- has bytes is enough, since every round takes a header off.
-- Bags: SceneServer/Bag.{h,cpp}, EquipBag.cpp, StoreBag.cpp and BagManager.cpp.
-- Roles: ItemManager.cpp, BuffManager.cpp, TaskManager.cpp and SpellManager.cpp of SceneServer.
-- Scenes: Scene.{h,cpp}, CopyScene and SceneManager.cpp of SceneServer.
-- Session: SessionServer/SessionSceneManager.cpp, SessionScene.h and SessionCopyScene.h.
-- Outbox: SuperServer/LoginExternOutbox.cpp. Outbox/Queue has the queue and the calls that add to it,
-- Outbox/Flush the walk that sends, Outbox/Serve a tick. LoginClient is what the outbox uses of its
-- connection; a tick takes the three readings of the clock in it as an argument.
-- RoleName: sdk/util/RoleNameUtil.cpp. Its loop runs on fuel, one for each byte.
-- Gateway: GatewayServer.cpp, GatewayUser.h, GatewayUserManager.cpp, ClientMsgValidator.h and
-- ClientMsgRouter.h of GatewayServer, and sdk/util/ConnRateLimiter.h; Gateway/Pool is its
-- GatewayScenePool.cpp. A handler takes the session that findUser gives and answers with the session
-- that is left. Proto is the interface to the generated Protobuf code; Links is what a call finds of the
-- other servers and of the clock.
-- Timers: sdk/timer/TimerMgr.h. What a callback does is a parameter; the loop of Update runs on fuel, one
-- for each timer that is due.
-- Registry: LoginServer/LoginGatewayRegistry.cpp.
-- Super: SuperServer/SuperServer.cpp. Super/Logins and Super/Entry have the handlers of a login,
-- Super/Routes those of the routing table; a handler returns the tables and what it sends. Super/Phases
-- has the machine of phases.
-- Record: RecordServer/RecordServer.cpp, RecordUser.cpp and RecordUserManager.cpp. Database is what it
-- uses of MySQL.
-- Reconnect: tryReconnectSuper of RecordServer/RecordServer.cpp.
-- Chain: SuperServer and RecordServer together.
-- Http: sdk/http/HttpParser.cpp. splitLines runs on fuel, one for each byte.
-- Aoi: AOIServer/AOIServer.cpp, over a record of functions for float arithmetic.
-- Base: tests, lists, tables, sets, integers and words that the others share.
--
-- Counts, slots and cursors are numbers with the wrap-around of uint32_t written out where the code
-- can reach it. Tables stand for unordered maps, and are looked at by key only; where the code walks
-- one, its order is the table's. Logging is left out.
--
-- Not modelled: the processes' main loops, their registration with each other, the Gateway's
-- reconnects, the message glue of the other servers, the limits on a move (floats), databases, Lua, TLS
-- handshakes, sockets, configuration files, and the code of third parties. Of SuperServer and
-- RecordServer, the list of servers, the lists of characters, and relations but for the queue of their
-- saves.
mod Base
pub mod Net
pub mod Bags
pub mod Roles
pub mod Scenes
pub mod Session
pub mod Aoi
pub mod Outbox
pub mod RoleName
pub mod Gateway
pub mod Timers
pub mod Registry
pub mod Super
pub mod Record
pub mod Chain
pub mod Http
pub mod Reconnect
