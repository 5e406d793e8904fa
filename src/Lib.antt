-- ===== src/Lib.antt =====
-- A model of the servers of a distributed game: clients log in at a login server, are sent to a
-- router, and play in zones that game servers run; a control server gives the zones to the game
-- servers and balances them. All of them talk by typed datagrams over SSL.
--
-- The parts, their files and the code:
--
-- - Base: tests, lists, `int`, `double` and `std::map` as the other parts use them.
-- - Login (servlogin): Login has the state of the class `Login` (src/Login.cpp) with its five maps
--   and the handlers of LoginRequest.cpp, LogoutRequest.cpp, ControlConnection.cpp and
--   ClientClosedConnection.cpp, each whole. Login/Password has the password check, with its buffer
--   and the lengths that it uses. Login/Sessions and Login/Validity have what it means that the maps
--   agree, Login/Accepting and Login/Requests what each handler does, Login/Served sequences of
--   requests, Login/Weakness where the maps stop to agree, Login/Buffer what the check depends on.
--   Login/Contract is a specification without the maps: who has a session, and the next number;
--   Login/Abstraction and Login/Refinement relate the maps to it.
-- - Routing (servrouter): User, Zone, Server and Router have the classes of the same name
--   (src/User.cpp, Zone.cpp, Server.cpp, Router.cpp); Instructions has the instructions of
--   InstControl.cpp. Users and zones are on a heap, since zones and servers point to them: an entry
--   that points to a deleted object is part of the model. Sound has what it means that all pointers
--   are live, Keeps, ZoneKeeps and Leaving that operations keep it, Steps sequences of operations,
--   Received what arrives, in any order, Unplaced and UnplacedZones what a running router never has,
--   Arrived what follows, Faults what goes wrong. `clear` is in Destruction. What is done with a connection is in the log of events, also
--   where the connection was deleted before.
-- - Control (servcontrol): State has the class `Control` with its servers on a heap. Addresses has
--   the start of the program up to the main loop, Assignment `zoneAssignment`, Loads the mask and
--   the load reports, Users the instructions of NewUser.cpp and DisconnectUser.cpp, Balance
--   `balance` with what it calls, IpServer the instruction of IPServer.cpp, MainLoop the loop of
--   `main` with its two alarms. Coverage, Rounds and FrontServer are about the assignment, Connecting
--   about the table of addresses, Waiting and Reports about the reports, Owners about what follows,
--   LaterRounds about the rounds after the first one, Unset about the address that a router asks for.
-- - Wire (conexion): Factory has TransferableFactory.cpp, Datagram and Bytes what is sent of an
--   object (include/Datagram.h), Sending and Receiving the loops of TCPConnectionSecurity.cpp.
--   RoundTrip joins the two sides for one datagram, Stream for a sequence of them; Agreement is
--   about the factory and about links that fail.
-- - Plain (conexion): Connection and Reading have source/TCPConnection.cpp, the connection without SSL,
--   Size the bytes of a length, Operations its calls in any order. RoundTrip is about a packet,
--   Parts about what arrives in parts, Reported about the listener for the closing.
-- - Manager (conexion): Connections has source/ConnectionManager.cpp, its list of connections and
--   what a turn of the listening thread does with it. Admission is about the connections that it
--   receives from, Closing about the closing, whatever the thread is at.
-- - Game (servjuego): Server has the class `GameServer` with the instructions of InstControl.cpp and
--   InstRouter.cpp, Handler a zone (`ZoneHandler`, and the users of game/src/PXCZone.cpp). Dilation
--   is about the load of a zone, Reports about the load reports on their way to Control, Reached
--   about what a game server becomes by what it receives. Lifecycle has how the thread of a zone starts
--   and stops, Stopping when it ends.
-- - Client (cliente): State has the class `Client` (src/Client.cpp) and its `ClientGame`, Instructions
--   what InstLogin.cpp, InstRouter.cpp and InstServer.cpp do, with the queue of the game, Field the
--   names in a login request, LoggingIn `login`, `init` and `go`. Answered, Failing and Unplayable are
--   about logins, Queue about the instructions in the queue.
-- - World (servjuego/game and cliente/game): User and Zone have PXCZone.cpp, which is the same in
--   both, Play the client's src/PXCGame.cpp. Membership is about who is in a zone, Shown about whom
--   the client shows, Pressed about what it sends for what the player presses.
-- - Profiles has the tables that the constructors of LoginProfile, RouterProfile, ControlProfile,
--   GameServerProfile and ClientProfile fill; Profiles/Agreement is about both ends of a link.
--
-- How the parts meet: a login server tells the control server of a client (Login's `new_client`),
-- the control server tells the router and a game server (Control/Users), the router enters the user
-- (`add_user_received` of Routing/Instructions); a game server tells Control the loads of its zones.
-- Each of these is a datagram that Wire carries. Joining takes a client from its login request over
-- the login server and the router to the end of its login.
--
-- Conventions. A fault, that is undefined behaviour such as following `end()`, a pointer to a
-- deleted object or a read or write outside of an array, is `none`. Handlers hold their mutexes from the
-- first to the last access, so one handler is one step and threads are sequences of steps. What is
-- sent is an event in the state. `double` is a record of operations without laws.
--
-- Bounds and fuel. The login server's numbers are unsigned of 32 bits and wrap; a theorem that needs
-- fresh numbers says how many are left. The loop of the zone assignment is on fuel, and as much fuel
-- as there are zones is enough while links stay up; with all links down it does not end, and neither
-- does the model. `SSL_shutdown` is called on fuel, since OpenSSL decides when it is over. The loop
-- of the balancing has the number of servers as its bound, as in the code.
--
-- What is a parameter: the answers of MySQL and of SHA1 (`Backend`), also that a query fails, of
-- OpenSSL, whether a link is online, how many bytes the compiler leaves unused behind `resultPwd`,
-- whose end every password check overruns by one (without a spare byte no check returns), what a
-- listening thread does while it is waited for, the memory behind a buffer where the code reads it, and the order of addresses.
--
-- What arrives while a client logs in or the control server's `main` waits is a list of happenings,
-- one for each time that a thread executes an instruction, an alarm goes off or the loop looks at its
-- conditions: where the list ends the loop still waits. A listening thread's turns are a list, too.
--
-- Not modelled: the drawing and the window of the game, the set-up of sockets and certificates, the
-- tests, and the libraries of other projects that the repository has copies of. Of the game servers,
-- the step of the game in its thread and the statistics are left out; their threads are the turns of
-- `turn`, and the moves of `act`.
pub mod Base
pub mod Login
pub mod Routing
pub mod Control
pub mod Game
pub mod Client
pub mod Joining
pub mod Plain
pub mod World
pub mod Wire
pub mod Manager
pub mod Profiles
