-- ===== src/Lib.antt =====
-- Verification of chess_set: a connect-six engine, and the service and WebSocket front end through
-- which a browser plays against it.
--
-- The parts and how they interact. A browser speaks WebSocket with src/websocket: Handshake.c opens
-- the connection, Communicate.c reads and makes the frames, Datastructures.c keeps the list of the
-- clients, and Websocket.c gives the text of a message to `handle_service` of service.c. That keeps a
-- table from a client to a socket of the engine's process and passes the text on with the helpers of
-- src/common. The engine, src/consix, keeps one game for each connection: consix.cpp takes the text
-- apart, and search.cpp, with the class `CSearch` of search.h, finds the moves.
--
-- The files and what they model. Definitions keep the source's names, in lower case.
--   Base            what all modules share: Boolean tests, lists, signed numbers, exclusive or
--   Consix.State    search.h: `Point`, `Step`, `Line`, and `Search` for the fields of `CSearch`
--   Consix.Coord    the directions, `GetStartPoint`, the ids of lines, `HashImage`
--   Consix.Scan     `ValuateShape`, `AnalyzeLine`; in Consix.Scan.Segment `CalSingleLineValue` and
--                   `AnalyzeLineSegID`
--   Consix.Lines    the table `LineInfo`: `UpdateLineForCross`, `BackupLine`, `RecoverLine`
--   Consix.Move     `UpdateBoard`, `RecoverBoard`, `MakeMove`, `BackMove`
--   Consix.Win      `WinOrLose`
--   Consix.Game     `InitGame` and what it calls
--   Consix.Candidates  the comparators, `UniquePoint`, `UniqueStep`, `LookForBestStep`
--   Consix.Run      calls that change the fields of `CSearch`, and `trial`, the pattern in which the
--                   search puts a stone, looks, and takes it back
--   Consix.Threats  `GetAllLineInfor`, `EnsureThreatNum`, `ConstructWinStep`
--   Consix.Value    `CalculateStepValue`, `SearchRange`, `ConstructComPoint`
--   Consix.Defend   `DefendForMultiThreat`, `DefendForSingleThreat`, `AdjustStepValue`
--   Consix.Build    `ConstructStepForNoThreat`
--   Consix.Judge    `NeedConSearchForDoubleThreat`, `NeedConSearchForSingleThreat`, `Discount`
--   Consix.History  `LookUpHashTable`, `ReleaseHashTable`, `ConStrangeStep`
--   Consix.Search   `MaxSearch`, `MinSearch`; `ComputerMove` in Consix.Search.Root
--   Consix.Handler  consix/consix.cpp, and `handle_client` of consix/main.cpp
--   Common.Util     common/util.c: `get_val_by_key`
--   Common.Socket   common/socket_i.c: `socket_send`, `socket_recv`
--   Common.Format   `atoi`, `sscanf` and `sprintf` with `%d`, as consix.cpp uses them
--   Service         websocket/service.c: the table of connections, `handle_service`, `handle_close`
--   Websocket.Frame      websocket/Communicate.c: `encodeMessage`, `parseMessage`
--   Websocket.Clients    websocket/Datastructures.c: the list of clients
-- The modules below each of these hold its theorems, and each part has a module Tests.
--
-- How state is modelled. A method of `CSearch` is a function from the state to the state; a C array is
-- a function of its indices, which a write changes at one place. So a write outside an array is
-- modelled as one at an index that no entry of the array has: theorems about squares ask that they be
-- squares of the board where that matters. A vector is a list. The linked list of clients is a memory
-- of nodes with pointers into it. Code that reads or writes outside a text or a buffer ends in a case
-- of its own (`overrun`, `underrun`, `fault`), and is not given a value.
--
-- In the search a method is an action, which takes the state and returns its result and the new state,
-- so that a stone or a line that is not taken back stays in the model as it does in the source.
-- `LineTemp` is passed from the calls that fill it to those that read it. `std::sort` leaves the order
-- of elements that its test does not tell apart open; the model keeps the order they had. Numbers that
-- the sources multiply with 0.2 or 0.7 are multiplied and divided as tenths: with the values of
-- `LineTypeValue` the results are the same.
--
-- Bounds and fuel. `BYTE`, `short` and `int` hold every value that occurs on a board of 19 by 19
-- squares; the 64-bit keys are combined by exclusive or, and compared as signed numbers where lists of
-- steps are sorted by them. The numbers of a request are cut to the width of their fields. The loops
-- that scan a line run at most 19 times and have fuel 20 (`scan_fuel`); the loops that walk back to the
-- edge have fuel 20 as well. One more round than there are squares on a side is enough. The search of
-- the tree has fuel for its levels: those that are left to `MaxDepth` and `LargeDepth`, and one more,
-- are enough, and `Search.Fuel` shows that more changes nothing. The loops over the clients have fuel
-- for the length of the list. The loops that send and receive recur on what the calls of the operating
-- system answer.
--
-- What is a parameter: the table of shapes in ConnPreTbl.me, the keys of the squares, the answers of
-- `send` and `recv`, the socket that `connect_server` returns, and, for the service, what the engine
-- responds.
--
-- What is not modelled: the opening book (`ReadCM`, `SearchCM`), which the sources call only in comments,
-- and the random bits of `Rand64`, since the key table is a parameter; the `main` of the engine, with its
-- sockets and threads; Handshake.c, Websocket.c and the older framing of Hybi-00 in Communicate.c, which
-- open and close connections around the messages that are modelled; allocation failure, locks and
-- threads; the copies of other libraries (md5, sha1, base64, utf8) and the pages in src/web, which are
-- not this program's code or language.
pub mod Base
pub mod Common
pub mod Consix
pub mod Service
pub mod Websocket
