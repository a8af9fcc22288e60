-- ===== src/Lib.antt =====
-- The game server of Mundus Vivens: a C++ server that simulates agents on a field of 2000 by 2000
-- tiles, 20 times a second, for clients on TCP, and takes plans from a planner over gRPC.
--
-- Parts of the program, and the files that model them:
--   PacketProtocol.h       Net/Packet: identifiers, byte order, the buffer of one packet
--   ClientSession.*        Net/Packet (Send) and Net/Session (the receive loop of `Run`,
--                          HandlePacket, and the flow control by pending requests)
--   TcpServer.*            Net/Server: the table of sessions and the queue of player commands
--   GrpcResultQueue.h      Net/ResultQueue: the double buffer that brings results of gRPC calls
--                          to the main thread
--   GridMap.*              Grid: the tiles; Grid/Obstacles: LoadMap; Grid/Sight: IsPathBlocked;
--                          Grid/Route: the search of FindPath; Grid/Find: FindPath itself, with its
--                          cache and score tables
--   LocationRegistry.*     Places: zone ids and the index of the entities by cells; Places/Region:
--                          BakeRegionMap and GetLocationNameAt; Places/Position: UpdateEntityPosition
--                          and GetNearbyEntities
--   Components.h           Agents: the components of the entities
--   SystemJobDriver.cpp    Agents/JobDriver: one call of the system on one agent
--   SystemSurvival.cpp     Agents/Furniture: decay of the needs, furniture and its occupants
--   SystemMovement.cpp     Agents/Planning: SystemPathfinding, over an interface to the grid map;
--                          Agents/Movement: SystemMovement on one agent
--   BTNode.h, SystemBehaviorTree.cpp
--                          Agents/Tree: the nodes of behaviour trees and their tick
--   BehaviorTrees.h        Behavior: the conditions and actions, one file for each group of them, over
--                          the registry of Agents/World, and Behavior/Survival: the tree
--   SystemAmbient.cpp      Agents/Ambient: what a busy agent shows, with SystemDeath of main.cpp
--   SystemSocial.cpp       Society/Emotion: SystemEmotionDecay; Society/Perception: SystemPerception;
--                          Society/Candidates and Society/Initiate: SystemSocialInteraction;
--                          Society/Dialogue: the reply to a dialogue
--   SystemNetwork.cpp      Sync: the batch of changed states, its acknowledgement, and the snapshot
--   SystemPlayer.cpp       Players: the clean-up of lost sessions; Players/Commands: the commands;
--                          Players/Replies: the replies of the planner to them
--   Systems.h              Players: the mapping of ids
--   GameLoop.cpp, main.cpp MainLoop: the pace of the loop, the synchronisation of the tick, and the end;
--                          Agents/Orders: the pending jobs, the relationships and the new day
--
-- A session's packets become player commands in the server's queue, which the main loop drains;
-- the main loop also drains the result queue, and runs the systems on the agents. These use the
-- places and the grid.
--
-- Systems that work on one entity alone take its components; those that read another's take the
-- whole registry, Agents/World, in which each entity has a row of components. What EnTT decides, the
-- entity that is created and the order of a view, is the parameter `Entities` there; `rand` is a
-- stream of numbers in the world, and a request to the planner is an entry of a list.
--
-- The numbers between 0 and 1 of the uniform distributions are another such stream; std::shuffle, and
-- the cosine and sine of the spread of positions, are parameters.
--
-- State is passed explicitly: each class is a record of its fields, each operation a function on
-- it. Threads that share state under a lock are interleavings of the steps that each takes under it
-- (Net/ResultQueue/Delivery) or of whole calls (Net/Server). The flow control of ClientSession
-- takes no lock: Net/Session/Calls has its single accesses to the counter, the flag and the timer,
-- which interleave in Net/Session/Overlap; in Net/Session/Turns and Net/Session/Backpressure the
-- calls themselves do not overlap. What the flow control does to a round of the receive loop (it
-- goes on, waits for ever, or its wait fails) is a parameter of that loop. Maps are association
-- lists of Common/Dict; a table of 4,000,000 entries is a function of its index. An iteration over
-- a map is in the order of the list, which the source leaves open.
--
-- `float` is the interface Common/Float, about which nothing is assumed. The search needs laws of
-- it, which Grid/Route/Laws states: the order of numbers, and that a path cost of fewer than 2^22
-- moves grows with every move; and the map of the regions needs those of Places/Region/Circles, on
-- the tiles within a radius and the rounded bounds of it. Common/Fixed is an instance, with eight
-- decimals. Of two queued tiles of equal estimate, the model takes one; `std::priority_queue` may
-- take the other.
--
-- Fuel: IsPathBlocked has max(dx, dy) rounds, and fuel for dx + dy + 1; the receive loop has fuel for
-- one round more than there are bytes, and takes at least four bytes a round; the walk back of
-- FindPath has fuel for as many tiles as the field has, and visits none twice.
--
-- Not modelled: sockets, timers, threads and logging; generated protobuf code and the gRPC stubs;
-- the vendored profiler; the settings and the creation of the agents at the start of `main`; the
-- benchmark.
pub mod Common
pub mod Net
pub mod Grid
pub mod Agents
pub mod Places
pub mod Behavior
pub mod Society
pub mod Sync
pub mod Players
pub mod MainLoop
