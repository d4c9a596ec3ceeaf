-- ===== src/Lib.antt =====
-- node-redis, the Redis client for Node.js: the core of packages/client.
--
-- A client queues commands, encodes them as RESP, writes them to a socket, decodes the bytes that
-- come back and settles the promises of the commands with the replies, first with first. A cluster
-- client picks the node of a command by the slot of its key, and moves queued commands between the
-- queues of its nodes when slots move. A multi-database client watches its members and fails over.
--
-- The files and the code they model (packages/client/lib is left off the paths):
--
--   Resp.Argument, Resp.Encoder     RESP/encoder.ts: encodeCommand
--   Resp.RespTypes                  RESP/decoder.ts: RESP_TYPES, the type bytes
--   Resp.Reply                      RESP/decoder.ts: what is decoded, and the type mapping
--   Resp.Program                    RESP/decoder.ts: the functions of the next chunk, as data
--   Resp.Decode                     RESP/decoder.ts: #decodeTypeValue and the decode methods
--   Resp.Run                        RESP/decoder.ts: the scans of a chunk, and resuming with the next
--   Resp.Decoder                    RESP/decoder.ts: the class Decoder, its write and its callbacks
--   Client.Queue                    client/commands-queue.ts: the queue, #insertAtFront,
--                                   #rejectCommand, hasCapacity
--   Client.Queue.Admit              addCommand, addBatch, #arm, the abort and timeout listeners
--   Client.Queue.Write              commandsToWrite, #onReply, #onErrorReply
--   Client.Queue.Move               the flushes, extractCommandsForSlots, extractAllCommands,
--                                   rejectCommands, prependCommandsToWrite,
--                                   setMaintenanceCommandTimeout
--   Client.Queue.Steps              the operations as the steps of one queue
--   Client.Cache                    client/cache.ts: BasicClientSideCache, its entries and its Maps
--   Client.Cache.Operations         get, set, invalidate and clear
--   Client.Cache.Calls              handleCache, cut where it waits, and sequences of its steps
--   Client.Cache.Key                generateCacheKey
--   Client.Cache.Stats              CacheStats and the counters
--   Client.PubSub                   client/pub-sub.ts: the listeners and the changes in flight
--   Client.PubSub.Commands          subscribe, unsubscribe
--   Client.PubSub.Replies           resolve and reject of the commands, reset
--   Client.PubSub.Moves             extend*, resubscribe, remove*
--   Client.PubSub.Messages          isStatusReply, handleMessageReply and the like
--   Client.LinkedList               client/linked-list.ts: the doubly linked list, on a store of nodes
--   Client.LinkedList.Singly        the singly linked list and the one that emits `empty`
--   Client.Pool                     client/pool.ts: the clients and tasks of a pool, #create,
--                                   #returnClient, #executeTask
--   Client.Pool.Operations          connect, execute, the timers and the settled promises, #cleanup,
--                                   _rejectQueued, close, destroy
--   Client.Pool.Steps               the operations as steps, and when they can come
--   Client.Parser                   client/parser.ts: BasicCommandParser, and the calls on it
--   Commands                        commands: what SET, SORT, LPOS and SCAN push
--   Utils.Slot                      utils/calculate-slot.ts
--   MultiDb.Circuit                 multi-db/circuit.ts
--   MultiDb.Detector                multi-db/failure-detector.ts
--   MultiDb.Probe                   multi-db/health-check.ts
--   MultiDb.Failover                multi-db/failover-strategy.ts
--   Base                            names, list lemmas, decimal numbers, strings and Maps with strings
--                                   as keys, that the others share
--
-- The modules below these hold the proofs, and the modules called Tests concrete values.
--
-- State is a record and an operation a function from state to state. What an operation does to
-- promises and callbacks is a list of settlements that it returns. The linked lists of the
-- queue are lists, which Client.LinkedList shows to be what linked-list.ts implements, and the node of
-- a command is the command's id, which stands for its promise; an operation on a node that is no
-- longer in the list does nothing, as there. A listener of a timeout or
-- an abort signal is an operation of its own, so that any order of events is a list of operations. The
-- commands that could not be encoded are off the lists, but their listeners are on; the queue keeps
-- them as `unwritable`.
-- The queue encodes commands with Resp.Encoder.
--
-- An entry of the client-side cache is shared between a Map and the calls that wait on it; it has an
-- id, and its flag `#invalidated` is kept by that id. handleCache is cut where it waits: a history of
-- the cache is any sequence of beginnings of calls, of what they do behind their wait, of
-- invalidations and of clearings.
--
-- The listeners of a channel are an object that commands in flight hold too; it has an id. The
-- closures of a PubSub command are data, which `resolve` and `reject` read.
--
-- The operations of a pool are cut where they wait: a history of a pool is any sequence of calls, of
-- settled promises of connections and tasks, of timers and of the parts of a close. What a task's
-- function does when it is called is an argument, and it does not call the pool before it returns. The
-- loop of #returnClient is on fuel, a unit for each waiting task and one more, which is enough, as
-- Client.Pool.Fuel shows. The clients that a promise is awaited for are kept in the state; the code
-- keeps them in the closures of the promises.
--
-- A decode method that runs out of bytes returns a function of the next chunk. Resp.Program has these
-- functions as data, and Resp.Run resumes them. The recursion of the decoder is on fuel, a unit for
-- each byte of a chunk: every turn consumes a byte, so that is enough, as Resp.Decoder.Total shows. At
-- a string of a negative length the code moves its cursor back, and decodes bytes again; there the
-- model stops, with a result of its own, and what the code does then is not followed.
--
-- Numbers are natural numbers, and a time is a whole number of milliseconds; each reading of a clock
-- is an argument. Integers of replies are exact where JavaScript has 53 bits. The slot's CRC is kept to
-- 16 bits, which are all that the code reads of it.
--
-- Parameters: the UTF-8 encoding of Node.js, with the laws IsUtf8 where a theorem needs them; whether
-- AbortSignal.timeout takes a time; which signals have fired while a command was moved; and the
-- failure rate, which the code computes in floating point.
--
-- Not modelled: sockets, timers and promises themselves; the queue's PubSub, MONITOR and RESET
-- commands, which replace callbacks of the decoder and count the replies; the text that a PubSub
-- listener is called with; the decoding of a double to floating point; negative numbers among the
-- arguments of commands; the errors of closing the clients of a pool, and its
-- proxies; the cluster's topology, Sentinel, the pooled caches and the copies
-- of cached values; and the files of most of the single commands.
pub mod Base
pub mod Client
pub mod Commands
pub mod MultiDb
pub mod Resp
pub mod Utils
