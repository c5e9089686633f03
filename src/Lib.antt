-- ===== src/Lib.antt =====
-- The runtime core of Vireo, the virtual machine for dataflow programs of this repository: vectors,
-- observers and timers, element queues and their instructions, reference numbers, event queues and
-- their registration, the run queue, the clump scheduler and its loop, timestamps, dates, and the
-- compilation and matching of text patterns.
--
-- A program is a set of clumps, sequences of instructions that run one at a time. A clump that is
-- ready stands in the run queue (ClumpQueue), linked through its own _next field. The scheduler
-- (Scheduler) takes the first of it; a clump leaves the processor when it waits, calls another clump
-- or is done. A clump that waits for an object holds two observation states (Observe), one in the
-- timer list and one in the list of the object; a change of state takes it off both lists and puts
-- it on the run queue. The element queue (ElemQueue) is such an object; its instructions (QueueRef)
-- try, wait and try again. A queue stands behind a reference number (RefNum), which is checked at
-- each use; a queue that has a name stands behind an alias for each use of the name (QueueNames).
-- The queue's buffer is a vector (Array1D). An event (Events) goes to the queues that are registered
-- for it, each of which sets an occurrence; an event structure waits for the occurrence, and takes
-- the event that was generated first.
--
--   Common: Boolean tests, integers, lists and options over the native numbers, and their lemmas.
--   Array1D: Insert1D, Remove1D and Replace1D of TypedArrayCore
--     (source/core/TypeAndDataManager.cpp).
--   Observe: ObservableCore, Timer, OccurrenceCore (source/core/Synchronization.cpp,
--     source/include/Synchronization.h) and the observation states of VIClump
--     (source/core/VirtualInstrument.cpp).
--   ElemQueue: QueueCore (source/core/Synchronization.cpp). Valid has the invariant and the
--     contents, Placing, Back and Front what an insertion does to the buffer, Refine and Removal the
--     theorems.
--   QueueRef: QueueRef_EnqueueCore, QueueRef_DequeueCore, QueueRef_FlushQueue and
--     HandleQueueReschedule (source/core/Synchronization.cpp).
--   QueueNames: QueueRefNumManager, QueueRef_Obtain and QueueRef_Release
--     (source/core/Synchronization.cpp). Counted has the invariant of the aliases, Reach the sequences
--     of calls, Fresh the choice of a new alias.
--   RefNum: RefNumStorageBase (source/core/RefNum.cpp, source/include/RefNum.h).
--   CleanUps: the clean-up procedures of RefNumManager (source/core/RefNum.cpp), against a list of
--     tasks.
--   ClumpQueue: VIClumpQueue (source/core/Queue.cpp).
--   Scheduler: Trigger, Wait, CallVI, Done, Stop and suspension (source/core/ExecutionContext.cpp)
--     and the clump's part of them (source/core/VirtualInstrument.cpp).
--   Slices: ExecutionContext::ExecuteSlices (source/core/ExecutionContext.cpp), the loop that runs
--     the clumps. Ending has its termination, Turns the turns of the ready clumps.
--   Waits: the instructions that wait for a time or an occurrence (source/core/Synchronization.cpp).
--   Events: event queues, the event oracle, and WaitForEventsAndDispatch (source/core/Events.cpp,
--     source/include/Events.h). Oracle has the registration and the broadcast, Dynamic the entries of
--     an event registration refnum, Pending the choice of the earliest event, Wait the instruction.
--   Timestamp: 64.64 times (source/core/Timestamp.cpp, source/include/Timestamp.h).
--   Date: getYear, getDate and DateUTCToTimestamp (source/core/Date.cpp). Years has the years and
--     their seconds, Fields the month and the time of day, Trip the way back.
--   MatchPat: MakePat, AMatch, InSet and MatchPat (source/core/MatchPat.cpp). Make has the
--     compilation of an expression and its written form, Pattern the instruction from the expression
--     to the parts of the text. Runs has the counted runs and the star loop, Semantics the meaning of
--     a compiled pattern and that AMatch finds it, Search the search in a text.
--   Examples: the theorems at concrete states.
--
-- State is passed explicitly: an operation takes the record of the state and returns its result with
-- the new state. A function of the source has the function of its name in snake case. Machine
-- integers that the source masks are taken modulo their power of two; the counts and indices of
-- lists are natural numbers. A null pointer or a sentinel of -1 is none. The memory manager and the
-- platform's clock are parameters: fits answers whether an array may grow to a length, and deadline
-- turns a timeout into a tick count. In AMatch the fuel counts the parts of the pattern, and its
-- length in bytes is enough. Fuel bounds the walk along a wait list by the number of clumps, which a
-- list without repetition cannot exceed, and in ExecuteSlices the passes of a slice and the rounds
-- of the loop; its result says how much is enough.
--
-- Not modelled: the text and binary codecs, the type manager's memory layout, floating-point
-- functions, the hosts (files, network, JavaScript), and the glue of the platforms. Several threads
-- are not modelled either: the scheduler is cooperative, and a compare-and-swap of a reference count
-- succeeds.
pub mod Date
pub mod Common
pub mod Array1D
pub mod Observe
pub mod ElemQueue
pub mod QueueNames
pub mod QueueRef
pub mod RefNum
pub mod CleanUps
pub mod ClumpQueue
pub mod Scheduler
pub mod Slices
pub mod Waits
pub mod Timestamp
pub mod MatchPat
pub mod Events
pub mod Examples
