-- ===== src/Examples.antt =====
-- Examples: each theorem about the program applied at a concrete state, and tests.
mod Queues
mod RefNums
mod Names
mod CleanUps
mod Waits
mod Clumps
mod Arrays
mod Times
mod Dates
mod Patterns
mod Events
