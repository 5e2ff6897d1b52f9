-- ===== src/Tests.antt =====
-- The development at concrete inputs: each theorem applied where its hypotheses hold.
mod Memory
mod Pages
mod Queues
mod Sorting
mod Sorters
mod Merges
mod Tournaments
mod Sorted
mod Histograms
mod Projects
mod Scans
mod Workers
mod Shuffles
mod Matchings
mod Parser
mod Rings
mod Strategies
mod Pointers
mod Partitions
mod Barriers
