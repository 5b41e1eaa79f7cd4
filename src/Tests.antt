-- ===== src/Tests.antt =====
-- Concrete runs of the library: the parameters filled with tables that are lists, and every theorem
-- with a hypothesis applied where its hypotheses hold.
mod Tables
mod Sizes
mod Queue
mod Slots
mod Life
mod Nics
mod Disks
mod Attach
mod Vms
mod Switches
mod Connect
mod Network
