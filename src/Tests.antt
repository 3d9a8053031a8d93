-- ===== src/Tests.antt =====
-- The theorems at concrete inputs, and runs of the model.
mod Archive
mod Boot
mod Firmware
mod Loading
mod Locks
mod Machine
mod Numbers
mod Objects
mod Paging
mod Pmem
mod Printing
mod Strings
