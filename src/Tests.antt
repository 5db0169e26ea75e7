-- ===== src/Tests.antt =====
-- The theorems at concrete inputs.
mod Volume
mod Sums
mod Table
mod Heap
mod Web
mod Install
mod Boot
