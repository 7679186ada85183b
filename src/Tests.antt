-- ===== src/Tests.antt =====
-- Runs at concrete inputs, and the theorems at inputs that meet their hypotheses.
mod Pages
mod Log
mod Leaves
mod Nodes
mod Store
mod Trees
mod Stored
mod Database
