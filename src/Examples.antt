-- ===== src/Examples.antt =====
-- Runs of the model, and the theorems at concrete inputs.
mod Drive
mod Runs
mod Trees
mod Drives
mod Boots
mod Names
mod Files
mod Strings
mod Devices
mod Packets
mod Sessions
mod Stacks
