-- ===== src/Drivers.antt =====
-- drivers/: the text screen, the keyboard, the clock, the network card and the bus.
pub mod Screen
pub mod Rtc
pub mod Keyboard
pub mod Network
pub mod Pci
pub mod Disk
