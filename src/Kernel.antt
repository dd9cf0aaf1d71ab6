-- ===== src/Kernel.antt =====
-- kernel/kernel.c, installer/installer.c: from the start to the shell.
pub mod Login
pub mod Menu
pub mod Installer
pub mod Main
