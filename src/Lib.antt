-- ===== src/Lib.antt =====
-- EphemeralOS, a 32-bit hobby operating system in C: its file system, its string functions, the
-- drivers, its network stack, its shell, and the kernel that starts them.
--
-- The parts. The file system (fs/filesystem.c, fs/filesystem.h) keeps a superblock, an inode
-- table and a bitmap of blocks in memory, writes them to fixed sectors of the drive, and keeps
-- directories and files in blocks behind them. The installer asks for names and a password and
-- calls `fs_install`; the kernel's login asks again and calls `fs_verify_password`; the shell
-- cuts a line into arguments and runs a command of bin/, which calls the functions on paths.
-- All of them, and the network stack, use the strings of kernel/string.c. The screen and the
-- keyboard (drivers/screen.c, drivers/keyboard.c) meet in the line editor, which echoes what is
-- typed. A frame that arrives goes from net/ethernet.c to net/arp.c or to net/ip.c, from there
-- to net/icmp.c, which answers, or by UDP (net/udp.c) to the handler that net/dns.c or
-- net/ntp.c has registered; a packet that is sent may have to wait for a hardware address, and
-- frames are received while it waits.
--
-- The files. Base: numbers, tests, lists. Text: kernel/string.c. Fs.State: the state and the
-- drive. Fs.Bitmap, Fs.Inodes: allocation. Fs.Path, Fs.Lookup: paths. Fs.Dir: directory blocks.
-- Fs.Create: `fs_create_dir`. Fs.File: files. Fs.Listing: `fs_list_dir`, `fs_change_dir`.
-- Fs.Install: the installation and the password. Drivers.Screen, Drivers.Keyboard, Drivers.Rtc,
-- Drivers.Network, Drivers.Pci, Drivers.Disk: those drivers; Drivers.Network.Start: the start
-- of the card, and `pci_write_config`; Drivers.Disk.Device: what is asked of a drive.
-- Net.Order: the byte order helpers. Net.Arp, Net.Ethernet, Net.Ip, Net.Icmp, Net.Udp, Net.Dns,
-- Net.Ntp: those files of net/; Net.Dns.Query: the question. Net.Stack: how they call each
-- other, `ip_send` and `icmp_wait_reply`. Net.Resolve: `dns_resolve` and `ntp_sync_time` over
-- the stack. Shell.Parse, Shell.Session, Shell.Run: shell/shell.c. Bin: bin/, with Bin.World
-- for what the commands ask the machine. Kernel.Login, Kernel.Menu, Kernel.Main:
-- kernel/kernel.c. Kernel.Installer: installer/installer.c. Fs.Stable: a property of the file
-- system that the small changes keep is kept by the operations on paths. Fs.Sound: which inode
-- owns which block. Fs.Tree: what a new entry in a directory means for every path, and for the
-- data behind it. Fs.Restart: what a start of the machine finds on the drive. The module of a
-- component holds the code, under the names of the C functions; its child modules hold what is
-- proved. Examples: the theorems at concrete inputs, and runs.
--
-- The conventions. A C function that changes static state takes the state and returns it: `Fs`
-- is the static state of fs/filesystem.c with the drive, `Screen`, `Arp` and the others those
-- of their files. -1 is `none` or `failure`; 0xFFFFFFFF is `no_index`. A string is the list of
-- its bytes before the NUL, except in Text, where it is a buffer that holds one. Words of 32
-- bits wrap where the source's do. A table read out of range gives zeros.
--
-- Bounds and fuel. `fs_create_dir` calls itself for a missing parent, so its model has fuel,
-- one more than the path has bytes: each call drops a component, and a path has no more
-- components than bytes. The loop over the labels of a name in net/dns.c has as much fuel as
-- the packet has bytes and one more: each round goes on by a byte at least. The keyboard is the
-- list of scancodes it will deliver, and a line that is not ended yet has no result; a line
-- takes a scancode at least, so `do_login`, which calls itself, and the installer's loop over
-- the passwords need no more rounds than there are scancodes. The frames to come are a list,
-- and a frame that is received inside another is one of them, so that as many rounds as frames,
-- and one more, are enough. A number above 0 has no more digits than its value is. The second
-- loop of the checksum ends after two rounds. The waits of net/dns.c, net/ntp.c and
-- drivers/disk.c have the source's number of rounds. Every other loop is over a list or a
-- count.
--
-- Not modelled. The buffers of 256 bytes for a path and of 28 for a name are taken to be long
-- enough, and so are the texts of the superblock and the buffer of a DNS query. The superblock,
-- the inode table and the bitmap are carried to and from the drive whole: the source moves whole
-- sectors, 512 bytes for a superblock of 192 and 24 sectors, 12288 bytes, for an inode table of
-- 12000, so that a load writes behind the structure and a save reads behind it, which is left
-- out. A packet whose header points past its end makes the stack stop without a result. For the
-- file system the drive answers every request; drivers/disk.c, with its time-outs, is modelled by
-- itself. Delays, the waits for the network card and for the clock, and the ports of the
-- shutdown and the reboot are left out: they change no state of the program. How many scancodes
-- have arrived when a loop empties the keyboard is an argument. boot/ and kernel/entry.asm are
-- assembly.
pub mod Base
pub mod Text
pub mod Fs
pub mod Drivers
pub mod Net
pub mod Bin
pub mod Shell
pub mod Kernel
pub mod Examples
