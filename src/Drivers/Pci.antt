-- ===== src/Drivers/Pci.antt =====
-- drivers/pci.c: the devices on the bus. The configuration space is what `PCI_CONFIG_DATA` answers for
-- each address.
pub mod Find
use ephemeral_os.Base.{
  ℕ, zero, suc, ◌+◌, ◌*◌, ◌/◌, ◌%◌, Bool, ◌&&◌, Option, none, some, ◌==◌, if◌then◌else◌,
}

-- The fields do not overlap, so that the `|` is a sum.
abbrev pub pci_address : ℕ → ℕ → ℕ → ℕ → ℕ
pci_address bus device function offset =
    bus * 65536 + device * 2048 + function * 256 + offset / 4 * 4 + 0x8000_0000

abbrev pub pci_read_config : (ℕ → ℕ) → ℕ → ℕ → ℕ → ℕ → ℕ
pci_read_config config bus device function offset = config (pci_address bus device function offset)

pub record PciDevice : Type 0 where
  pub vendor_id : ℕ
  pub device_id : ℕ
  pub bus : ℕ
  pub device : ℕ
  pub function : ℕ
  pub class_code : ℕ
  pub subclass : ℕ
  pub bar0 : ℕ
  pub bar1 : ℕ
  pub irq : ℕ

unfoldable pub describe : (ℕ → ℕ) → ℕ → ℕ → ℕ → PciDevice
describe config bus device function =
    let id = pci_read_config config bus device function 0 in
    let class_info = pci_read_config config bus device function 0x08 in
    record {
      vendor_id = id % 65536;
      device_id = id / 65536 % 65536;
      bus = bus;
      device = device;
      function = function;
      class_code = class_info / 16777216 % 256;
      subclass = class_info / 65536 % 256;
      bar0 = pci_read_config config bus device function 0x10;
      bar1 = pci_read_config config bus device function 0x14;
      irq = pci_read_config config bus device function 0x3C % 256;
    }

-- A `for` loop from `i` on that returns at the first hit.
unfoldable pub first {ℓ} : {A : Type ℓ} → (ℕ → Option A) → ℕ → ℕ → Option A
first f i zero = none
first f i (suc n) = elim (f i) [ none ↦ first f (i + 1) n | some a ↦ some a ]

-- The test of a device, in the innermost loop.
unfoldable pub probe : (ℕ → ℕ) → (PciDevice → Bool) → ℕ → ℕ → ℕ → Option PciDevice
probe config wanted bus device function =
    let d = describe config bus device function in
    if d.vendor_id == 0xffff then none else if wanted d then some d else none

-- The three loops.
unfoldable pub pci_scan : (ℕ → ℕ) → (PciDevice → Bool) → Option PciDevice
unfolding first
pci_scan config wanted =
    first
      (λ bus.
        first (λ device. first (λ function. probe config wanted bus device function) 0 8) 0 32)
      0 256

unfoldable pub pci_find_device : (ℕ → ℕ) → ℕ → ℕ → Option PciDevice
unfolding pci_scan
pci_find_device config vendor_id device_id =
    pci_scan config (λ d. d.vendor_id == vendor_id && d.device_id == device_id)

unfoldable pub pci_find_class : (ℕ → ℕ) → ℕ → ℕ → Option PciDevice
unfolding pci_scan
pci_find_class config class_code subclass =
    pci_scan config (λ d. d.class_code == class_code && d.subclass == subclass)
