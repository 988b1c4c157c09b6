-- ===== src/Platform/Module/Bus.antt =====
-- `platform_driver.c` on the platform bus: devices come and go, and the listed ones are used.
pub mod Counts
pub mod Invariant
pub mod Pins
pub mod Class
pub mod Return
use linux_kernel_programing.Prelude.{ℕ, zero, suc, ◌+◌, ◌≡◌, List, [], ◌∷◌, ◌==◌, if◌then◌else◌}
use linux_kernel_programing.Prelude.Int.{pos, ◌==ℤ◌}
use linux_kernel_programing.Gpio.{Log}
use linux_kernel_programing.Platform.Shared.{initialize_device, hcsr04_release}
use linux_kernel_programing.Hcsr.Device.{Device}
use linux_kernel_programing.Hcsr.Pins.{PinConfig, Kernel}
use linux_kernel_programing.Hcsr.Files.{Command}
use linux_kernel_programing.Platform.Files.{hcsr04_ioctl}
use linux_kernel_programing.Platform.Module.{
  Driver, Entry, Answers, loaded, pdriver_probe, pdriver_remove,
}

-- The file operations that concern the pins.
pub data Operation : Type 0 where
  open_op : Operation
  ioctl_op : Command → Operation
  release_op : Operation

abbrev pub operate :
    Kernel → Operation → Device → List PinConfig → Log → Device × List PinConfig × Log
operate k open_op d pins log = (initialize_device d, pins, log)
operate k (ioctl_op c) d pins log =
    let (r, d', pins', log') = hcsr04_ioctl k c d pins log in (d', pins', log')
operate k release_op d pins log = hcsr04_release d pins log

-- An operation on the `i`-th listed device.
unfoldable pub operate_at :
    Kernel → Operation → ℕ → List Entry → List PinConfig → Log → List Entry × List PinConfig × Log
operate_at k op i [] pins log = ([], pins, log)
operate_at k op zero (e ∷ es) pins log =
    let (d, pins', log') = operate k op e.device pins log in
    (record e { device = d } ∷ es, pins', log')
operate_at k op (suc i) (e ∷ es) pins log =
    let (es', pins', log') = operate_at k op i es pins log in (e ∷ es', pins', log')

unfoldable pub use_device : Kernel → Operation → ℕ → Driver → Driver
use_device k op i s =
    let (devices, pins, log) = operate_at k op i s.devices s.pins s.log in
    record s { devices = devices; pins = pins; log = log }

-- How often a name is among the bound ones, and how many listed devices have it.
abbrev pub count : ℕ → List ℕ → ℕ
count name [] = 0
count name (x ∷ xs) = (if x == name then 1 else 0) + count name xs

abbrev pub without : ℕ → List ℕ → List ℕ
without name [] = []
without name (x ∷ xs) = let rest = without name xs in if x == name then rest else x ∷ rest

-- `bound` holds the names of the devices that the bus has bound to the driver.
pub record System : Type 0 where
  pub bound : List ℕ
  pub driver : Driver

-- The bus binds a device if its probe returns 0.
abbrev pub probe_device : Answers → Device → ℕ → System → System
probe_device a garbage name s =
    let (r, driver) = pdriver_probe a garbage name s.driver in
    record { bound = if r ==ℤ pos 0 then name ∷ s.bound else s.bound; driver = driver }

abbrev pub remove_device : ℕ → System → System
remove_device name s = record {
  bound = without name s.bound;
  driver = (pdriver_remove name s.driver).1;
}

-- The bus probes only devices that are not bound, and removes only bound ones.
pub data Step (a : Answers) (s : System) : System → Type 0 where
  probe :
      (garbage : Device) (name : ℕ)
      → count name s.bound ≡ 0
      → Step a s (probe_device a garbage name s)
  unbind : (name : ℕ) → count name s.bound ≡ 1 → Step a s (remove_device name s)
  operation :
      (k : Kernel) (op : Operation) (i : ℕ)
      → Step a s (record { bound = s.bound; driver = use_device k op i s.driver })

-- The systems after so many steps from the loading of the driver.
pub data Reach (a : Answers) : ℕ → System → Type 0 where
  start : Reach a 0 (record { bound = []; driver = loaded })
  later : {n : ℕ} {s t : System} → Reach a n s → Step a s t → Reach a (suc n) t
