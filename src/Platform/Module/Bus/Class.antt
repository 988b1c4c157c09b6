-- ===== src/Platform/Module/Bus/Class.antt =====
-- The class of the platform driver in sysfs, and the devices in it.
use linux_kernel_programing.Prelude.{
  ℕ, suc, ◌+◌, ◌%◌, ◌^◌, ◌≡◌, ◌≤◌, ◌<◌, refl, Bool, true, false, not, List, [], ◌∷◌, arith, ◌==◌,
  length,
}
use linux_kernel_programing.Hcsr.Device.{Device}
use linux_kernel_programing.Hcsr.Files.{success}
use linux_kernel_programing.Platform.Module.{
  Driver, Entry, Call, Answers, class_created, class_destroyed, device_created, device_destroyed,
  misc_deregistered, create_files, hcsr04_init, hcsr04_exit, delete_devices, pdriver_probe,
  pdriver_remove,
}
use linux_kernel_programing.Platform.Module.Bus.{count, System, remove_device, Reach}
use linux_kernel_programing.Platform.Module.Bus.Counts.{
  listed, one_if, registered, deregistered, classes, refusals, delete_devices-listed,
  length-without,
}
use linux_kernel_programing.Platform.Module.Bus.Invariant.{Reach-Inv, pdriver_probe-old}
use linux_kernel_programing.Platform.Module.Bus.Pins.{bound-not_first}

-- In every state that is reached on the bus: as often as a device was registered with
-- `misc_register` under a name, so often that was undone, but for the listed devices of that name;
-- at most one of these is listed, and only while the bus has it bound.
pub misc_register-balance :
    (a : Answers) (n : ℕ) (s : System) (name : ℕ)
    → Reach a n s
    → (registered name s.driver.calls
        ≡ deregistered name s.driver.calls + listed name s.driver.devices)
      × (listed name s.driver.devices ≤ count name s.bound)
      × (count name s.bound ≤ 1)
misc_register-balance a n s name r =
    let i = Reach-Inv a r in (i.balance name, i.listed_le name, i.once name)

-- How often a class was destroyed, and whether the last that was created still stands.
abbrev pub destructions : List Call → ℕ
destructions [] = 0
destructions (class_destroyed ∷ calls) = suc (destructions calls)
destructions (_ ∷ calls) = destructions calls

abbrev pub has_class : List Call → Bool
has_class [] = false
has_class (class_created ∷ calls) = true
has_class (class_destroyed ∷ calls) = false
has_class (_ ∷ calls) = has_class calls

-- How many devices were created while there was no class.
abbrev pub strays : List Call → ℕ
strays [] = 0
strays (device_created devt p ∷ calls) = one_if (not (has_class calls)) + strays calls
strays (_ ∷ calls) = strays calls

delete_devices-class :
    (name : ℕ) (es : List Entry) (calls : List Call)
    → destructions (delete_devices name es calls).1 ≡ destructions calls
unfolding delete_devices
delete_devices-class name [] calls = refl
delete_devices-class name (e ∷ es) calls = ground (
  arith,
  delete_devices-class name es (misc_deregistered e.name ∷ device_destroyed e.dev_add ∷ calls),
  delete_devices-class name es calls,
)

-- In every state that is reached on the bus in less than 2^32 steps, the removal of a bound device
-- destroys the class if, and only if, no other device is bound and no probe was ever refused the
-- class: after one such refusal the count of the devices never comes down to 0 again.
pub pdriver_remove-class :
    (a : Answers) (n : ℕ) (s : System) (name : ℕ)
    → Reach a n s
    → n < 2 ^ 32
    → count name s.bound ≡ 1
    → let s' = remove_device name s in
      destructions s'.driver.calls
      ≡ destructions s.driver.calls + one_if (length s'.bound + refusals s.driver.calls == 0)
unfolding pdriver_remove hcsr04_exit
pdriver_remove-class a n s name r few there =
    let i = Reach-Inv a r in
    let d = s.driver in
    let shorter = length-without name s.bound in
    let kept = delete_devices-class name d.devices d.calls in
    ground (arith, i.age, i.found, shorter, there, kept)

hcsr04_init-strays :
    (a : Answers) (garbage : Device) (name : ℕ) (s : Driver)
    → let calls = (hcsr04_init a garbage name s).1.calls in
      (strays calls ≡ one_if (not (has_class s.calls)) + strays s.calls)
      × (classes calls ≡ classes s.calls)
unfolding hcsr04_init create_files
hcsr04_init-strays a garbage name s = ground arith

-- In every state that is reached on the bus in less than 2^32 steps with one device bound and no
-- probe ever refused the class: after the removal of that device the next probe, of whatever
-- device, returns 0 and creates a device while there is no class, as it creates none: only one was
-- ever created.
pub pdriver_probe-strays :
    (a : Answers) (n : ℕ) (s : System) (name : ℕ) (garbage : Device) (next : ℕ)
    → Reach a n s
    → n < 2 ^ 32
    → count name s.bound ≡ 1
    → length s.bound + refusals s.driver.calls ≡ 1
    → let gone = (pdriver_remove name s.driver).1 in
      let (r, s') = pdriver_probe a garbage next gone in
      (r ≡ success) × (strays s'.calls ≡ suc (strays gone.calls)) × (classes s'.calls ≡ 1)
unfolding pdriver_remove hcsr04_exit
pdriver_probe-strays a n s name garbage next r few there alone =
    let i = Reach-Inv a r in
    let d = s.driver in
    let gone = (pdriver_remove name d).1 in
    let old = bound-not_first name i there in
    let found = record gone { device_found = (gone.device_found + 1) % 2 ^ 32 } in
    let (stray, same) = hcsr04_init-strays a garbage next found in
    let (_, _, _, kept, _) = delete_devices-listed name name d.devices d.calls in
    let none_left : gone.device_found ≡ 0 = ground (arith, i.found, alone) in
    rw (pdriver_probe-old a garbage next gone old) (
      refl,
      ground (arith, stray, none_left),
      ground (arith, same, kept, none_left, i.one_class, old),
    )
