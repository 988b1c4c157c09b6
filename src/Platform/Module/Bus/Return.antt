-- ===== src/Platform/Module/Bus/Return.antt =====
-- A device that comes to the platform driver and goes again.
use linux_kernel_programing.Prelude.{ℕ, ◌+◌, ◌%◌, ◌^◌, ◌≡◌, refl, arith, Bool-cases, inl, inr, ◌∙◌}
use linux_kernel_programing.Hcsr.Device.{Device}
use linux_kernel_programing.Platform.Module.{
  Driver, Answers, set_up, hcsr04_init, hcsr04_exit, pdriver_probe, pdriver_remove,
}
use linux_kernel_programing.Platform.Module.Bus.{count, System, probe_device, remove_device, Reach}
use linux_kernel_programing.Platform.Module.Bus.Counts.{
  others, delete_devices-others, others-unlisted, without-unbound,
}
use linux_kernel_programing.Platform.Module.Bus.Invariant.{
  Reach-Inv, pdriver_probe-old, pdriver_probe-first, pdriver_probe-refused,
}
use linux_kernel_programing.Platform.Module.Bus.Pins.{Pinned, Reach-Pinned}

hcsr04_init-others :
    (a : Answers) (garbage : Device) (name : ℕ) (s : Driver)
    → others name (hcsr04_init a garbage name s).1.devices ≡ others name s.devices
unfolding hcsr04_init
hcsr04_init-others a garbage name s = ground arith

-- Whichever course the probe takes.
pdriver_probe-others :
    (a : Answers) (garbage : Device) (name : ℕ) (s : Driver)
    → Pinned s
    → others name (pdriver_probe a garbage name s).1.devices ≡ others name s.devices
pdriver_probe-others a garbage name s h =
    let device_found = (s.device_found + 1) % 2 ^ 32 in
    elim (Bool-cases s.first) [
      | inr old ↦
          rw (pdriver_probe-old a garbage name s old)
            (hcsr04_init-others a garbage name (record s { device_found = device_found }))
      | inl first ↦ elim (Bool-cases (a.grants_class s.calls)) [
        | inl granted ↦
            rw (pdriver_probe-first a garbage name s first granted, (h.empty first).0)
              (hcsr04_init-others a garbage name
                (record (set_up s) { device_found = device_found }))
        | inr refused ↦ rw (pdriver_probe-refused a garbage name s first refused) refl
      ]
    ]

-- In every state that is reached on the bus, a device that is not bound and is probed, and then
-- removed, leaves the list of the devices and the bound names as they were before, whatever the
-- kernel answers to the probe.
pub remove_device-probe_device :
    (a : Answers) (n : ℕ) (s : System) (garbage : Device) (name : ℕ)
    → Reach a n s
    → count name s.bound ≡ 0
    → let s' = remove_device name (probe_device a garbage name s) in
      (s'.driver.devices ≡ s.driver.devices) × (s'.bound ≡ s.bound)
unfolding pdriver_remove hcsr04_exit
remove_device-probe_device a n s garbage name r new =
    let i = Reach-Inv a r in
    let d' = (pdriver_probe a garbage name s.driver).1 in
    (
      delete_devices-others name d'.devices d'.calls
          ∙ pdriver_probe-others a garbage name s.driver (Reach-Pinned a r)
          ∙ others-unlisted name s.driver.devices (omega (arith, i.listed_le name, new)),
      ground (arith, without-unbound name s.bound new),
    )
