-- ===== src/Platform/Files/Same.antt =====
-- The commands of `platform_driver.c` against those of `HCSR_Driver.c`.
use linux_kernel_programing.Prelude.{
  ℕ, ◌≡◌, refl, Bool, true, false, not, some, List, [], ◌∷◌, arith, if◌then◌else◌,
}
use linux_kernel_programing.Prelude.Int.{pos_part}
use linux_kernel_programing.Gpio.{Log}
use linux_kernel_programing.Hcsr.Device.{Device}
use linux_kernel_programing.Hcsr.Pins
use linux_kernel_programing.Hcsr.Pins.{
  PinConfig, Kernel, is_pin, assign_role, populate_gen2_pins_data,
}
use linux_kernel_programing.Hcsr.Files
use linux_kernel_programing.Hcsr.Files.{
  Command, config_pins, set_parameters, unknown, free_old_irq, is_edge_interruptible,
}
use linux_kernel_programing.Hcsr.Irqs.Session
use linux_kernel_programing.Platform.Pins.Same.{AllLow, IsLow, configure_pins-eq, board-AllLow}
use linux_kernel_programing.Platform.Files.{take_pins, hcsr04_ioctl}

configure_entry-IsLow :
    (k : Kernel) (minor : ℕ) (io_flag : Bool) (e : PinConfig) (log : Log)
    → IsLow e
    → IsLow (Pins.configure_entry k.gpio minor io_flag e log).1
unfolding Pins.configure_entry
configure_entry-IsLow k minor io_flag e log h = ground (arith, h)

configure_one-IsLow :
    (k : Kernel) (d : Device) (e : PinConfig) (log : Log)
    → IsLow e
    → IsLow (Pins.configure_one k d e log).2
unfolding Pins.configure_one
configure_one-IsLow k d e log h =
    let io_flag = not (is_pin d.echo_pin e.galileo_pin) in
    ground (arith, h, configure_entry-IsLow k d.minor io_flag e log h)

configure_pins-AllLow :
    (k : Kernel) (d : Device) (pins : List PinConfig) (log : Log)
    → AllLow pins
    → AllLow (Pins.configure_pins k d pins log).2
unfolding Pins.configure_pins
configure_pins-AllLow k d [] log h = h
configure_pins-AllLow k d (e ∷ pins) log (low, h) =
    let (goes_on, d', e', log') = Pins.configure_one k d e log in
    elim goes_on
      as (λ b.
        let (done, d'', pins', log'') = Pins.configure_pins k d' pins log' in
        let out : Bool × Device × List PinConfig × Log =
          if b then (done, d'', e' ∷ pins', log'') else (false, d', e' ∷ pins, log') in
        AllLow out.2) [
          | true ↦ (configure_one-IsLow k d e log low, configure_pins-AllLow k d' pins log' h)
          | false ↦ (configure_one-IsLow k d e log low, h)
        ]

pub hcsr04_ioctl-AllLow :
    (k : Kernel) (c : Command) (d : Device) (pins : List PinConfig) (log : Log)
    → AllLow pins
    → AllLow (Files.hcsr04_ioctl k c d pins log).2
unfolding Files.hcsr04_ioctl Files.take_pins
hcsr04_ioctl-AllLow k (config_pins trigger echo) d pins log h =
    let (d₁, log₁) = free_old_irq d log in
    let t = pos_part trigger in
    let e = pos_part echo in
    let ready = record d₁ { trigger_pin = some t; echo_pin = some e } in
    ground (arith, h, configure_pins-AllLow k ready pins log₁ h)
hcsr04_ioctl-AllLow k (set_parameters m delta) d pins log h = ground (arith, h)
hcsr04_ioctl-AllLow k unknown d pins log h = h

pub hcsr04_ioctl-eq :
    (k : Kernel) (c : Command) (d : Device) (pins : List PinConfig) (log : Log)
    → AllLow pins
    → hcsr04_ioctl k c d pins log ≡ Files.hcsr04_ioctl k c d pins log
unfolding hcsr04_ioctl take_pins Files.hcsr04_ioctl Files.take_pins
hcsr04_ioctl-eq k (config_pins trigger echo) d pins log h =
    let (d₁, log₁) = free_old_irq d log in
    let t = pos_part trigger in
    let e = pos_part echo in
    let ready = record d₁ { trigger_pin = some t; echo_pin = some e } in
    rw (configure_pins-eq k ready pins log₁ h)
hcsr04_ioctl-eq k (set_parameters m delta) d pins log h = refl
hcsr04_ioctl-eq k unknown d pins log h = refl

-- The commands that a device gets, in order.
unfoldable pub commands :
    Kernel → List Command → Device → List PinConfig → Log → Device × List PinConfig × Log
commands k [] d pins log = (d, pins, log)
commands k (c ∷ cs) d pins log =
    let (r, d', pins', log') = hcsr04_ioctl k c d pins log in commands k cs d' pins' log'

commands-eq_of_AllLow :
    (k : Kernel) (cs : List Command) (d : Device) (pins : List PinConfig) (log : Log)
    → AllLow pins
    → commands k cs d pins log ≡ Session.commands k cs d pins log
unfolding commands Session.commands
commands-eq_of_AllLow k [] d pins log h = refl
commands-eq_of_AllLow k (c ∷ cs) d pins log h =
    let (r, d', pins', log') = Files.hcsr04_ioctl k c d pins log in
    rw (
      hcsr04_ioctl-eq k c d pins log h,
      commands-eq_of_AllLow k cs d' pins' log' (hcsr04_ioctl-AllLow k c d pins log h),
    )

-- On the board's table the two HC-SR04 drivers carry out every sequence of commands alike, though
-- their `pin_config`s differ: the same device, table and calls of the kernel.
pub commands-eq :
    (k : Kernel) (cs : List Command) (d : Device) (log : Log)
    → let board = populate_gen2_pins_data [] in
      commands k cs d board log ≡ Session.commands k cs d board log
commands-eq k cs d log = commands-eq_of_AllLow k cs d (populate_gen2_pins_data []) log board-AllLow
