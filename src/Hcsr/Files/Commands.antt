-- ===== src/Hcsr/Files/Commands.antt =====
-- The commands of the HC-SR04 driver and the GPIOs that they take: any devices, in any order.
use linux_kernel_programing.Prelude.{
  ℕ, ◌≡◌, ◌≤◌, refl, Bool, true, some, List, [], ◌∷◌, arith, ◌==◌, ◌||◌,
}
use linux_kernel_programing.Prelude.Int.{ℤ, pos, negsuc, pos_part}
use linux_kernel_programing.Gpio.{Log}
use linux_kernel_programing.Hcsr.Device.{Device}
use linux_kernel_programing.Hcsr.Pins.{
  PinConfig, Kernel, populate_gen2_pins_data, populate_pin_data,
}
use linux_kernel_programing.Hcsr.Pins.Balance.{
  IsBalanced, configure_pins-IsBalanced, release_gpio_pins-IsBalanced,
}
use linux_kernel_programing.Hcsr.Files.{
  success, free_irq, hcsr04_release, is_edge_interruptible, Command, config_pins, set_parameters,
  unknown, free_old_irq, take_pins, hcsr04_ioctl,
}

free_irq-IsBalanced :
    (d : Device) (pins : List PinConfig) (log : Log)
    → IsBalanced pins log
    → IsBalanced pins (free_irq d log)
unfolding free_irq
free_irq-IsBalanced d pins log h = λ p. ground (arith, h p)

free_old_irq-IsBalanced :
    (d : Device) (pins : List PinConfig) (log : Log)
    → IsBalanced pins log
    → IsBalanced pins (free_old_irq d log).1
unfolding free_old_irq
free_old_irq-IsBalanced d pins log h = λ p. ground (arith, h p)

take_pins-IsBalanced :
    (k : Kernel) (trigger echo : ℕ) (d : Device) (pins : List PinConfig) (log : Log)
    → IsBalanced pins log
    → let (r, d', pins', log') = take_pins k trigger echo d pins log in IsBalanced pins' log'
unfolding take_pins
take_pins-IsBalanced k trigger echo d pins log h =
    let (d₁, log₁) = free_old_irq d log in
    let held =
      configure_pins-IsBalanced k (record d₁ { trigger_pin = some trigger; echo_pin = some echo })
        pins log₁ (free_old_irq-IsBalanced d pins log h) in
    λ p. ground (arith, held p)

pub hcsr04_ioctl-IsBalanced :
    (k : Kernel) (c : Command) (d : Device) (pins : List PinConfig) (log : Log)
    → IsBalanced pins log
    → let (r, d', pins', log') = hcsr04_ioctl k c d pins log in IsBalanced pins' log'
unfolding hcsr04_ioctl
hcsr04_ioctl-IsBalanced k (config_pins trigger echo) d pins log h = λ p.
    ground (arith, h p, take_pins-IsBalanced k (pos_part trigger) (pos_part echo) d pins log h p)
hcsr04_ioctl-IsBalanced k (set_parameters m delta) d pins log h = λ p. ground (arith, h p)
hcsr04_ioctl-IsBalanced k unknown d pins log h = h

pub hcsr04_release-IsBalanced :
    (d : Device) (pins : List PinConfig) (log : Log)
    → IsBalanced pins log
    → let (d', pins', log') = hcsr04_release d pins log in IsBalanced pins' log'
unfolding hcsr04_release
hcsr04_release-IsBalanced d pins log h =
    (release_gpio_pins-IsBalanced (some d.minor) pins (free_irq d log)
      (free_irq-IsBalanced d pins log h)).0

-- A call that concerns the pins, on a device in any state.
pub data Call : Type 0 where
  ioctl_call : Device → Command → Call
  release_call : Device → Call

unfoldable pub run : Kernel → List Call → List PinConfig → Log → List PinConfig × Log
run k [] pins log = (pins, log)
run k (ioctl_call d c ∷ cs) pins log =
    let (r, d', pins', log') = hcsr04_ioctl k c d pins log in run k cs pins' log'
run k (release_call d ∷ cs) pins log =
    let (d', pins', log') = hcsr04_release d pins log in run k cs pins' log'

pub run-IsBalanced :
    (k : Kernel) (cs : List Call) (pins : List PinConfig) (log : Log)
    → IsBalanced pins log
    → let (pins', log') = run k cs pins log in IsBalanced pins' log'
unfolding run
run-IsBalanced k [] pins log h = h
run-IsBalanced k (ioctl_call d c ∷ cs) pins log h =
    let (r, d', pins', log') = hcsr04_ioctl k c d pins log in
    run-IsBalanced k cs pins' log' (hcsr04_ioctl-IsBalanced k c d pins log h)
run-IsBalanced k (release_call d ∷ cs) pins log h =
    let (d', pins', log') = hcsr04_release d pins log in
    run-IsBalanced k cs pins' log' (hcsr04_release-IsBalanced d pins log h)

pub populated-IsBalanced : IsBalanced (populate_gen2_pins_data []) []
unfolding populate_gen2_pins_data populate_pin_data
populated-IsBalanced = λ p. refl

-- The shield's pins 0 to 12 that have an interrupt on both edges.
abbrev pub is_echo_pin : ℕ → Bool
is_echo_pin n = n == 2 || n == 3 || n == 4 || n == 5 || n == 6 || n == 9 || n == 11

-- `CONFIG_PINS` succeeds only for a trigger pin from 0 to 12 and one of the seven pins that have an
-- interrupt on both edges as the echo pin; the device then counts as configured.
pub hcsr04_ioctl-config_pins :
    (k : Kernel) (trigger echo : ℤ) (d : Device) (pins : List PinConfig) (log : Log)
    → let (r, d', pins', log') = hcsr04_ioctl k (config_pins trigger echo) d pins log in
      r ≡ success
      → (t e : ℕ) × (trigger ≡ pos t)
        × (t ≤ 12)
        × (echo ≡ pos e)
        × (is_echo_pin e ≡ true)
        × (d'.are_pins_configured ≡ true)
unfolding hcsr04_ioctl is_edge_interruptible take_pins
hcsr04_ioctl-config_pins k (pos t) (pos e) d pins log h =
    (t, e, refl, ground arith, refl, ground arith, ground arith)
hcsr04_ioctl-config_pins k (pos t) (negsuc e) d pins log h = absurd (ground arith)
hcsr04_ioctl-config_pins k (negsuc t) echo d pins log h = absurd (ground arith)
