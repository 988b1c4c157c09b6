-- ===== src/Platform/Tests.antt =====
-- The theorems about the platform driver's measurements, commands and attributes, and about the
-- platform devices, at concrete inputs; `Bus` has those about devices that come and go.
mod Bus
mod Clearing
mod Unlocked
use linux_kernel_programing.Prelude.{
  ℕ, ◌+◌, ◌*◌, ◌/◌, ◌^◌, ◌≤◌, ◌<◌, ◌≡◌, refl, Bool, true, false, none, some, List, [], ◌∷◌, arith,
  length, get_elem?, replicate, ◌==◌, if◌then◌else◌,
}
use linux_kernel_programing.Prelude.Int.{ℤ, pos, negsuc}
use linux_kernel_programing.Gpio.{Gpio, Log, requests, frees, Held}
use linux_kernel_programing.Hcsr.Fifo.{cleared}
use linux_kernel_programing.Hcsr.Device.{Device, fresh_irq_data, quot_ℤ}
use linux_kernel_programing.Hcsr.Device.Interrupts.{Counted}
use linux_kernel_programing.Hcsr.Pins.{
  Kernel, PinConfig, populate_gen2_pins_data, populate_pin_data, release_gpio_pins,
}
use linux_kernel_programing.Hcsr.Pins.Balance.{IsBalanced}
use linux_kernel_programing.Hcsr.Files.{config_pins, set_parameters}
use linux_kernel_programing.Hcsr.Irqs.Session
use linux_kernel_programing.Platform.Device.{thread_write, finished}
use linux_kernel_programing.Platform.Device.Thread.{stored, thread_write-finishes}
use linux_kernel_programing.Platform.Device.Mean.{
  silence, echoes, sum_rests, thread_write-running_mean,
}
use linux_kernel_programing.Platform.Files.Same.{commands, commands-eq}
use linux_kernel_programing.Platform.Sysfs.{gpio_ctrl, linux_gpios, trigger_pin_store}
use linux_kernel_programing.Platform.Sysfs.Leaks.{column_uses, trigger_pin_store-leaks}
use linux_kernel_programing.Platform.Sysfs.Session.{delta}
use linux_kernel_programing.Platform.Pdevice

-- A device ready to measure with 2 + 3 rounds.
abbrev pub ready : Device
ready = record {
  minor = 55;
  irq_data = fresh_irq_data;
  trigger_pin = some 4;
  echo_pin = some 2;
  m = pos 2;
  delta = pos 60;
  measurement_in_progress = false;
  fifo = record { slots = replicate 5 cleared; index = 0 };
  read_lock = 0;
  buffer_lock = false;
  are_pins_configured = true;
  are_m_delta_configured = true;
}

abbrev generous : Gpio
generous = record { grants = λ log pin. true; cansleep = λ pin. false }

abbrev pub kernel : Kernel
kernel = record {
  gpio = record { grants = λ log pin. true; cansleep = λ pin. false };
  gpio_to_irq = λ pin. pos (pin + 100);
  grants_irq = λ log irq. true;
}

ready-Counted : Counted ready 0 0
ready-Counted = record { between = refl; number = refl; summed = refl }

abbrev rises : ℕ → ℕ
rises i = 1000000

abbrev falls : ℕ → ℕ
falls i = 1696000

thread_write-finishes_example :
    (d' : Device) × (log' : Log) × (t : ℕ) × (thread_write generous
        (echoes rises falls)
        silence
        77
        ready
        []
      ≡ finished (stored 77 (quot_ℤ d'.irq_data.sample_sum (pos t)) d') log')
    × (d' ≡ record ready { irq_data = d'.irq_data; buffer_lock = true })
    × (5 ≤ t)
    × (t ≤ 5)
thread_write-finishes_example =
    thread_write-finishes generous (echoes rises falls) silence 2 77 ready [] refl refl
      (omega arith)

thread_write-running_mean_example :
    let sum = sum_rests rises falls 5 0 in
    (d' : Device) × (log' : Log) × (thread_write generous (echoes rises falls) silence 77 ready []
      ≡ finished (stored 77 (pos (sum / 5)) d') log')
    × (d' ≡ record ready { irq_data = d'.irq_data; buffer_lock = true })
    × Counted d' 5 sum
thread_write-running_mean_example =
    thread_write-running_mean rises falls generous 2 77 0 0 ready [] ready-Counted refl refl
      (omega arith) (omega arith) (omega arith)

commands-eq_example :
    let cs = config_pins (pos 3) (pos 2) ∷ set_parameters (pos 5) (pos 60) ∷ [] in
    commands kernel cs ready (populate_gen2_pins_data []) []
    ≡ Session.commands kernel cs ready (populate_gen2_pins_data []) []
commands-eq_example =
    commands-eq kernel (config_pins (pos 3) (pos 2) ∷ set_parameters (pos 5) (pos 60) ∷ []) ready []

board-IsBalanced : IsBalanced (populate_gen2_pins_data []) []
unfolding populate_gen2_pins_data populate_pin_data
board-IsBalanced = λ p. refl

trigger_pin_store-leaks_example :
    (log' : Log) × (trigger_pin_store generous (some (pos 4)) (pos 2) ready []
      ≡ some (pos 2, record ready { trigger_pin = some 4 }, log'))
    × ((p : ℕ)
        → Held p
            (column_uses p (pos 4) gpio_ctrl)
            (release_gpio_pins none (populate_gen2_pins_data []) log').1
          × (get_elem? linux_gpios 4 ≡ some (some p) → 0 < column_uses p (pos 4) gpio_ctrl))
trigger_pin_store-leaks_example =
    trigger_pin_store-leaks generous (λ log pin. refl) 4 (pos 2) ready (populate_gen2_pins_data [])
      [] (omega arith) board-IsBalanced

-- Set up with 5 samples and a period of 60 milliseconds.
abbrev set_up : Device
set_up = record ready {
  trigger_pin = none;
  echo_pin = none;
  m = pos 5;
  are_pins_configured = false;
  are_m_delta_configured = false;
}
