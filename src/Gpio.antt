-- ===== src/Gpio.antt =====
-- The kernel's calls for GPIOs and their interrupts. They are not part of the repository: a call is
-- an entry of a log, the newest first, and what the kernel answers is a parameter that may depend
-- on all calls before.
use linux_kernel_programing.Prelude.{ℕ, ◌+◌, ◌≡◌, Bool, List, [], ◌∷◌, ◌==◌, if◌then◌else◌}
use linux_kernel_programing.Prelude.Int.{ℤ}

pub data GpioCall : Type 0 where
  requested : ℕ → GpioCall
  refused : ℕ → GpioCall
  freed : ℕ → GpioCall
  exported : ℕ → GpioCall
  unexported : ℕ → GpioCall
  direction_output : ℕ → Bool → GpioCall
  direction_input : ℕ → GpioCall
  value_set : ℕ → Bool → GpioCall
  value_set_cansleep : ℕ → Bool → GpioCall
  irq_requested : ℤ → GpioCall
  irq_freed : ℤ → GpioCall

abbrev pub Log : Type 0
Log = List GpioCall

-- `gpio_request(pin) == 0` after the calls of a log, and `gpio_cansleep(pin)`.
pub record Gpio : Type 0 where
  pub grants : Log → ℕ → Bool
  pub cansleep : ℕ → Bool

-- How often a pin was requested with success, and how often it was freed.
abbrev pub requests : ℕ → Log → ℕ
requests p [] = 0
requests p (requested q ∷ log) = (if q == p then 1 else 0) + requests p log
requests p (_ ∷ log) = requests p log

abbrev pub frees : ℕ → Log → ℕ
frees p [] = 0
frees p (freed q ∷ log) = (if q == p then 1 else 0) + frees p log
frees p (_ ∷ log) = frees p log

-- A pin is held `n` times: requested so many times more than freed.
abbrev pub Held : ℕ → ℕ → Log → Type 0
Held p n log = requests p log ≡ frees p log + n
