-- ===== src/Platform/Module/Bus/Counts.antt =====
-- Counts of the listed devices, the bound names and the calls of the platform driver.
use linux_kernel_programing.Prelude.{
  ℕ, zero, suc, ◌+◌, ◌≡◌, refl, Bool, List, [], ◌∷◌, arith, ◌==◌, if◌then◌else◌, length,
}
use linux_kernel_programing.Gpio.{Log}
use linux_kernel_programing.Hcsr.Pins.{PinConfig, Kernel}
use linux_kernel_programing.Platform.Module.{
  Entry, Call, class_created, class_refused, device_destroyed, misc_registered, misc_deregistered,
  delete_devices,
}
use linux_kernel_programing.Platform.Module.Bus.{Operation, operate_at, count, without}

abbrev pub one_if : Bool → ℕ
one_if b = if b then 1 else 0

-- How many listed devices have a name.
abbrev pub listed : ℕ → List Entry → ℕ
listed name [] = 0
listed name (e ∷ es) = one_if (e.name == name) + listed name es

-- How often `misc_register` succeeded for a name, and how often that was undone.
abbrev pub registered : ℕ → List Call → ℕ
registered name [] = 0
registered name (misc_registered x ∷ calls) = one_if (x == name) + registered name calls
registered name (_ ∷ calls) = registered name calls

abbrev pub deregistered : ℕ → List Call → ℕ
deregistered name [] = 0
deregistered name (misc_deregistered x ∷ calls) = one_if (x == name) + deregistered name calls
deregistered name (_ ∷ calls) = deregistered name calls

-- How often a class was created, and how often that was refused.
abbrev pub classes : List Call → ℕ
classes [] = 0
classes (class_created ∷ calls) = suc (classes calls)
classes (_ ∷ calls) = classes calls

abbrev pub refusals : List Call → ℕ
refusals [] = 0
refusals (class_refused ∷ calls) = suc (refusals calls)
refusals (_ ∷ calls) = refusals calls

pub delete_devices-listed :
    (name x : ℕ) (es : List Entry) (calls : List Call)
    → let (es', calls') = delete_devices name es calls in
      (listed x es' ≡ (if x == name then 0 else listed x es))
      × (registered x calls' ≡ registered x calls)
      × (deregistered x calls' + listed x es' ≡ deregistered x calls + listed x es)
      × (classes calls' ≡ classes calls)
      × (refusals calls' ≡ refusals calls)
unfolding delete_devices
delete_devices-listed name x [] calls = ground arith
delete_devices-listed name x (e ∷ es) calls = ground (
  arith,
  delete_devices-listed name x es (misc_deregistered e.name ∷ device_destroyed e.dev_add ∷ calls),
  delete_devices-listed name x es calls,
)

-- The listed devices that do not have a name.
abbrev pub others : ℕ → List Entry → List Entry
others name [] = []
others name (e ∷ es) = let rest = others name es in if e.name == name then rest else e ∷ rest

pub delete_devices-others :
    (name : ℕ) (es : List Entry) (calls : List Call)
    → (delete_devices name es calls).0 ≡ others name es
unfolding delete_devices
delete_devices-others name [] calls = refl
delete_devices-others name (e ∷ es) calls = ground (
  arith,
  delete_devices-others name es (misc_deregistered e.name ∷ device_destroyed e.dev_add ∷ calls),
  delete_devices-others name es calls,
)

pub others-unlisted : (name : ℕ) (es : List Entry) → listed name es ≡ 0 → others name es ≡ es
others-unlisted name [] h = refl
others-unlisted name (e ∷ es) h = ground (arith, h, others-unlisted name es)

pub operate_at-listed :
    (k : Kernel) (op : Operation) (i x : ℕ) (es : List Entry) (pins : List PinConfig) (log : Log)
    → listed x (operate_at k op i es pins log).0 ≡ listed x es
unfolding operate_at
operate_at-listed k op i x [] pins log = refl
operate_at-listed k op zero x (e ∷ es) pins log = refl
operate_at-listed k op (suc i) x (e ∷ es) pins log =
    ground (arith, operate_at-listed k op i x es pins log)

pub count-without :
    (name x : ℕ) (xs : List ℕ) → count x (without name xs) ≡ (if x == name then 0 else count x xs)
count-without name x [] = ground arith
count-without name x (y ∷ ys) = ground (arith, count-without name x ys)

pub length-without : (name : ℕ) (xs : List ℕ) → length (without name xs) + count name xs ≡ length xs
length-without name [] = refl
length-without name (y ∷ ys) = ground (arith, length-without name ys)

pub without-unbound : (name : ℕ) (xs : List ℕ) → count name xs ≡ 0 → without name xs ≡ xs
without-unbound name [] h = refl
without-unbound name (y ∷ ys) h = ground (arith, h, without-unbound name ys)
