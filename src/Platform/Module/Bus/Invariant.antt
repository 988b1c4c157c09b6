-- ===== src/Platform/Module/Bus/Invariant.antt =====
-- What holds in every state of the platform driver.
use linux_kernel_programing.Prelude.{
  ℕ, suc, ◌+◌, ◌%◌, ◌^◌, ◌≡◌, ◌≤◌, refl, true, false, List, [], ◌∷◌, arith, if◌then◌else◌, length,
  Bool-cases, inl, inr,
}
use linux_kernel_programing.Prelude.Int.{pos, ◌==ℤ◌}
use linux_kernel_programing.Hcsr.Device.{Device}
use linux_kernel_programing.Hcsr.Pins.{Kernel}
use linux_kernel_programing.Hcsr.Files.{success}
use linux_kernel_programing.Platform.Module.{
  Driver, Answers, create_files, class_refused, class_unregistered, class_destroyed, set_up,
  hcsr04_init, hcsr04_exit, pdriver_probe, pdriver_remove,
}
use linux_kernel_programing.Platform.Module.Bus.{
  Operation, use_device, count, without, System, probe, unbind, operation, Reach, start, later,
}
use linux_kernel_programing.Platform.Module.Bus.Counts.{
  one_if, listed, registered, deregistered, classes, refusals, delete_devices-listed,
  operate_at-listed, count-without, length-without,
}

-- After `n` steps, with `bound` the names of the bound devices.
pub record Inv (n : ℕ) (bound : List ℕ) (s : Driver) : Type 0 where
  pub age : length bound + refusals s.calls ≤ n
  pub found : s.device_found ≡ (length bound + refusals s.calls) % 2 ^ 32
  pub once : (x : ℕ) → count x bound ≤ 1
  pub listed_le : (x : ℕ) → listed x s.devices ≤ count x bound
  pub unset : s.first ≡ true → length bound ≡ 0
  pub one_class : classes s.calls + one_if s.first ≡ 1
  pub balance : (x : ℕ) → registered x s.calls ≡ deregistered x s.calls + listed x s.devices

pub count-[] : (x : ℕ) (xs : List ℕ) → length xs ≡ 0 → count x xs ≡ 0
count-[] x [] h = refl
count-[] x (y ∷ ys) h = absurd (omega arith)

-- What a probe of a class does to a driver that has its class.
hcsr04_init-Inv :
    (a : Answers) (garbage : Device) (name n : ℕ) (bound : List ℕ) (s : Driver)
    → s.first ≡ false
    → Inv n bound s
    → count name bound ≡ 0
    → Inv
        (suc n)
        (name ∷ bound)
        (hcsr04_init a garbage name (record s { device_found = (s.device_found + 1) % 2 ^ 32 })).1
unfolding hcsr04_init create_files
hcsr04_init-Inv a garbage name n bound s old i new = record {
  age = ground (arith, i.age);
  found = ground (arith, i.found);
  once = λ x. ground (arith, i.once x);
  listed_le = λ x. ground (arith, i.listed_le x);
  unset = ground (arith, old);
  one_class = ground (arith, i.one_class);
  balance = λ x. ground (arith, i.balance x);
}

-- The three courses of a probe.
pub pdriver_probe-old :
    (a : Answers) (garbage : Device) (name : ℕ) (s : Driver)
    → s.first ≡ false
    → pdriver_probe a garbage name s ≡ (
      success,
      (hcsr04_init a garbage name (record s { device_found = (s.device_found + 1) % 2 ^ 32 })).1,
    )
unfolding pdriver_probe
pdriver_probe-old a garbage name s h = ground (arith, h)

pub pdriver_probe-first :
    (a : Answers) (garbage : Device) (name : ℕ) (s : Driver)
    → s.first ≡ true
    → a.grants_class s.calls ≡ true
    → pdriver_probe a garbage name s ≡ (
      success,
      (hcsr04_init a garbage name
          (record (set_up s) { device_found = (s.device_found + 1) % 2 ^ 32 })).1,
    )
unfolding pdriver_probe
pdriver_probe-first a garbage name s h granted = ground (arith, h, granted)

pub pdriver_probe-refused :
    (a : Answers) (garbage : Device) (name : ℕ) (s : Driver)
    → s.first ≡ true
    → a.grants_class s.calls ≡ false
    → pdriver_probe a garbage name s ≡ (
      pos 1,
      record s {
        device_found = (s.device_found + 1) % 2 ^ 32;
        calls = class_destroyed ∷ class_unregistered ∷ class_refused ∷ s.calls;
      },
    )
unfolding pdriver_probe
pdriver_probe-refused a garbage name s h refused = ground (arith, h, refused)

set_up-Inv :
    (n : ℕ) (bound : List ℕ) (s : Driver) → s.first ≡ true → Inv n bound s → Inv n bound (set_up s)
set_up-Inv n bound s h i = record {
  age = i.age;
  found = i.found;
  once = i.once;
  listed_le = λ x. omega arith;
  unset = λ e. absurd (cc e);
  one_class = ground (arith, h, i.one_class);
  balance = λ x. ground (arith, h, i.balance x, i.listed_le x, count-[] x bound, i.unset);
}

pdriver_probe-Inv :
    (a : Answers) (garbage : Device) (name n : ℕ) (bound : List ℕ) (s : Driver)
    → Inv n bound s
    → count name bound ≡ 0
    → let (r, s') = pdriver_probe a garbage name s in
      Inv (suc n) (if r ==ℤ pos 0 then name ∷ bound else bound) s'
pdriver_probe-Inv a garbage name n bound s i new = elim (Bool-cases s.first) [
  | inr old ↦
      rw (pdriver_probe-old a garbage name s old)
        (hcsr04_init-Inv a garbage name n bound s old i new)
  | inl h ↦ elim (Bool-cases (a.grants_class s.calls)) [
    | inl granted ↦
        rw (pdriver_probe-first a garbage name s h granted)
          (hcsr04_init-Inv a garbage name n bound (set_up s) refl (set_up-Inv n bound s h i) new)
    | inr refused ↦ rw (pdriver_probe-refused a garbage name s h refused) (record {
      age = ground (arith, i.age);
      found = ground (arith, i.found);
      once = i.once;
      listed_le = i.listed_le;
      unset = i.unset;
      one_class = ground (arith, i.one_class);
      balance = λ x. ground (arith, i.balance x);
    })
  ]
]

pdriver_remove-Inv :
    (name n : ℕ) (bound : List ℕ) (s : Driver)
    → Inv n bound s
    → count name bound ≡ 1
    → Inv (suc n) (without name bound) (pdriver_remove name s).1
unfolding pdriver_remove hcsr04_exit
pdriver_remove-Inv name n bound s i there =
    let shorter = length-without name bound in
    let kept : (x : ℕ) → _ = λ x. delete_devices-listed name x s.devices s.calls in
    record {
      age = ground (arith, i.age, shorter, kept name);
      found = ground (arith, i.found, shorter, kept name);
      once = λ x. ground (arith, i.once x, count-without name x bound);
      listed_le = λ x. ground (arith, i.listed_le x, kept x, count-without name x bound);
      unset = ground (arith, i.unset, shorter, there);
      one_class = ground (arith, i.one_class, kept name);
      balance = λ x. ground (arith, i.balance x, kept x);
    }

use_device-Inv :
    (k : Kernel) (op : Operation) (j n : ℕ) (bound : List ℕ) (s : Driver)
    → Inv n bound s
    → Inv (suc n) bound (use_device k op j s)
unfolding use_device
use_device-Inv k op j n bound s i =
    let same : (x : ℕ) → _ = λ x. operate_at-listed k op j x s.devices s.pins s.log in
    record {
      age = ground (arith, i.age);
      found = i.found;
      once = i.once;
      listed_le = λ x. ground (arith, i.listed_le x, same x);
      unset = i.unset;
      one_class = i.one_class;
      balance = λ x. ground (arith, i.balance x, same x);
    }

pub Reach-Inv : (a : Answers) {n : ℕ} {s : System} → Reach a n s → Inv n s.bound s.driver
Reach-Inv a start = record {
  age = omega arith;
  found = refl;
  once = λ x. omega arith;
  listed_le = λ x. omega arith;
  unset = λ e. refl;
  one_class = refl;
  balance = λ x. refl;
}
Reach-Inv a (later {n} {s} r (probe garbage name new)) =
    pdriver_probe-Inv a garbage name n s.bound s.driver (Reach-Inv a r) new
Reach-Inv a (later {n} {s} r (unbind name there)) =
    pdriver_remove-Inv name n s.bound s.driver (Reach-Inv a r) there
Reach-Inv a (later {n} {s} r (operation k op j)) =
    use_device-Inv k op j n s.bound s.driver (Reach-Inv a r)
