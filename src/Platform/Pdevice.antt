-- ===== src/Platform/Pdevice.antt =====
-- `Platform Driver and Device infrastructure for HC-SR04/platform_device.c`: the platform devices
-- that the driver is bound to. The calls of the platform bus are entries of a log, the newest
-- first; what the kernel answers for an index is a parameter.
use linux_kernel_programing.Prelude.{
  ℕ, zero, suc, ◌+◌, ◌≤◌, ◌<◌, ◌≡◌, refl, Bool, not, ◌&&◌, Option, none, some, List, [], ◌∷◌, arith,
  ◌==◌, if◌then◌else◌, Bool-cases, inl, inr,
}
use linux_kernel_programing.Prelude.Int.{ℤ, pos, negsuc, ◌==ℤ◌}

pub data Call : Type 0 where
  platform_device_alloc : ℕ → Call
  platform_device_add : ℕ → Call
  platform_device_put : Option ℕ → Call
  platform_device_del : Option ℕ → Call

pub record Answers : Type 0 where
  pub allocates : ℕ → Bool
  pub add_error : ℕ → ℤ

-- `struct Device_HCSR`: the name is `HCSR_` and the number; a platform device is known by the
-- number too, and `none` is a null pointer.
pub record DeviceHcsr : Type 0 where
  pub device_no : ℕ
  pub pl_device : Option ℕ

abbrev enomem : ℤ
enomem = negsuc 11

-- The body of the loop in `pdevice_init`.
unfoldable pub add_device : Answers → ℕ → List Call → DeviceHcsr × List Call
add_device a index calls =
    let pl = if a.allocates index then some index else none in
    let calls₁ = platform_device_alloc index ∷ calls in
    let err = if a.allocates index then a.add_error index else enomem in
    let calls₂ = if a.allocates index then platform_device_add index ∷ calls₁ else calls₁ in
    (
      record { device_no = index; pl_device = pl },
      if err ==ℤ pos 0 then calls₂ else platform_device_put pl ∷ calls₂,
    )

unfoldable pub add_devices :
    Answers → ℕ → ℕ → List DeviceHcsr → List Call → List DeviceHcsr × List Call
add_devices a zero index devices calls = (devices, calls)
add_devices a (suc rounds) index devices calls =
    let (d, calls') = add_device a index calls in
    add_devices a rounds (index + 1) (d ∷ devices) calls'

-- `count` is the parameter `devices` of the module. It returns 0 whatever failed.
unfoldable pub pdevice_init : Answers → ℕ → ℤ × List DeviceHcsr × List Call
pdevice_init a count = let (devices, calls) = add_devices a count 0 [] [] in (pos 0, devices, calls)

unfoldable pub pdevice_exit : List DeviceHcsr → List Call → List Call
pdevice_exit [] calls = calls
pdevice_exit (d ∷ devices) calls = pdevice_exit devices (platform_device_del d.pl_device ∷ calls)

abbrev is_one : Option ℕ → ℕ → ℕ
is_one none i = 0
is_one (some j) i = if j == i then 1 else 0

-- How often a platform device was put, and how often deleted.
abbrev pub puts : ℕ → List Call → ℕ
puts i [] = 0
puts i (platform_device_put pl ∷ calls) = is_one pl i + puts i calls
puts i (_ ∷ calls) = puts i calls

abbrev pub dels : ℕ → List Call → ℕ
dels i [] = 0
dels i (platform_device_del pl ∷ calls) = is_one pl i + dels i calls
dels i (_ ∷ calls) = dels i calls

abbrev uses : ℕ → List DeviceHcsr → ℕ
uses i [] = 0
uses i (d ∷ devices) = is_one d.pl_device i + uses i devices

abbrev has_failed : Answers → ℕ → Bool
has_failed a i = a.allocates i && not (a.add_error i ==ℤ pos 0)

-- One of the devices from `index` on.
abbrev is_among : ℕ → ℕ → ℕ → ℕ
is_among zero index i = 0
is_among (suc rounds) index i = (if index == i then 1 else 0) + is_among rounds (index + 1) i

is_among-later : (rounds index i : ℕ) → i < index → is_among rounds index i ≡ 0
is_among-later zero index i h = refl
is_among-later (suc rounds) index i h =
    ground (arith, is_among-later rounds (index + 1) i (omega arith))

is_among-between :
    (rounds index i : ℕ) → index ≤ i → i < index + rounds → is_among rounds index i ≡ 1
is_among-between zero index i h h' = absurd (omega arith)
is_among-between (suc rounds) index i h h' =
    ground (arith, is_among-later rounds (index + 1) i, is_among-between rounds (index + 1) i)

add_device-uses :
    (a : Answers) (index i : ℕ) (calls : List Call)
    → let (d, calls') = add_device a index calls in
      (is_one d.pl_device i ≡ (if a.allocates i && index == i then 1 else 0))
      × (puts i calls' ≡ puts i calls + (if has_failed a i && index == i then 1 else 0))
      × (dels i calls' ≡ dels i calls)
unfolding add_device
add_device-uses a index i calls = elim (Bool-cases (index == i)) [
  | inl e ↦ let same : index ≡ i = ground (arith, e) in rw (same) (ground arith)
  | inr ne ↦ ground (arith, ne)
]

add_devices-uses :
    (a : Answers) (rounds index i : ℕ) (devices : List DeviceHcsr) (calls : List Call)
    → let (devices', calls') = add_devices a rounds index devices calls in
      (uses i devices' ≡ uses i devices + (if a.allocates i then is_among rounds index i else 0))
      × (puts i calls' ≡ puts i calls + (if has_failed a i then is_among rounds index i else 0))
      × (dels i calls' ≡ dels i calls)
unfolding add_devices
add_devices-uses a zero index i devices calls = ground arith
add_devices-uses a (suc rounds) index i devices calls =
    let (d, calls') = add_device a index calls in
    let rest = add_devices-uses a rounds (index + 1) i (d ∷ devices) calls' in
    ground (arith, rest, add_device-uses a index i calls)

pdevice_exit-uses :
    (i : ℕ) (devices : List DeviceHcsr) (calls : List Call)
    → (puts i (pdevice_exit devices calls) ≡ puts i calls)
      × (dels i (pdevice_exit devices calls) ≡ dels i calls + uses i devices)
unfolding pdevice_exit
pdevice_exit-uses i [] calls = ground arith
pdevice_exit-uses i (d ∷ devices) calls =
    ground (arith, pdevice_exit-uses i devices (platform_device_del d.pl_device ∷ calls))

-- From the module's start to its end: each platform device that was allocated is deleted exactly
-- once. One that could not be added was put before, so it is deleted after the last reference to it
-- is gone; one that was added is never put, so it is never freed.
pub pdevice_exit-pdevice_init :
    (a : Answers) (count i : ℕ)
    → i < count
    → let (r, devices, calls) = pdevice_init a count in
      let calls' = pdevice_exit devices calls in
      (dels i calls ≡ 0)
      × (dels i calls' ≡ (if a.allocates i then 1 else 0))
      × (puts i calls ≡ (if has_failed a i then 1 else 0))
      × (puts i calls' ≡ puts i calls)
unfolding pdevice_init
pdevice_exit-pdevice_init a count i h =
    let (devices, calls) = add_devices a count 0 [] [] in
    ground (
      arith,
      add_devices-uses a count 0 i [] [],
      pdevice_exit-uses i devices calls,
      is_among-between count 0 i (omega arith) (omega arith),
    )
