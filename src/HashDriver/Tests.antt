-- ===== src/HashDriver/Tests.antt =====
-- A table of functions in the place of the kernel's, and the theorems at concrete inputs.
use linux_kernel_programing.Prelude.{
  ℕ, ◌+◌, ◌/◌, ◌%◌, ◌≡◌, refl, List, [], ◌∷◌, arith, ◌==◌, if◌then◌else◌,
}
use linux_kernel_programing.Prelude.Int.{pos}
use linux_kernel_programing.HashDriver.Api.{HtObject, HashTable}
use linux_kernel_programing.HashDriver.Chain
use linux_kernel_programing.HashDriver.{
  Driver, dump, neg_einval, minus_one, open_device, write, read, ioctl, read_result, write_table,
  read_table,
}
use linux_kernel_programing.HashDriver.Store.{IsValid, hash_init-IsPlaced, read-write}
use linux_kernel_programing.HashDriver.History.{write_all, last_data, read-write_all}
use linux_kernel_programing.HashDriver.Dump.{ioctl-dump}
use linux_kernel_programing.HashDriver.Memory.{Leaked, linked_below, write_leak, write-Leaked}

-- Buckets as a function; keys of bucket `b` are those with `key / 256 % 128 ≡ b`.
abbrev pub buckets_by_function : HashTable
buckets_by_function = record {
  Table = ℕ → List HtObject;
  hash_min = λ k. k / 256 % 128;
  hash_init = λ b. [];
  chain = λ t b. t b;
  hash_add = λ t x k b. if k / 256 % 128 == b then x ∷ t b else t b;
  relink = λ t a c b. if a == b then c else t b;
  hash_min-lt = λ k. omega arith;
  chain-hash_init = λ b. refl;
  chain-hash_add = λ t x k b. refl;
  chain-relink = λ t a c b h. refl;
}

abbrev obj : ℕ → ℕ → HtObject
obj k d = record { key = k; data' = d }

abbrev pub start : Driver (ℕ → List HtObject)
start = record { tbl_0 = λ b. []; tbl_1 = λ b. []; minor = 0; live = 0 }

pub start-IsValid : IsValid buckets_by_function start
start-IsValid = record {
  placed_0 = hash_init-IsPlaced buckets_by_function;
  placed_1 = hash_init-IsPlaced buckets_by_function;
}

-- Three writes to device 0, one of them a deletion, one an update.
abbrev session : List HtObject
session = obj 5 50 ∷ obj 6 60 ∷ obj 5 0 ∷ obj 6 61 ∷ []

session_reads :
    (read buckets_by_function (obj 6 0) (write_all buckets_by_function session start)
      ≡ (obj 6 61, pos 1))
    × (read buckets_by_function (obj 5 0) (write_all buckets_by_function session start)
        ≡ (obj 5 minus_one, neg_einval))
unfolding read write_all write write_table read_table read_result Chain.read_chain Chain.has_key
    Chain.assign Chain.unlink
session_reads = (refl, refl)

read-write_example :
    read buckets_by_function (obj 3 9) (write buckets_by_function (obj 3 7) start).0
    ≡ (obj 3 7, pos 1)
read-write_example = read-write buckets_by_function (obj 3 7) (obj 3 9) start start-IsValid

read-write_all_example :
    read buckets_by_function
      (obj 6 0)
      (write_all buckets_by_function session (open_device buckets_by_function 0 start))
    ≡ (obj 6 61, pos 1)
unfolding last_data
read-write_all_example = read-write_all buckets_by_function 0 session (obj 6 0) start start-IsValid

ioctl-dump_example : ioctl buckets_by_function (dump 0) start ≡ ([], pos 0)
ioctl-dump_example = ioctl-dump buckets_by_function 0 3 start (omega arith) refl

start-Leaked : Leaked buckets_by_function start 0
unfolding linked_below
start-Leaked = refl

write-Leaked_example :
    Leaked buckets_by_function
      (write buckets_by_function (obj 5 0) start).0
      (0 + write_leak (obj 5 0) [])
write-Leaked_example = write-Leaked buckets_by_function (obj 5 0) start 0 start-Leaked
