-- ===== src/DumpStack/Access.antt =====
-- Who gets a stack dump from a probe of `dynamic_dump_stack.c`.
use linux_kernel_programing.Prelude.{
  ℕ, ◌+◌, ◌≡◌, ◌≢◌, ◌↔◌, Bool, true, false, ◌&&◌, List, [], ◌∷◌, arith, ◌==◌, if◌then◌else◌,
}
use linux_kernel_programing.Prelude.Int.{ℤ, pos, ltb_ℤ, ◌==ℤ◌}
use linux_kernel_programing.DumpStack.{
  Kprobe, Process, Kernel, handler_pre, make_kprobe, is_kernel_text, insdump,
}

-- Whether the process `current` may see the dumps of a probe that `owner` plants: in mode 0 only the
-- owner, in mode 1 the threads of its group, in another mode anyone.
abbrev pub is_allowed : ℤ → Process → Process → Bool
is_allowed mode owner current =
    if mode ==ℤ pos 0
    then owner.pid == current.pid
    else (if mode ==ℤ pos 1 then owner.tgid == current.tgid else true)

-- How many dumps a hit at an address gives while a process runs.
abbrev pub dumps_of : Process → ℕ → List Kprobe → ℕ
dumps_of current addr [] = 0
dumps_of current addr (p ∷ ps) =
    (if p.addr == addr && handler_pre current p then 1 else 0) + dumps_of current addr ps

make_kprobe-handler_pre :
    (owner current : Process) (addr : ℕ) (mode : ℤ)
    → handler_pre current (make_kprobe owner addr mode) ≡ is_allowed mode owner current
unfolding handler_pre make_kprobe
make_kprobe-handler_pre owner current addr mode = ground arith

-- `insdump` succeeds exactly when the symbol's address is kernel text and not 0 and the kernel
-- takes the probe; it then returns the number of the calling process.
pub insdump_lem :
    (k : Kernel) (current : Process) (symbol : ℕ) (mode : ℤ) (t : k.Table)
    → let (t', r) = insdump k current symbol mode t in
      let addr = k.kallsyms_lookup_name symbol in
      let ret = (k.register_kprobe_list t (make_kprobe current addr mode)).1 in
      ((r ≡ pos current.pid)
        ↔ ((is_kernel_text k addr ≡ pos 1) × (addr ≢ 0) × (ltb_ℤ ret (pos 0) ≡ false)))
unfolding insdump
insdump_lem k current symbol mode t = ground arith

-- A call of `insdump` that fails changes no dump. After one that succeeds, a hit at the symbol's
-- address gives one dump more to the processes that the mode allows; nothing changes for the
-- others, nor at another address.
pub insdump-dumps :
    (k : Kernel) (owner current : Process) (symbol addr : ℕ) (mode : ℤ) (t : k.Table)
    → let (t', r) = insdump k owner symbol mode t in
      let added = k.kallsyms_lookup_name symbol == addr && is_allowed mode owner current in
      dumps_of current addr (k.probes t')
      ≡ (if ltb_ℤ r (pos 0) then 0 else (if added then 1 else 0))
        + dumps_of current addr (k.probes t)
unfolding insdump make_kprobe
insdump-dumps k owner current symbol addr mode t =
    let p = make_kprobe owner (k.kallsyms_lookup_name symbol) mode in
    ground (
      arith,
      k.probes-register t p,
      make_kprobe-handler_pre owner current (k.kallsyms_lookup_name symbol) mode,
    )
