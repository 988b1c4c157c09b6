-- ===== src/DumpStack.antt =====
-- `Dynamic Stack Dumping using new syscalls/kernel files/dynamic_dump_stack.c`: the system calls
-- that plant probes, and the handler that decides whether a hit dumps the stack. The list of
-- probes is kept by a patched kernel that is not part of the repository: a parameter.
pub mod Access
mod Tests
use linux_kernel_programing.Prelude.{
  ℕ, ◌≡◌, Bool, true, false, not, ◌&&◌, ◌||◌, List, ◌∷◌, leb, ◌==◌, if◌then◌else◌,
}
use linux_kernel_programing.Prelude.Int.{ℤ, pos, negsuc, ltb_ℤ, ◌==ℤ◌}

-- What the code sets of a `struct kprobe`.
pub record Kprobe : Type 0 where
  pub addr : ℕ
  pub id : ℕ
  pub dumpmode : ℤ
  pub owner_id : ℤ
  pub access_id : ℤ

-- `current`
pub record Process : Type 0 where
  pub pid : ℕ
  pub tgid : ℕ

-- The kernel: the addresses of symbols, its text, and the list of probes. A probe that is
-- registered joins the list, a failed call leaves it, and probes leave it by their id.
pub record Kernel : Type 1 where
  pub Table : Type 0
  pub kallsyms_lookup_name : ℕ → ℕ
  pub stext : ℕ
  pub etext : ℕ
  pub arch_is_kernel_text : ℕ → Bool
  pub in_gate_area_no_mm : ℕ → ℤ
  pub register_kprobe_list : Table → Kprobe → Table × ℤ
  pub unregister_kprobe_by_id : Table → ℕ → Table
  pub remove_active_kprobes : Table → Table
  pub get_active_kprobes : Table → ℤ
  pub probes : Table → List Kprobe
  pub probes-register :
      (t : Table) (p : Kprobe)
      → probes (register_kprobe_list t p).0
        ≡ (if ltb_ℤ (register_kprobe_list t p).1 (pos 0) then probes t else p ∷ probes t)

-- `handler_pre`: whether it dumps the stack.
unfoldable pub handler_pre : Process → Kprobe → Bool
handler_pre current p =
    if p.dumpmode ==ℤ pos 0
    then p.access_id ==ℤ pos current.pid
    else (if p.dumpmode ==ℤ pos 1 then p.access_id ==ℤ pos current.tgid else true)

-- `handler_post` and `handler_fault` only print; the fault handler returns 0.
unfoldable pub handler_fault : Kprobe → ℤ
handler_fault p = pos 0

-- The part of `insdump` that fills the probe.
unfoldable pub make_kprobe : Process → ℕ → ℤ → Kprobe
make_kprobe current addr mode = record {
  addr = addr;
  id = current.pid;
  dumpmode = mode;
  owner_id = pos current.pid;
  access_id =
      if mode ==ℤ pos 0
      then pos current.pid
      else (if mode ==ℤ pos 1 then pos current.tgid else negsuc 0);
}

module _ (k : Kernel) where
  unfoldable pub is_kernel_text : ℕ → ℤ
  is_kernel_text addr =
      if (leb k.stext addr && leb addr k.etext) || k.arch_is_kernel_text addr
      then pos 1
      else k.in_gate_area_no_mm addr

  unfoldable pub insdump : Process → ℕ → ℤ → k.Table → k.Table × ℤ
  insdump current symbol mode t =
      let addr = k.kallsyms_lookup_name symbol in
      let (t', ret) = k.register_kprobe_list t (make_kprobe current addr mode) in
      if not (is_kernel_text addr ==ℤ pos 1)
      then (t, negsuc 21)
      else (if addr == 0
          then (t, negsuc 0)
          else (if ltb_ℤ ret (pos 0) then (t', negsuc 0) else (t', pos current.pid)))

  unfoldable pub rmdump : ℕ → k.Table → k.Table × ℤ
  rmdump dumpid t = (k.unregister_kprobe_by_id t dumpid, pos 0)

  -- The system call of the same name.
  unfoldable pub remove_active : k.Table → k.Table × ℤ
  remove_active t = (k.remove_active_kprobes t, pos 0)

  unfoldable pub active_kprobes : k.Table → ℤ
  active_kprobes t = k.get_active_kprobes t
