-- ===== src/DumpStack/Tests.antt =====
-- The theorems about the system calls on a kernel that keeps its probes in a list.
use linux_kernel_programing.Prelude.{◌+◌, ◌≡◌, refl, false, List, [], ◌∷◌}
use linux_kernel_programing.Prelude.Int.{pos}
use linux_kernel_programing.DumpStack.{Kprobe, Process, Kernel, insdump, is_kernel_text}
use linux_kernel_programing.DumpStack.Access.{dumps_of, insdump-dumps}

abbrev kernel : Kernel
kernel = record {
  Table = List Kprobe;
  kallsyms_lookup_name = λ symbol. 4096 + symbol;
  stext = 4096;
  etext = 8191;
  arch_is_kernel_text = λ addr. false;
  in_gate_area_no_mm = λ addr. pos 0;
  register_kprobe_list = λ t p. (p ∷ t, pos 0);
  unregister_kprobe_by_id = λ t n. [];
  remove_active_kprobes = λ t. [];
  get_active_kprobes = λ t. pos 0;
  probes = λ t. t;
  probes-register = λ t p. refl;
}

abbrev owner : Process
owner = record { pid = 41; tgid = 40 }

abbrev thread : Process
thread = record { pid = 42; tgid = 40 }

insdump-dumps_example :
    let (t', r) = insdump kernel owner 7 (pos 1) [] in dumps_of thread 4103 t' ≡ 1
unfolding insdump is_kernel_text
insdump-dumps_example = insdump-dumps kernel owner thread 7 4103 (pos 1) []
