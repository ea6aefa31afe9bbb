-- ===== src/Examples/VulkanMemory.antt =====
-- src/vulkan_memory.cpp at concrete inputs.
use bg3le.Common.{◌≡◌, refl, true, false, none, List, [], ◌∷◌, ◌==◌, if◌then◌else◌}
use mathlib.Core.List.{map}
use bg3le.VulkanMemory.Policy.{
  mode, MemoryType, Machine, undecided, decide_by, should_steer, any_type, is_host_only,
  hide_host_visible, steered, handle_all,
}
use bg3le.VulkanMemory.Hiding.{is_visible, is_both, handle_all_lem, hide_host_visible_lem}

abbrev host_memory : MemoryType
host_memory = record { device_local = false; host_visible = true; others = 4; heap = 0 }

abbrev bar_memory : MemoryType
bar_memory = record { device_local = true; host_visible = true; others = 4; heap = 1 }

-- Host memory at 700, the other at 10.
abbrev slow_link : Machine
slow_link = record {
  switch = none ∷ (none ∷ []);
  device = true;
  probe = λ i. if i == 0 then 700 else 10;
}

abbrev two_types : List MemoryType
two_types = host_memory ∷ (bar_memory ∷ [])

abbrev two_calls : List (List MemoryType)
two_calls = [] ∷ (two_types ∷ [])

slow_link_check : (should_steer slow_link two_types undecided).0 ≡ true
unfolding should_steer
slow_link_check = refl

handle_all_example :
    handle_all slow_link (two_types ∷ two_calls) undecided
    ≡ map (steered (decide_by (mode slow_link.switch) slow_link two_types)) (two_types ∷ two_calls)
handle_all_example = handle_all_lem slow_link two_types two_calls

hide_host_visible_example :
    (any_type is_visible two_types ≡ true
      → any_type is_visible (hide_host_visible two_types) ≡ true)
    × (any_type is_host_only two_types ≡ true
        → any_type is_both (hide_host_visible two_types) ≡ false)
    × (any_type is_host_only two_types ≡ false → hide_host_visible two_types ≡ two_types)
    × (hide_host_visible (hide_host_visible two_types) ≡ hide_host_visible two_types)
hide_host_visible_example = hide_host_visible_lem two_types
