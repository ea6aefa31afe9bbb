-- ===== src/VulkanMemory/Policy.antt =====
-- src/vulkan_memory.cpp: the switch, the decision, the memory types that are hidden and the dispatch.
use bg3le.Common.{
  ℕ, ◌+◌, ◌*◌, Bool, true, false, ◌&&◌, ◌||◌, not, Option, none, some, List, [], ◌∷◌, ◌++◌, ltb,
  ◌==◌, if◌then◌else◌,
}
use mathlib.Core.List.{map}
use bg3le.Pak.Read.{same_bytes}

pub data Mode : Type 0 where
  measure : Mode
  force : Mode
  off : Mode

-- The values of `MEMSTEER` and `BG3LE_VKMEM`, in this order; the first that is set decides.
unfoldable pub mode : List (Option (List ℕ)) → Mode
mode [] = measure
mode (none ∷ values) = mode values
mode (some value ∷ values) =
    if same_bytes value (b'o' ∷ b'f' ∷ b'f' ∷ [])
    then off
    else if same_bytes value (b'o' ∷ b'n' ∷ [])
    then force
    else measure

-- A memory type: two bits of its flags, the others, and its heap.
pub record MemoryType : Type 0 where
  pub device_local : Bool
  pub host_visible : Bool
  pub others : ℕ
  pub heap : ℕ

-- The best speeds of host memory and of device-local memory.
pub record Speeds : Type 0 where
  pub best_host : ℕ
  pub best_bar : ℕ

abbrev pub faster : ℕ → ℕ → ℕ
faster gbs slot = if ltb slot gbs then gbs else slot

abbrev pub with_speed : Bool → ℕ → Speeds → Speeds
with_speed true gbs s = record s { best_bar = faster gbs s.best_bar }
with_speed false gbs s = record s { best_host = faster gbs s.best_host }

-- The loop over the types from the index `i` on; `probe` is what `probe_type` measures, 0 for nothing.
-- A speed is a natural number here, a double in the code.
unfoldable pub measured : (ℕ → ℕ) → ℕ → List MemoryType → Speeds → Speeds
measured probe i [] s = s
measured probe i (t ∷ types) s =
    measured probe (i + 1) types
      (if t.host_visible && not (probe i == 0) then with_speed t.device_local (probe i) s else s)

-- `device` says whether the probe's device and buffer could be made.
unfoldable pub measure_should_steer : Bool → (ℕ → ℕ) → List MemoryType → Bool
unfolding measured
measure_should_steer device probe types =
    let s = measured probe 0 types (record { best_host = 0; best_bar = 0 }) in
    device && (not ((s.best_host == 0) || (s.best_bar == 0)) && ltb (4 * s.best_bar) s.best_host)

-- What does not change: the switch, and what the hardware measures.
pub record Machine : Type 0 where
  pub switch : List (Option (List ℕ))
  pub device : Bool
  pub probe : ℕ → ℕ

pub record State : Type 0 where
  pub decided : Bool
  pub steering : Bool

abbrev pub undecided : State
undecided = record { decided = false; steering = false }

abbrev pub decide_by : Mode → Machine → List MemoryType → Bool
decide_by off m types = false
decide_by force m types = true
decide_by measure m types = measure_should_steer m.device m.probe types

unfoldable pub should_steer : Machine → List MemoryType → State → Bool × State
unfolding mode measure_should_steer
should_steer m types s =
    let steering = decide_by (mode m.switch) m types in
    if s.decided
    then (s.steering, s)
    else (steering, record { decided = true; steering = steering })

abbrev pub is_host_only : MemoryType → Bool
is_host_only t = t.host_visible && not t.device_local

abbrev pub any_type : (MemoryType → Bool) → List MemoryType → Bool
any_type p [] = false
any_type p (t ∷ types) = p t || any_type p types

-- `HOST_VISIBLE` is taken from a device-local type.
abbrev pub hidden : MemoryType → MemoryType
hidden t = if t.device_local && t.host_visible then record t { host_visible = false } else t

unfoldable pub hide_host_visible : List MemoryType → List MemoryType
hide_host_visible types = if any_type is_host_only types then map hidden types else types

abbrev pub steered : Bool → List MemoryType → List MemoryType
steered false types = types
steered true types = hide_host_visible types

abbrev pub is_off : Mode → Bool
is_off off = true
is_off force = false
is_off measure = false

unfoldable pub handle : Machine → List MemoryType → State → List MemoryType × State
unfolding should_steer hide_host_visible
handle m types s =
    let (steering, s') = should_steer m types s in
    if is_off (mode m.switch) then (types, s) else (steered steering types, s')

-- The loader's answer, as the engine gets it, for each of the calls in turn.
unfoldable pub handle_all : Machine → List (List MemoryType) → State → List (List MemoryType)
unfolding handle
handle_all m [] s = []
handle_all m (types ∷ calls) s =
    let (types', s') = handle m types s in types' ∷ handle_all m calls s'

-- A function that a caller is handed: the overlay's for a name, one of this file's, or the loader's.
pub data Function : Type 0 where
  forwarder : List ℕ → Function
  memory_properties : Function
  memory_properties2 : Function
  device_proc_addr : Function
  loaders : List ℕ → Function

abbrev pub properties_name : List ℕ
properties_name =
    b'v' ∷ b'k' ∷ b'G' ∷ b'e' ∷ b't' ∷ b'P' ∷ b'h' ∷ b'y' ∷ b's' ∷ b'i' ∷ b'c' ∷ b'a' ∷ b'l' ∷ b'D'
    ∷ b'e' ∷ b'v' ∷ b'i' ∷ b'c' ∷ b'e' ∷ b'M' ∷ b'e' ∷ b'm' ∷ b'o' ∷ b'r' ∷ b'y' ∷ b'P' ∷ b'r'
    ∷ b'o' ∷ b'p' ∷ b'e' ∷ b'r' ∷ b't' ∷ b'i' ∷ b'e' ∷ b's' ∷ []

abbrev pub properties2_name : List ℕ
properties2_name = properties_name ++ (b'2' ∷ [])

abbrev pub properties2_khr_name : List ℕ
properties2_khr_name = properties_name ++ (b'2' ∷ b'K' ∷ b'H' ∷ b'R' ∷ [])

abbrev pub device_proc_addr_name : List ℕ
device_proc_addr_name =
    b'v' ∷ b'k' ∷ b'G' ∷ b'e' ∷ b't' ∷ b'D' ∷ b'e' ∷ b'v' ∷ b'i' ∷ b'c' ∷ b'e' ∷ b'P' ∷ b'r' ∷ b'o'
    ∷ b'c' ∷ b'A' ∷ b'd' ∷ b'd' ∷ b'r' ∷ []

abbrev pub present_name : List ℕ
present_name =
    b'v' ∷ b'k' ∷ b'Q' ∷ b'u' ∷ b'e' ∷ b'u' ∷ b'e' ∷ b'P' ∷ b'r' ∷ b'e' ∷ b's' ∷ b'e' ∷ b'n' ∷ b't'
    ∷ b'K' ∷ b'H' ∷ b'R' ∷ []

-- `forwards` says for which names the overlay has a function.
module _ (m : Machine) (forwards : List ℕ → Bool) where
  unfoldable pub diverted : List ℕ → Option Function
  unfolding mode
  diverted name =
      if forwards name
      then some (forwarder name)
      else if is_off (mode m.switch)
      then none
      else if same_bytes name properties_name
      then some memory_properties
      else if same_bytes name properties2_name || same_bytes name properties2_khr_name
      then some memory_properties2
      else none

  abbrev pub or_loaders : List ℕ → Option Function → Function
  or_loaders name none = loaders name
  or_loaders name (some f) = f

  unfoldable pub vk_get_device_proc_addr : List ℕ → Function
  unfolding diverted
  vk_get_device_proc_addr name = or_loaders name (diverted name)

  unfoldable pub vk_get_instance_proc_addr : List ℕ → Function
  unfolding diverted
  vk_get_instance_proc_addr name =
      let wanted = not (is_off (mode m.switch)) || forwards present_name in
      if wanted && same_bytes name device_proc_addr_name
      then device_proc_addr
      else or_loaders name (diverted name)
