-- ===== src/VulkanMemory/Hiding.antt =====
-- src/vulkan_memory.cpp: what the engine sees of the memory types.
use bg3le.Common.{
  ℕ, ◌≡◌, refl, sym, ap, ◌∙◌, Bool, true, false, ◌&&◌, List, [], ◌∷◌, Bool-cases, inl, inr, arith,
}
use mathlib.Core.List.{map}
use bg3le.VulkanMemory.Policy.{
  Mode, measure, force, off, mode, MemoryType, Machine, State, undecided, decide_by, should_steer,
  is_host_only, any_type, hidden, hide_host_visible, steered, is_off, handle, handle_all,
}

-- Once it is decided, each answer is that of the decision.
decided-steered :
    (m : Machine) (calls : List (List MemoryType)) (b : Bool)
    → is_off (mode m.switch) ≡ false
    → handle_all m calls (record { decided = true; steering = b }) ≡ map (steered b) calls
unfolding handle_all handle should_steer
decided-steered m [] b on = refl
decided-steered m (types ∷ calls) b on =
    rw on (ap (λ rest. steered b types ∷ rest) (decided-steered m calls b on))

off-same :
    (m : Machine) (calls : List (List MemoryType)) (s : State)
    → is_off (mode m.switch) ≡ true
    → handle_all m calls s ≡ map (steered false) calls
unfolding handle_all handle
off-same m [] s h = refl
off-same m (types ∷ calls) s h = rw h (ap (λ rest. types ∷ rest) (off-same m calls s h))

off-decides :
    (o : Mode) (m : Machine) (types : List MemoryType)
    → is_off o ≡ true
    → decide_by o m types ≡ false
off-decides off m types h = refl
off-decides force m types h = absurd (cc)
off-decides measure m types h = absurd (cc)

first-steered :
    (m : Machine) (types : List MemoryType) (calls : List (List MemoryType))
    → is_off (mode m.switch) ≡ false
    → handle_all m (types ∷ calls) undecided
      ≡ map (steered (decide_by (mode m.switch) m types)) (types ∷ calls)
unfolding handle_all handle should_steer
first-steered m types calls p =
    let b = decide_by (mode m.switch) m types in
    rw p (ap (λ rest. steered b types ∷ rest) (decided-steered m calls b p))

-- Whatever types the loader reports in whatever calls, the engine gets in each call what one decision
-- makes of them, and that decision is made by the switch and, if it says to measure, by the types of
-- the first call.
pub handle_all_lem :
    (m : Machine) (types : List MemoryType) (calls : List (List MemoryType))
    → handle_all m (types ∷ calls) undecided
      ≡ map (steered (decide_by (mode m.switch) m types)) (types ∷ calls)
handle_all_lem m types calls = elim (Bool-cases (is_off (mode m.switch))) [
  | inl p ↦
      off-same m (types ∷ calls) undecided p
      ∙ ap (λ (b : Bool). map (steered b) (types ∷ calls))
          (sym (off-decides (mode m.switch) m types p))
  | inr p ↦ first-steered m types calls p
]

abbrev pub is_visible : MemoryType → Bool
is_visible t = t.host_visible

abbrev pub is_both : MemoryType → Bool
is_both t = t.device_local && t.host_visible

host_only-hidden :
    (types : List MemoryType)
    → any_type is_host_only (map hidden types) ≡ any_type is_host_only types
host_only-hidden [] = refl
host_only-hidden (t ∷ types) = let rest = host_only-hidden types in ground arith

host_only-visible :
    (types : List MemoryType)
    → any_type is_host_only types ≡ true
    → any_type is_visible types ≡ true
host_only-visible [] h = cc
host_only-visible (t ∷ types) h =
    let rest : any_type is_host_only types ≡ true → any_type is_visible types ≡ true =
      host_only-visible types in
    ground arith

both-hidden : (types : List MemoryType) → any_type is_both (map hidden types) ≡ false
both-hidden [] = refl
both-hidden (t ∷ types) = let rest = both-hidden types in ground arith

hidden_twice :
    (d h : Bool) (others heap : ℕ)
    → let t : MemoryType = record {
      device_local = d;
      host_visible = h;
      others = others;
      heap = heap;
    } in
      hidden (hidden t) ≡ hidden t
hidden_twice true true others heap = refl
hidden_twice true false others heap = refl
hidden_twice false true others heap = refl
hidden_twice false false others heap = refl

hidden-hidden : (t : MemoryType) → hidden (hidden t) ≡ hidden t
hidden-hidden t = hidden_twice t.device_local t.host_visible t.others t.heap

map-hidden : (types : List MemoryType) → map hidden (map hidden types) ≡ map hidden types
map-hidden [] = refl
map-hidden (t ∷ types) = λ i. hidden-hidden t i ∷ map-hidden types i

-- Hiding leaves a type that the host can write to where there was one; it leaves the types as they
-- are or leaves none that is both device-local and host-visible, and does the latter if there is a
-- type of the host alone; and hiding again changes nothing more.
pub hide_host_visible_lem :
    (types : List MemoryType)
    → (any_type is_visible types ≡ true → any_type is_visible (hide_host_visible types) ≡ true)
      × (any_type is_host_only types ≡ true → any_type is_both (hide_host_visible types) ≡ false)
      × (any_type is_host_only types ≡ false → hide_host_visible types ≡ types)
      × (hide_host_visible (hide_host_visible types) ≡ hide_host_visible types)
unfolding hide_host_visible
hide_host_visible_lem types = elim (Bool-cases (any_type is_host_only types)) [
  | inr p ↦
      rw p
        ((λ h. h), (λ h. (let wrong : true ≡ false = sym h in absurd (cc))), (λ h. refl), rw p refl)
  | inl p ↦
      let kept = host_only-hidden types ∙ p in
      rw p (
        (λ h. host_only-visible (map hidden types) kept),
        (λ h. both-hidden types),
        (λ h. (let wrong : true ≡ false = h in absurd (cc))),
        rw kept (map-hidden types),
      )
]
