-- ===== src/Affinity/Game.antt =====
-- src/affinity.cpp: what the engine's threads get of the cpus that they ask for.
use bg3le.Common.{
  ℕ, ◌*◌, ◌<◌, ◌≤◌, ◌≡◌, refl, ap, ◌∙◌, true, false, Option, none, some, List, [], ◌∷◌, length,
  ◌==◌, ==_iff, Bool-cases, inl, inr, ◌⊎◌, arith,
}
use bg3le.Affinity.Masks.{Mask, is_set, unrestricted, fill, single_cpu}
use bg3le.Affinity.Pins.{Pin, remember, recall}
use bg3le.Affinity.Calls.{
  Machine, State, same_cpu, pin_of, with_pin, widen, pthread_attr_setaffinity_np,
  pthread_setaffinity_np, pthread_create, pthread_setname_np, game_thread, only, pin_back, Call,
  attr_set, thread_set, create, after, after_all,
}
use bg3le.Affinity.Sets.{fill-sets, unrestricted-only, single_cpu-only}
use bg3le.Affinity.Table.{remember_lem}

-- A mask that the code keeps: it allows every cpu already, the switch is off, or it asks for the core
-- of GameThread alone.
abbrev pub IsKept : Machine → Mask → State → Type 0
IsKept m mask s =
    (unrestricted m.cpu_count mask ≡ true)
    ⊎ ((m.enabled ≡ false) ⊎ (same_cpu (single_cpu m.cpu_count mask) s.game_cpu ≡ true))

-- A set of `size` bytes that allows every cpu of the machine for which it has a bit.
abbrev pub AllowsAll : Machine → ℕ → Mask → Type 0
AllowsAll m size mask = (c : ℕ) → c < m.cpu_count → c < 8 * size → is_set mask c ≡ true

-- The real `pthread_attr_setaffinity_np` is given the mask that was asked for, which is one of those
-- that are kept, or else, with the switch on, a set that allows every cpu of the machine for which
-- the request has a bit.
pub pthread_attr_setaffinity_np_lem :
    (m : Machine) (attr size : ℕ) (mask : Mask) (s : State)
    → (((pthread_attr_setaffinity_np m attr size (some mask) s).0 ≡ some mask) × IsKept m mask s)
      ⊎ ((all : Mask) × ((pthread_attr_setaffinity_np m attr size (some mask) s).0 ≡ some all)
          × AllowsAll m size all
          × (m.enabled ≡ true))
unfolding pthread_attr_setaffinity_np widen
pthread_attr_setaffinity_np_lem m attr size mask s =
    elim (Bool-cases (unrestricted m.cpu_count mask)) [
      | inl p ↦ inl (rw p refl, inl p)
      | inr p ↦ elim (Bool-cases m.enabled) [
        | inr q ↦ inl (rw (p, q) refl, inr (inl q))
        | inl q ↦ elim (Bool-cases (same_cpu (single_cpu m.cpu_count mask) s.game_cpu)) [
          | inl r ↦ inl (rw (p, q, r) refl, inr (inr r))
          | inr r ↦ inr (fill m.cpu_count size, rw (p, q, r) refl, fill-sets m.cpu_count size, q)
        ]
      ]
    ]

-- A request which does not allow every cpu is remembered.
state-attr :
    (m : Machine) (attr size : ℕ) (mask : Mask) (s : State)
    → unrestricted m.cpu_count mask ≡ false
    → 0 < attr
    → (pthread_attr_setaffinity_np m attr size (some mask) s).1
      ≡ record s { attr_pins = remember s.attr_pins (pin_of m attr mask) }
unfolding pthread_attr_setaffinity_np widen with_pin
state-attr m attr size mask s h real =
    let nonzero : (attr == 0) ≡ false = ground arith in rw h (rw nonzero refl)

after-game_cpu : (m : Machine) (c : Call) (s : State) → (after m c s).game_cpu ≡ s.game_cpu
unfolding after pthread_attr_setaffinity_np pthread_setaffinity_np pthread_create widen with_pin
after-game_cpu m (attr_set attr size none) s = refl
after-game_cpu m (attr_set attr size (some mask)) s = ground arith
after-game_cpu m (thread_set size none) s = refl
after-game_cpu m (thread_set size (some mask)) s = ground arith
after-game_cpu m (create attr result thread) s = ground arith

after_all-game_cpu :
    (m : Machine) (calls : List Call) (s : State) → (after_all m calls s).game_cpu ≡ s.game_cpu
unfolding after_all
after_all-game_cpu m [] s = refl
after_all-game_cpu m (c ∷ calls) s = after_all-game_cpu m calls (after m c s) ∙ after-game_cpu m c s

module _ (m : Machine) (bits c : ℕ) (on : m.enabled ≡ true) (several : 2 ≤ m.cpu_count)
    (known : c < m.cpu_count) (within : c < bits) where
  -- Once GameThread's core is known, a request for it alone is kept.
  kept_core :
      (attr size : ℕ) (s : State)
      → s.game_cpu ≡ some c
      → (pthread_attr_setaffinity_np m attr size (some (only bits c)) s).0 ≡ some (only bits c)
  unfolding pthread_attr_setaffinity_np widen
  kept_core attr size s h =
      rw
        (
          unrestricted-only bits c within m.cpu_count several,
          on,
          single_cpu-only m.cpu_count bits c within known,
          h,
          (==_iff c c).1 refl,
        )
        refl

  abbrev pub asked : ℕ → ℕ → State → State
  asked attr size s = (pthread_attr_setaffinity_np m attr size (some (only bits c)) s).1

  asked-eq :
      (attr size : ℕ) (s : State)
      → 0 < attr
      → asked attr size s
        ≡ record s { attr_pins = remember s.attr_pins (pin_of m attr (only bits c)) }
  asked-eq attr size s real =
      state-attr m attr size (only bits c) s (unrestricted-only bits c within m.cpu_count several)
        real

  -- The pin that is remembered for a thread which is made with such a request.
  abbrev pin_for : ℕ → Pin
  pin_for thread = record (pin_of m thread (only bits c)) { key = thread }

  abbrev pub made : ℕ → ℕ → ℕ → State → State
  made attr size thread s = pthread_create attr 0 thread (asked attr size s)

  made-eq :
      (attr size thread : ℕ) (s : State)
      → 0 < attr
      → 0 < length s.attr_pins.slots
      → made attr size thread s ≡ record s {
        attr_pins = remember s.attr_pins (pin_of m attr (only bits c));
        thread_pins = remember s.thread_pins (pin_for thread);
      }
  unfolding pthread_create
  made-eq attr size thread s real room =
      let nonzero : (attr == 0) ≡ false = ground arith in
      rw (asked-eq attr size s real)
        (rw nonzero (rw (remember_lem s.attr_pins (pin_of m attr (only bits c)) room).0 refl))

  named_lem :
      (thread : ℕ) (s : State)
      → recall s.thread_pins.slots thread ≡ some (pin_for thread)
      → pthread_setname_np m thread game_thread s
        ≡ (some (only 1024 c), record s { game_cpu = some c })
  unfolding pthread_setname_np
  named_lem thread s h =
      rw h (rw (pin_back, single_cpu-only m.cpu_count bits c within known) (rw on refl))

  -- On a machine of two cpus or more, with the switch on: when the engine asks for one cpu in a
  -- thread's attributes, makes a thread with them and names it GameThread, then that thread is pinned
  -- to this cpu again, and whatever masks are asked for and threads made after that, the attributes
  -- that ask for that cpu alone are given what they ask for as long as no other thread is named.
  pub game_thread_lem :
      (attr size thread : ℕ) (s : State)
      → 0 < attr
      → 0 < length s.attr_pins.slots
      → 0 < length s.thread_pins.slots
      → ((pthread_setname_np m thread game_thread (made attr size thread s)).0 ≡ some (only 1024 c))
        × ((calls : List Call) (attr' size' : ℕ)
            → (pthread_attr_setaffinity_np m attr' size' (some (only bits c)) (
                after_all m calls
                  (pthread_setname_np m thread game_thread (made attr size thread s)).1)).0
              ≡ some (only bits c))
  game_thread_lem attr size thread s real room room' =
      let s2 = record s {
        attr_pins = remember s.attr_pins (pin_of m attr (only bits c));
        thread_pins = remember s.thread_pins (pin_for thread);
      } in
      let found = (remember_lem s.thread_pins (pin_for thread) room').0 in
      let named =
        ap (pthread_setname_np m thread game_thread) (made-eq attr size thread s real room)
        ∙ named_lem thread s2 found in
      let pinned : State = record s2 { game_cpu = some c } in
      (
        ap (λ (r : Option Mask × State). r.0) named,
        (λ calls attr' size'.
            kept_core attr' size'
              (after_all m calls
                (pthread_setname_np m thread game_thread (made attr size thread s)).1)
              (after_all-game_cpu m calls _
                ∙ ap (λ (r : Option Mask × State). r.1.game_cpu) named)),
      )
