-- ===== src/Vm/Process/Exit.antt =====
-- The wait for an exit ends in time, and has seen the exit where it says so.
use spind.Prelude.{
  Bool-cases, ap, arith, err, false, inl, inr, le_of_ltb-false, ltb, ltb→lt, none, ok, refl, some,
  suc, true, zero, ℕ, ◌+◌, ◌<◌, ◌≡◌, ◌≢◌, ◌≤◌, ◌⊎◌,
}
use spind.Vm.Status.{no_process, process_alive}
use spind.Vm.Process.{
  Kernel, WaitResult, reaped, unchanged, no_child, wait_failed, reap_failed, out_of_fuel,
  did_not_stop, reap_result, reap_process, wait_turn, wait_until, wait_for_exit,
}

-- A sleep lasts as long as it is asked to, and no call turns the clock back.
pub record Ticks {W : Type 0} (kernel : Kernel W) : Type 0 where
  pub sleep_lasts : (t : ℕ) (w : W) → kernel.now w + t ≤ kernel.now (kernel.sleep t w)
  pub wait4_later : (pid : ℕ) (w : W) → kernel.now w ≤ kernel.now (kernel.wait4 pid w).1

-- A process that has been reaped is no longer there.
pub record Reaps {W : Type 0} (kernel : Kernel W) : Type 0 where
  pub reaped_gone :
      (pid : ℕ) (w : W)
      → (kernel.wait4 pid w).0 ≡ reaped
      → kernel.probe (kernel.wait4 pid w).1 pid ≡ no_process

module _ {W : Type 0} (kernel : Kernel W) where
  -- the state after the call of `wait4` in a turn
  abbrev pub waited : ℕ → W → W
  waited pid w = (kernel.wait4 pid w).1

  reap_cases :
      (r : WaitResult)
      → (reap_result r ≡ err reap_failed)
        ⊎ (r ≡ reaped) × (reap_result r ≡ ok true)
        ⊎ (reap_result r ≡ ok false)
  unfolding reap_result
  reap_cases unchanged = inr (inr refl)
  reap_cases reaped = inr (inl (refl, refl))
  reap_cases no_child = inr (inr refl)
  reap_cases wait_failed = inl refl

  wait_turn_cases :
      (pid : ℕ) (w : W)
      → (wait_turn kernel pid w ≡ (some (err reap_failed), waited pid w))
        ⊎ (((kernel.wait4 pid w).0 ≡ reaped)
            ⊎ (process_alive (kernel.probe (waited pid w)) pid ≡ false))
          × (wait_turn kernel pid w ≡ (some (ok tt), waited pid w))
        ⊎ (wait_turn kernel pid w ≡ (none, kernel.sleep 100 (waited pid w)))
  unfolding wait_turn reap_process
  wait_turn_cases pid w = elim (reap_cases (kernel.wait4 pid w).0) [
    | inl e ↦ inl (rw (wait_turn, e) refl)
    | inr (inl (r, e)) ↦ inr (inl (inl r, rw (wait_turn, e) refl))
    | inr (inr e) ↦ elim (Bool-cases (process_alive (kernel.probe (waited pid w)) pid)) [
      | inl alive ↦ inr (inr (rw (wait_turn, e, alive) refl))
      | inr gone ↦ inr (inl (inr gone, rw (wait_turn, e, gone) refl))
    ]
  ]

  -- what a process that has exited shows: it was reaped, or is not there
  abbrev pub Seen : ℕ → W → Type 0
  Seen pid w =
      ((kernel.wait4 pid w).0 ≡ reaped) ⊎ (process_alive (kernel.probe (waited pid w)) pid ≡ false)

  pub wait_until_cases :
      (fuel pid deadline : ℕ) (w : W)
      → (deadline ≤ kernel.now w)
          × (wait_until kernel (suc fuel) pid deadline w ≡ (err did_not_stop, w))
        ⊎ (wait_until kernel (suc fuel) pid deadline w ≡ (err reap_failed, waited pid w))
        ⊎ Seen pid w × (wait_until kernel (suc fuel) pid deadline w ≡ (ok tt, waited pid w))
        ⊎ (kernel.now w < deadline)
          × (wait_until kernel (suc fuel) pid deadline w
              ≡ wait_until kernel fuel pid deadline (kernel.sleep 100 (waited pid w)))
  unfolding wait_until
  wait_until_cases fuel pid deadline w = elim (Bool-cases (ltb (kernel.now w) deadline)) [
    | inl early ↦ elim (wait_turn_cases pid w) [
      | inl e ↦ inr (inl (rw (early, ap (λ t. t.0) e, ap (λ t. t.1) e) refl))
      | inr (inl (seen, e)) ↦
          inr (inr (inl (seen, rw (early, ap (λ t. t.0) e, ap (λ t. t.1) e) refl)))
      | inr (inr e) ↦ inr (
          inr (
            inr (
              ltb→lt (kernel.now w) deadline early,
              rw (early, ap (λ t. t.0) e, ap (λ t. t.1) e) refl,
            )))
    ]
    | inr late ↦ inl (le_of_ltb-false (kernel.now w) deadline late, rw late refl)
  ]

  module _ (ticks : Ticks kernel) where
    next_turn_later :
        (pid : ℕ) (w : W) → suc (kernel.now w) ≤ kernel.now (kernel.sleep 100 (waited pid w))
    next_turn_later pid w =
        omega (arith, ticks.sleep_lasts 100 (waited pid w), ticks.wait4_later pid w)

    wait_until_fuel :
        (fuel pid deadline : ℕ) (w : W)
        → deadline ≤ fuel + kernel.now w
        → (wait_until kernel (suc fuel) pid deadline w).0 ≢ err out_of_fuel
    wait_until_fuel zero pid deadline w h = elim (wait_until_cases zero pid deadline w) [
      | inl (_, e) ↦ rw e (λ k. cc)
      | inr (inl e) ↦ rw e (λ k. cc)
      | inr (inr (inl (_, e))) ↦ rw e (λ k. cc)
      | inr (inr (inr (early, _))) ↦ absurd (omega arith)
    ]
    wait_until_fuel (suc fuel) pid deadline w h =
        elim (wait_until_cases (suc fuel) pid deadline w) [
          | inl (_, e) ↦ rw e (λ k. cc)
          | inr (inl e) ↦ rw e (λ k. cc)
          | inr (inr (inl (_, e))) ↦ rw e (λ k. cc)
          | inr (inr (inr (early, e))) ↦
              rw e (wait_until_fuel fuel pid deadline _ (omega (arith, next_turn_later pid w)))
        ]

    -- Where sleeps last and the clock is not turned back, the wait for an exit ends, whatever the
    -- process does: the number of its turns is bounded by the timeout.
    pub wait_for_exit_returns :
        (pid timeout : ℕ) (w : W) → (wait_for_exit kernel pid timeout w).0 ≢ err out_of_fuel
    unfolding wait_for_exit
    wait_for_exit_returns pid timeout w =
        wait_until_fuel timeout pid (kernel.now w + timeout) w (omega arith)

  Seen-gone :
      (pid : ℕ) (w : W)
      → Reaps kernel
      → Seen pid w
      → process_alive (kernel.probe (waited pid w)) pid ≡ false
  unfolding process_alive
  Seen-gone pid w reaps (inl r) = rw (reaps.reaped_gone pid w r) (ground arith)
  Seen-gone pid w reaps (inr gone) = gone

  wait_until_lem :
      (fuel pid deadline : ℕ) (w : W)
      → Reaps kernel
      → let (result, w') = wait_until kernel fuel pid deadline w in
        ((result ≢ ok tt) ⊎ (process_alive (kernel.probe w') pid ≡ false))
        × ((result ≢ err did_not_stop) ⊎ (deadline ≤ kernel.now w'))
  unfolding wait_until
  wait_until_lem zero pid deadline w reaps = (inl (λ k. cc), inl (λ k. cc))
  wait_until_lem (suc fuel) pid deadline w reaps = elim (wait_until_cases fuel pid deadline w) [
    | inl (late, e) ↦ rw e (inl (λ k. cc), inr late)
    | inr (inl e) ↦ rw e (inl (λ k. cc), inl (λ k. cc))
    | inr (inr (inl (seen, e))) ↦ rw e (inr (Seen-gone pid w reaps seen), inl (λ k. cc))
    | inr (inr (inr (_, e))) ↦ rw e (wait_until_lem fuel pid deadline _ reaps)
  ]

  -- Where a reaped process is no longer there, the process is gone when the wait returns without an
  -- error, and a wait that gives the process up has lasted for the whole timeout.
  pub wait_for_exit_lem :
      (pid timeout : ℕ) (w : W)
      → Reaps kernel
      → let (result, w') = wait_for_exit kernel pid timeout w in
        ((result ≢ ok tt) ⊎ (process_alive (kernel.probe w') pid ≡ false))
        × ((result ≢ err did_not_stop) ⊎ (kernel.now w + timeout ≤ kernel.now w'))
  unfolding wait_for_exit
  wait_for_exit_lem pid timeout w reaps =
      wait_until_lem (suc timeout) pid (kernel.now w + timeout) w reaps
