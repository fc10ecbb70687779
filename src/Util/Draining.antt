-- ===== src/Util/Draining.antt =====
-- The loop of pyuv__drain_poll_fd (src/util.c), which calls recv() again while a signal interrupts.
use pyuv.Base.{
  ℕ, zero, suc, ◌+◌, ◌≤◌, ◌<◌, ◌≡◌, ◌≢◌, ◌↔◌, ◌⊎◌, inl, inr, refl, arith, Bool, true, false, none,
  some,
}
use pyuv.Util.Checker.{
  Received, got, interrupted, again, failed, drained, is_interrupted, drain_poll_fd,
}

-- From call `i` on, `n` calls before call `k`, the first that is not interrupted.
drain_from :
    (n fuel i k : ℕ) (recv : ℕ → Received)
    → i + n ≡ k
    → ((j : ℕ) → i ≤ j → j < k → is_interrupted (recv j) ≡ true)
    → is_interrupted (recv k) ≡ false
    → n < fuel
    → drain_poll_fd fuel recv i ≡ some (drained (recv k), suc k)
unfolding drain_poll_fd
drain_from n zero i k recv e before last enough = absurd (omega arith)
drain_from zero (suc fuel) i k recv e before last enough =
    let e' : i ≡ k = omega arith in ground (arith, last, e')
drain_from (suc n) (suc fuel) i k recv e before last enough =
    rw (before i (omega arith) (omega arith), drain_poll_fd)
      (drain_from n fuel (suc i) k recv (omega arith) (λ j g h. before j (omega arith) h) last
        (omega arith))

drain_short :
    (fuel i k : ℕ) (recv : ℕ → Received)
    → i + fuel ≤ k
    → ((j : ℕ) → i ≤ j → j < k → is_interrupted (recv j) ≡ true)
    → drain_poll_fd fuel recv i ≡ none
unfolding drain_poll_fd
drain_short zero i k recv e before = refl
drain_short (suc fuel) i k recv e before =
    rw (before i (omega arith) (omega arith), drain_poll_fd)
      (drain_short fuel (suc i) k recv (omega arith) (λ j g h. before j (omega arith) h))

drained_lem :
    (r : Received)
    → r ≢ interrupted
    → (is_interrupted r ≡ false) × ((drained r ≡ true) ↔ (((n : ℕ) × (r ≡ got n)) ⊎ (r ≡ again)))
drained_lem (got n) h = (refl, (λ e. inl (n, refl), λ e. refl))
drained_lem interrupted h = absurd (h refl)
drained_lem again h = (refl, (λ e. inr refl, λ e. refl))
drained_lem failed h = (refl, (λ e. absurd (cc), failed_not))
  where
    failed_not : (((n : ℕ) × (failed ≡ got n)) ⊎ (failed ≡ again)) → drained failed ≡ true
    failed_not (inl (n, p)) = absurd (cc p)
    failed_not (inr p) = absurd (cc p)

-- For a recv() whose call `k`, counted from 0, is the first that is not interrupted by a signal: with
-- more than `k` rounds pyuv__drain_poll_fd returns, after calls 0 to `k` and no other, and it
-- returns 0 exactly where that last call gave a number of bytes or failed because there was nothing
-- to read; with `k` rounds or fewer it has not returned.
pub drain_poll_fd_ends :
    (recv : ℕ → Received) (k fuel : ℕ)
    → ((j : ℕ) → j < k → recv j ≡ interrupted)
    → recv k ≢ interrupted
    → (k < fuel
        → (b : Bool) × (drain_poll_fd fuel recv 0 ≡ some (b, suc k))
          × ((b ≡ true) ↔ (((n : ℕ) × (recv k ≡ got n)) ⊎ (recv k ≡ again))))
      × (fuel ≤ k → drain_poll_fd fuel recv 0 ≡ none)
drain_poll_fd_ends recv k fuel before last =
    let d = drained_lem (recv k) last in
    (
      λ enough. (
        drained (recv k),
        drain_from k fuel 0 k recv (omega arith) (λ j g h. rw (before j h) refl) d.0 enough,
        d.1,
      ),
      λ short. drain_short fuel 0 k recv (omega arith) (λ j g h. rw (before j h) refl),
    )
