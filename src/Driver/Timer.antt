-- ===== src/Driver/Timer.antt =====
-- packages/driver/vexpress-a9/helloworld_with_timer.c: prints for how long the module was loaded.
-- `jiffies_to_msecs` returns an unsigned int; the board is a 32-bit one, where `unsigned long` has
-- 32 bits too, so that the subtraction wraps at 2 ^ 32.
use myfreelib.Base.{◌≡◌, ℕ, ℤ, pos, int, [], ◌∷◌, ◌+◌, ◌-◌, ◌*◌, ◌/◌, ◌%◌, ◌^◌, ◌≤◌, ◌<◌, arith}
use myfreelib.Base.Sys.{pure, call, ◌>>=◌, ◌>>◌}
use myfreelib.Driver.Kernel.{Call, Reply, History, Kernel, pr_info, jiffies_to_msecs}

-- Returns 0 and the variable `start_time`.
unfoldable first_init : Kernel (ℤ × ℕ)
first_init = do
  j ← call jiffies_to_msecs
  let start_time = j.out / 1000
  call (pr_info "Load first start_time6=%lu.\n" (int (pos start_time) ∷ []))
  pure (pos 0, start_time)

abbrev seconds_between : (start_time end_time : ℕ) → ℕ
seconds_between start_time end_time = (end_time + 2 ^ 32 - start_time) % 2 ^ 32

-- Returns the number of seconds that it prints.
first_exit : (start_time : ℕ) → Kernel ℕ
first_exit start_time = do
  j ← call jiffies_to_msecs
  let end_time = j.out / 1000
  let elapsed = seconds_between start_time end_time
  call (
      pr_info "unload module after %lu seconds, end_time=%lu\n"
        (int (pos elapsed) ∷ int (pos end_time) ∷ []))
  pure elapsed

-- If the clock shows `a` milliseconds when the module is loaded and `b` when it is unloaded, and it
-- has not wrapped in between, the seconds printed are within one second of the time elapsed.
timer_within_a_second :
    (os : History → Call → Reply) (t : History) (a b : ℕ)
    → a ≡ (os t jiffies_to_msecs).out
    → b ≡ (os (first_init os t).1 jiffies_to_msecs).out
    → a ≤ b
    → b < 2 ^ 32
    → let ((r, s), u) = first_init os t in
      let (e, v) = first_exit s os u in (e * 1000 < b - a + 1000) × (b - a < e * 1000 + 1000)
unfolding first_init first_exit
timer_within_a_second os t a b p q h k = ground arith
