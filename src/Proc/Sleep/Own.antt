-- ===== src/Proc/Sleep/Own.antt =====
-- The operations of kernel/proc.c that write one entry: `yield`, `sleep` and `setkilled`.
use cow_pbs_cofee_cafe_icecr.Base.{ℕ, ◌≡◌, ◌≢◌, refl, pos, update_self, update_other, update-keeps}
use cow_pbs_cofee_cafe_icecr.Proc.Defs.{ProcState, Chan, null, sleeping, runnable, Table}
use cow_pbs_cofee_cafe_icecr.Proc.Sleep.{sleep, sleep_return, yield, setkilled}

pub yield-other : (me : ℕ) (t : Table) (j : ℕ) → me ≢ j → yield me t j ≡ t j
unfolding yield
yield-other me t j n = update_other t me _ j n

pub yield-me : (me : ℕ) (t : Table) → (yield me t me).state ≡ runnable
unfolding yield
yield-me me t = rw (update_self t me (record (t me) { state = runnable }))

pub yield-SameButState :
    (me : ℕ) (t : Table) (s : ProcState) (j : ℕ)
    → record (yield me t j) { state = s } ≡ record (t j) { state = s }
unfolding yield
yield-SameButState me t s =
    update-keeps (λ j p. record p { state = s } ≡ record (t j) { state = s }) t me _ (λ j. refl)
      refl

pub yield-at : (me : ℕ) (t : Table) → yield me t me ≡ record (t me) { state = runnable }
unfolding yield
yield-at me t = update_self t me _

pub sleep-at :
    (me : ℕ) (chan : Chan) (t : Table)
    → sleep me chan t me ≡ record (t me) { chan = chan; state = sleeping }
unfolding sleep
sleep-at me chan t = update_self t me _

pub sleep-other : (me : ℕ) (chan : Chan) (t : Table) (j : ℕ) → me ≢ j → sleep me chan t j ≡ t j
unfolding sleep
sleep-other me chan t j n = update_other t me _ j n

pub sleep_return-at : (me : ℕ) (t : Table) → sleep_return me t me ≡ record (t me) { chan = null }
unfolding sleep_return
sleep_return-at me t = update_self t me _

pub sleep_return-other : (me : ℕ) (t : Table) (j : ℕ) → me ≢ j → sleep_return me t j ≡ t j
unfolding sleep_return
sleep_return-other me t j n = update_other t me _ j n

pub setkilled-at : (i : ℕ) (t : Table) → setkilled i t i ≡ record (t i) { killed = pos 1 }
unfolding setkilled
setkilled-at i t = update_self t i _

pub setkilled-other : (i : ℕ) (t : Table) (j : ℕ) → i ≢ j → setkilled i t j ≡ t j
unfolding setkilled
setkilled-other i t j n = update_other t i _ j n
