-- ===== src/Cafe/Main/Seconds.antt =====
-- concurrency/1.c: a second of the main thread.
use cow_pbs_cofee_cafe_icecr.Base.{Bool, ℤ, ◌||◌, ℕ, ◌-◌, ◌≡◌, refl, arith, true, some, ◌∙◌, ap}
use cow_pbs_cofee_cafe_icecr.Cafe.Defs.{Cafe}
use cow_pbs_cofee_cafe_icecr.Cafe.Baristas.{is_idle, idle_or_special, free_barista}
use cow_pbs_cofee_cafe_icecr.Cafe.Baristas.Order.{IsMonotone, link_baristas-ends}
use cow_pbs_cofee_cafe_icecr.Cafe.Main.{
  main_second, then_wake, then_sleep, wake_baristas, wake_linked, nth_free, post_times,
}
use cow_pbs_cofee_cafe_icecr.Cafe.Main.Frame.{IsSame, main_second-IsSame}
use cow_pbs_cofee_cafe_icecr.Cafe.Main.Admission.{admit_customers-IsAdmitted}

or_true : (a : Bool) → (a || true) ≡ true
or_true a = ground arith

idle_or_special-IsMonotone : (finish : ℕ → ℤ) (tmr : ℤ) → IsMonotone (idle_or_special finish tmr)
idle_or_special-IsMonotone finish tmr i e = or_true (is_idle finish tmr i)

wake_baristas-ends : (b : ℕ) (c : Cafe) → (d : Cafe) × (wake_baristas b c ≡ some d)
unfolding wake_baristas wake_linked free_barista
wake_baristas-ends b c =
    let (r, e) =
      link_baristas-ends (idle_or_special c.finish_time_order c.tmr)
        (idle_or_special-IsMonotone c.finish_time_order c.tmr) b b 1 c.special_flag
        (nth_free b c 1 c.special_flag).0 (omega arith) refl (λ i q. omega arith) c.wake_up_index in
    (_, ap (λ x. wake_linked (nth_free b c 1 c.special_flag).0 x c) e)

-- The part of a second that the main thread runs before it sleeps always ends, whatever flags,
-- finish times and arrivals it meets: with as many rounds as there are customers and baristas, both
-- linking loops are done. It then sleeps, the orders and what the baristas hold are as before.
pub main_second-ends :
    (b n : ℕ) (c : Cafe)
    → (d : Cafe) × (main_second b n c ≡ some d) × IsSame c d × (d.main_sleeps ≡ true)
unfolding main_second then_wake then_sleep post_times
main_second-ends b n c =
    let c₀ = record c { machine_lock = c.machine_lock - 1 } in
    let (c₁, e₁, _) = admit_customers-IsAdmitted n c₀ in
    let (c₂, e₂) = wake_baristas-ends b c₁ in
    let e = ap (then_wake b n) e₁ ∙ ap (then_sleep b n) e₂ in
    (post_times b n c₂, e, main_second-IsSame b n c _ e, refl)
