-- ===== src/Selector/Interests.antt =====
-- `selector_set_interest` called by a callback of a good selector.
use http_proxy.Base.{
  ℕ, ◌<◌, ◌≡◌, ◌∙◌, refl, sym, ap, Bool, true, false, Option, some, ◌>>=◌, leb, pos, length, subst,
  Bool-cases, inl, inr, arith,
}
use http_proxy.Selector.{Item, Interest, Selector, Status, item_at, items_max_size}
use http_proxy.Selector.Items.{used, Handlers}
use http_proxy.Selector.Register.{put_item, succeed, selector_set_interest}
use http_proxy.Selector.Invariant.{
  look, unused_item, item_at-look, look-put, filled, filled-IsValid,
}
use http_proxy.Selector.Emptying.{update_fdset_lem}
use http_proxy.Selector.Registry.{used-at}
use http_proxy.Selector.Safety.{Armed, Good, GoesOn}

-- A callback does not look at the status.
abbrev pub ignoring_status : Option (Status × Selector) → Option Selector
ignoring_status o = o >>= λ r. some r.1

module _ (handlers : Handlers) (waiting : ℕ → Bool) (also : Selector → Type 0) (n : ℕ)
    (interest : Interest) (s : Selector) (g : Good handlers waiting also s)
    (h : n < s.fd_size) where
  inside : n < length s.fds
  inside = omega (arith, g.valid.sized)

  -- With the new interest, when the descriptor is registered.
  filled-Good :
      used (look s n) ≡ true
      → Armed (handlers (look s n).handler) (record (look s n) { interest = interest })
      → also (filled n (record (look s n) { interest = interest }) s.max_fd s)
      → Good handlers waiting also (filled n (record (look s n) { interest = interest }) s.max_fd s)
  filled-Good in_use armed more =
      let x : Item = record (look s n) { interest = interest } in
      let e : (look s n).fd ≡ some n = used-at g.valid n in_use in
      record {
        valid =
            filled-IsValid n x s.max_fd g.valid h e (omega arith) (g.valid.below n n e) (inl refl);
        armed = λ i u. elim (look-put s n x i inside) [
          | inl (same, l) ↦ subst (λ y. Armed (handlers y.handler) y) (sym l) armed
          | inr (other, l) ↦
              subst (λ y. Armed (handlers y.handler) y) (sym l) (g.armed i (sym (ap used l) ∙ u))
        ];
        blocks = λ i w u. elim (look-put s n x i inside) [
          | inl (same, l) ↦
              let there = g.blocks n (sym (ap waiting same) ∙ w) in_use in
              λ q. there (sym (ap (λ y. (handlers y.handler).handle_block) l) ∙ q)
          | inr (other, l) ↦
              let there = g.blocks i w (sym (ap used l) ∙ u) in
              λ q. there (sym (ap (λ y. (handlers y.handler).handle_block) l) ∙ q)
        ];
        idle = λ i u. elim (look-put s n x i inside) [
          | inl (same, l) ↦ let both : used x ≡ false = sym (ap used l) ∙ u in absurd (cc)
          | inr (other, l) ↦ ap (λ y. y.interest.op_write) l ∙ g.idle i (sym (ap used l) ∙ u)
        ];
        jobs = g.jobs;
        more = more;
      }

  -- A callback may set an interest of a descriptor in the table for which it has the callbacks; when the
  -- descriptor is not registered, nothing changes.
  pub set_interest-GoesOn :
      n < items_max_size
      → Armed (handlers (look s n).handler) (record (look s n) { interest = interest })
      → also (filled n (record (look s n) { interest = interest }) s.max_fd s)
      → GoesOn handlers waiting also s (ignoring_status (selector_set_interest (pos n) interest s))
  unfolding selector_set_interest
  set_interest-GoesOn small armed more =
      let valid : leb items_max_size n ≡ false = ground arith in
      let there : item_at s.fds n ≡ some (look s n) = item_at-look s.fds n unused_item inside in
      let x : Item = record (look s n) { interest = interest } in
      elim (Bool-cases (used (look s n))) [
        | inr free ↦ (s, rw (valid, there, free) refl, g, omega arith)
        | inl in_use ↦
            let e : (look s n).fd ≡ some n = used-at g.valid n in_use in
            (
              filled n x s.max_fd s,
              rw (valid, there, in_use)
                  (ap (λ o. ignoring_status (succeed o)) (update_fdset_lem x n (put_item n x s) e)),
              filled-Good in_use armed more,
              omega arith,
            )
      ]
