-- ===== src/Selector/Creating.antt =====
-- The selector that `selector_new` gives.
use http_proxy.Base.{
  ℕ, zero, suc, ◌-◌, ◌≤◌, ◌<◌, ◌≡◌, ◌⊎◌, ◌∙◌, refl, sym, ap, true, false, none, some, get_or, subst,
  inl, inr, arith,
}
use http_proxy.Selector.{
  Item, Selector, Memory, items_max_size, new_items, resized, blank, created, selector_new,
}
use http_proxy.Selector.Capacity.{ensure_capacity-Ensured}
use http_proxy.Selector.Invariant.{IsValid, look, unused_item}
use http_proxy.Selector.Registry.{length-new_items, no_read, no_write}

pub fresh_look : (n : ℕ) (junk : Item) (k : ℕ) → (get_or (new_items n junk) k unused_item).fd ≡ none
fresh_look zero junk k = refl
fresh_look (suc n) junk zero = refl
fresh_look (suc n) junk (suc k) = fresh_look n junk k

module _ (n : ℕ) (junk : Item) (lo : 0 < n) (hi : n ≤ 1025) where
  pub fresh-IsValid : IsValid (resized n junk blank)
  fresh-IsValid = record {
    sized = length-new_items (n - 0) junk ∙ omega arith;
    some_items = lo;
    bound = hi;
    indexed = λ k f q. absurd (let free = fresh_look (n - 0) junk k in cc);
    below = λ k f q. absurd (let free = fresh_look (n - 0) junk k in cc);
    top = inl refl;
    read_set = λ k.
        sym (no_read (get_or (new_items (n - 0) junk) k unused_item) (fresh_look (n - 0) junk k));
    write_set = λ k.
        sym (no_write (get_or (new_items (n - 0) junk) k unused_item) (fresh_look (n - 0) junk k));
  }

-- For at most 1024 descriptors, `selector_new` gives NULL when there is no memory for the table, and
-- otherwise a valid selector with room for more than that many, in which none is registered.
pub selector_new-IsValid :
    (m : Memory) (n : ℕ)
    → n ≤ items_max_size
    → ((m.enough ≡ false) × (selector_new m n ≡ some none))
      ⊎ ((s : Selector) × (m.enough ≡ true)
          × (selector_new m n ≡ some (some s))
          × IsValid s
          × (n < s.fd_size)
          × ((k : ℕ) → (look s k).fd ≡ none))
unfolding selector_new
selector_new-IsValid m n h =
    let (status, t, e, ensured) = ensure_capacity-Ensured m n blank in
    elim ensured [
      | inl w ↦ absurd (omega (arith, w.0))
      | inr (le, inl w) ↦ absurd (omega (arith, w.0))
      | inr (le, inr (inl (few, short, is, same))) ↦
          inl (short, ap created e ∙ ap (λ u. created (some (u, t))) is)
      | inr (le, inr (inr (few, enough, is, larger))) ↦
          let valid =
            fresh-IsValid t.fd_size larger.junk (omega (arith, larger.room)) larger.bound in
          inr (
            t,
            enough,
            ap created e ∙ ap (λ u. created (some (u, t))) is,
            subst IsValid (sym larger.is) valid,
            larger.room,
            λ k. ap (λ u. (look u k).fd) larger.is ∙ fresh_look (t.fd_size - 0) larger.junk k,
          )
    ]
