-- ===== src/Selector/Invariant.antt =====
-- The invariant of a selector, and the two changes that keep it: an item that is filled or changed,
-- and one that is emptied.
use http_proxy.Base.{
  ℕ, zero, suc, ◌≤◌, ◌<◌, ◌≡◌, ◌⊎◌, ◌∙◌, refl, sym, ap, Bool, true, false, ◌&&◌, none, some, List,
  [], ◌∷◌, ◌++◌, ◌==◌, length, length-set, get_or, get_or-set_self, get_or-set_ne, set, Bool-cases,
  inl, inr, arith,
}
use http_proxy.Selector.{Item, Selector, FdSet, item_at, item_init, zero_item, fd_clr, new_items}
use http_proxy.Selector.Items.{used, set_when, with_fdsets}
use http_proxy.Selector.Register.{put_item}

abbrev pub unused_item : Item
unused_item = item_init zero_item

-- The item of a descriptor, an unused one behind the end.
abbrev pub look : Selector → ℕ → Item
look s i = get_or s.fds i unused_item

abbrev pub wants_read : Item → Bool
wants_read x = used x && x.interest.op_read

abbrev pub wants_write : Item → Bool
wants_write x = used x && x.interest.op_write

-- The table has its length, at most 1025; an item in use stands at the index of its descriptor, none
-- behind `max_fd`, which is 0 or in use; and the two sets have the descriptors in use with that bit in
-- their interest, and no other.
pub record IsValid (s : Selector) : Type 0 where
  pub sized : length s.fds ≡ s.fd_size
  pub some_items : 0 < s.fd_size
  pub bound : s.fd_size ≤ 1025
  pub indexed : (i f : ℕ) → (look s i).fd ≡ some f → f ≡ i
  pub below : (i f : ℕ) → (look s i).fd ≡ some f → i ≤ s.max_fd
  pub top : (s.max_fd ≡ 0) ⊎ ((look s s.max_fd).fd ≡ some s.max_fd)
  pub read_set : (k : ℕ) → s.master_r k ≡ wants_read (look s k)
  pub write_set : (k : ℕ) → s.master_w k ≡ wants_write (look s k)

pub item_at-look :
    (xs : List Item) (i : ℕ) (d : Item) → i < length xs → item_at xs i ≡ some (get_or xs i d)
item_at-look [] i d h = absurd (omega arith)
item_at-look (x ∷ xs) zero d h = refl
item_at-look (x ∷ xs) (suc i) d h = item_at-look xs i d (omega arith)

pub get_or-outside : (xs : List Item) (i : ℕ) (d : Item) → length xs ≤ i → get_or xs i d ≡ d
get_or-outside [] i d h = refl
get_or-outside (x ∷ xs) zero d h = absurd (omega arith)
get_or-outside (x ∷ xs) (suc i) d h = get_or-outside xs i d (omega arith)

-- A larger table has the same items in use.
pub resized-look :
    (xs : List Item) (n : ℕ) (junk : Item) (k : ℕ)
    → let after = get_or (xs ++ new_items n junk) k unused_item in
      let before = get_or xs k unused_item in
      (after ≡ before) ⊎ ((after.fd ≡ none) × (before.fd ≡ none))
resized-look [] zero junk k = inl refl
resized-look [] (suc n) junk zero = inr (refl, refl)
resized-look [] (suc n) junk (suc k) = resized-look [] n junk k
resized-look (x ∷ xs) n junk zero = inl refl
resized-look (x ∷ xs) n junk (suc k) = resized-look xs n junk k

-- What an item that is written leaves at each index.
pub look-put :
    (s : Selector) (i : ℕ) (x : Item) (k : ℕ)
    → i < length s.fds
    → ((k ≡ i) × (look (put_item i x s) k ≡ x))
      ⊎ ((k == i ≡ false) × (look (put_item i x s) k ≡ look s k))
look-put s i x k h = elim (Bool-cases (k == i)) [
  | inl same ↦
      let e : k ≡ i = ground arith in
      inl (
        e,
        ap (λ j. get_or (set s.fds i x) j unused_item) e ∙ get_or-set_self s.fds i x unused_item h,
      )
  | inr other ↦ inr (other, get_or-set_ne s.fds i k x unused_item (λ e. ground arith))
]

-- An item in use at its index, with the sets and `max_fd` brought up to date.
abbrev pub filled : ℕ → Item → ℕ → Selector → Selector
filled i x m s = with_fdsets i x.interest (record (put_item i x s) { max_fd = m })

pub set_when_self : (b : Bool) (i k : ℕ) (fds : FdSet) → k ≡ i → set_when b i (fd_clr i fds) k ≡ b
set_when_self true i k fds h = let e : k == i ≡ true = ground arith in rw e refl
set_when_self false i k fds h = let e : k == i ≡ true = ground arith in rw e refl

pub set_when_other :
    (b : Bool) (i k : ℕ) (fds : FdSet) → k == i ≡ false → set_when b i (fd_clr i fds) k ≡ fds k
set_when_other true i k fds e = rw e refl
set_when_other false i k fds e = rw e refl

pub filled-IsValid :
    (i : ℕ) (x : Item) (m : ℕ) {s : Selector}
    → IsValid s
    → i < s.fd_size
    → x.fd ≡ some i
    → s.max_fd ≤ m
    → i ≤ m
    → (m ≡ s.max_fd) ⊎ (m ≡ i)
    → IsValid (filled i x m s)
filled-IsValid i x m {s} v h e lo at_least exact =
    let inside : i < length s.fds = omega (arith, v.sized) in
    let in_use : used x ≡ true = rw e refl in
    record {
      sized = length-set s.fds i x ∙ v.sized;
      some_items = v.some_items;
      bound = v.bound;
      indexed = λ k f q. elim (look-put s i x k inside) [
        | inl (same, l) ↦ cc
        | inr (other, l) ↦ v.indexed k f (sym (ap (λ y. y.fd) l) ∙ q)
      ];
      below = λ k f q. elim (look-put s i x k inside) [
        | inl (same, l) ↦ omega arith
        | inr (other, l) ↦ omega (arith, v.below k f (sym (ap (λ y. y.fd) l) ∙ q))
      ];
      top = elim (look-put s i x m inside) [
        | inl (same, l) ↦ inr (ap (λ y. y.fd) l ∙ e ∙ ap some (sym same))
        | inr (other, l) ↦ elim exact [
          | inr is ↦ absurd (ground arith)
          | inl kept ↦ elim v.top [
            | inl none_used ↦ inl (kept ∙ none_used)
            | inr t ↦ inr (ap (λ y. y.fd) l ∙ ap (λ j. (look s j).fd) kept ∙ t ∙ ap some (sym kept))
          ]
        ]
      ];
      read_set = λ k. elim (look-put s i x k inside) [
        | inl (same, l) ↦
            set_when_self x.interest.op_read i k s.master_r same
            ∙ ap (λ u. u && x.interest.op_read) (sym in_use)
            ∙ ap wants_read (sym l)
        | inr (other, l) ↦
            set_when_other x.interest.op_read i k s.master_r other
            ∙ v.read_set k
            ∙ ap wants_read (sym l)
      ];
      write_set = λ k. elim (look-put s i x k inside) [
        | inl (same, l) ↦
            set_when_self x.interest.op_write i k s.master_w same
            ∙ ap (λ u. u && x.interest.op_write) (sym in_use)
            ∙ ap wants_write (sym l)
        | inr (other, l) ↦
            set_when_other x.interest.op_write i k s.master_w other
            ∙ v.write_set k
            ∙ ap wants_write (sym l)
      ];
    }
