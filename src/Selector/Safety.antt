-- ===== src/Selector/Safety.antt =====
-- `selector_select` with handlers that keep what it relies on.
use http_proxy.Base.{
  ℕ, zero, suc, ◌+◌, ◌≤◌, ◌<◌, ◌≡◌, ◌≢◌, ◌∙◌, refl, sym, ap, Bool, true, false, ◌&&◌, Option, none,
  some, ◌>>=◌, List, [], ◌∷◌, if◌then◌else◌, subst, Bool-cases, inl, inr, arith,
}
use http_proxy.Selector.{Item, Selector, FdSet, Status, success, io, item_at}
use http_proxy.Selector.Items.{used, Key, key_of, Callback, Handler, Handlers}
use http_proxy.Selector.Dispatch.{
  is_set, must_call, read_part, write_part, handle_item, iteration_loop, jobs_loop,
  handle_block_notifications, Selected, ready, interrupted, bad_descriptor, other_error, copy_sets,
  answer_success, selector_select,
}
use http_proxy.Selector.Invariant.{IsValid, look, unused_item, item_at-look}
use http_proxy.Selector.Emptying.{max_fd_inside}

-- An item in use has the callbacks that its interest calls for.
pub record Armed (h : Handler) (x : Item) : Type 0 where
  pub reads : x.interest.op_read ≡ true → h.handle_read ≢ none
  pub writes : x.interest.op_write ≡ true → h.handle_write ≢ none

-- Descriptors in the table, for which blocking jobs are done.
abbrev pub AllWaiting : (ℕ → Bool) → ℕ → List ℕ → Type 0
AllWaiting waiting n [] = Unit
AllWaiting waiting n (fd ∷ fds) = (fd < n) × (waiting fd ≡ true) × AllWaiting waiting n fds

-- `waiting` are the descriptors for which blocking jobs are done: only these need `handle_block`. `also`
-- is what the callbacks of a program rely on besides.
pub record Good (handlers : Handlers) (waiting : ℕ → Bool) (also : Selector → Type 0) (s : Selector)
    : Type 0 where
  pub valid : IsValid s
  pub armed : (i : ℕ) → used (look s i) ≡ true → Armed (handlers (look s i).handler) (look s i)
  pub blocks :
      (i : ℕ)
      → waiting i ≡ true
      → used (look s i) ≡ true
      → (handlers (look s i).handler).handle_block ≢ none
  pub idle : (i : ℕ) → used (look s i) ≡ false → (look s i).interest.op_write ≡ false
  pub jobs : AllWaiting waiting s.fd_size s.resolution_jobs
  pub more : also s

-- The selector goes on from `s`, good and with a table that is not smaller.
abbrev pub GoesOn :
    Handlers → (ℕ → Bool) → (Selector → Type 0) → Selector → Option Selector → Type 0
GoesOn handlers waiting also s o =
    (t : Selector) × (o ≡ some t) × Good handlers waiting also t × (s.fd_size ≤ t.fd_size)

-- A callback, if there is one, keeps a good selector good and its table as large as it was.
abbrev pub Keeps : Handlers → (ℕ → Bool) → (Selector → Type 0) → Option Callback → Type 0
Keeps handlers waiting also none = Unit
Keeps handlers waiting also (some call) =
    (key : Key) (s : Selector)
    → Good handlers waiting also s
    → GoesOn handlers waiting also s (call key s)

pub record AllKeep (handlers : Handlers) (waiting : ℕ → Bool) (also : Selector → Type 0)
    : Type 0 where
  pub read : (h : ℕ) → Keeps handlers waiting also (handlers h).handle_read
  pub write : (h : ℕ) → Keeps handlers waiting also (handlers h).handle_write
  pub block : (h : ℕ) → Keeps handlers waiting also (handlers h).handle_block

-- The sets that `pselect` gives, and the jobs, are not what the callbacks rely on.
abbrev pub Stable : (Selector → Type 0) → Type 0
Stable also =
    (s : Selector) (r w : FdSet) (jobs : List ℕ)
    → also s
    → also (record s { slave_r = r; slave_w = w; resolution_jobs = jobs })

waiting_more :
    (waiting : ℕ → Bool) (n m : ℕ) (fds : List ℕ)
    → n ≤ m
    → AllWaiting waiting n fds
    → AllWaiting waiting m fds
waiting_more waiting n m [] h b = tt
waiting_more waiting n m (fd ∷ fds) h b =
    (omega (arith, b.0), b.1, waiting_more waiting n m fds h b.2)

and-right : (a b : Bool) → a && b ≡ true → b ≡ true
and-right true b e = e
and-right false b e = absurd (cc)

module _ (handlers : Handlers) (waiting : ℕ → Bool) (also : Selector → Type 0)
    (keep : AllKeep handlers waiting also) where
  same_selector :
      (s : Selector) → Good handlers waiting also s → GoesOn handlers waiting also s (some s)
  same_selector s g = (s, refl, g, omega arith)

  then_on :
      (s : Selector) (o : Option Selector) (f : Selector → Option Selector)
      → GoesOn handlers waiting also s o
      → ((t : Selector)
          → Good handlers waiting also t
          → s.fd_size ≤ t.fd_size
          → GoesOn handlers waiting also t (f t))
      → GoesOn handlers waiting also s (o >>= f)
  then_on s o f (t, e, g, le) next =
      let (u, e', g', le') = next t g le in (u, ap (λ p. p >>= f) e ∙ e', g', omega arith)

  -- A callback that is there.
  called :
      (c : Option Callback) (key : Key) (s : Selector)
      → Keeps handlers waiting also c
      → c ≢ none
      → Good handlers waiting also s
      → GoesOn handlers waiting also s (must_call c key s)
  called none key s k there g = absurd (there refl)
  called (some call) key s k there g = k key s g

  called_when :
      (b : Bool) (c : Option Callback) (key : Key) (s : Selector)
      → Keeps handlers waiting also c
      → (b ≡ true → c ≢ none)
      → Good handlers waiting also s
      → GoesOn handlers waiting also s (if b then must_call c key s else some s)
  called_when true c key s k there g = called c key s k (there refl) g
  called_when false c key s k there g = same_selector s g

  -- Work on the item of a descriptor in the table.
  at_item :
      (i : ℕ) (s : Selector) (f : Item → Option Selector)
      → Good handlers waiting also s
      → i < s.fd_size
      → GoesOn handlers waiting also s (f (look s i))
      → GoesOn handlers waiting also s (item_at s.fds i >>= f)
  at_item i s f g h w =
      let there = item_at-look s.fds i unused_item (omega (arith, g.valid.sized)) in
      subst (λ o. GoesOn handlers waiting also s (o >>= f)) (sym there) w

  read_part-GoesOn :
      (i : ℕ) (s : Selector)
      → Good handlers waiting also s
      → used (look s i) ≡ true
      → GoesOn handlers waiting also s (read_part handlers (look s i) s)
  read_part-GoesOn i s g u =
      called_when (is_set (look s i).fd s.slave_r && (look s i).interest.op_read)
        (handlers (look s i).handler).handle_read (key_of (look s i)) s
        (keep.read (look s i).handler) (λ e. (g.armed i u).reads (and-right _ _ e)) g

  write_part-GoesOn :
      (i : ℕ) (key : Key) (s : Selector)
      → Good handlers waiting also s
      → GoesOn handlers waiting also s (write_part handlers i key s (look s i))
  write_part-GoesOn i key s g =
      called_when (s.slave_w i && (look s i).interest.op_write)
        (handlers (look s i).handler).handle_write key s (keep.write (look s i).handler)
        (λ e. elim (Bool-cases (used (look s i))) [
          | inl u ↦ (g.armed i u).writes (and-right _ _ e)
          | inr u ↦
              let wish : (look s i).interest.op_write ≡ true =
                and-right (s.slave_w i) ((look s i).interest.op_write) e in
              let no_wish : (look s i).interest.op_write ≡ false = g.idle i u in absurd (cc)
        ])
        g

  handle_item-GoesOn :
      (i : ℕ) (s : Selector)
      → Good handlers waiting also s
      → i < s.fd_size
      → GoesOn handlers waiting also s (handle_item handlers i s)
  unfolding handle_item
  handle_item-GoesOn i s g h = at_item i s _ g h (elim (Bool-cases (used (look s i))) [
    | inl u ↦ rw u (
        then_on s (read_part handlers (look s i) s) _ (read_part-GoesOn i s g u) (λ t g' le.
          at_item i t (write_part handlers i (key_of (look s i)) t) g' (omega arith)
            (write_part-GoesOn i (key_of (look s i)) t g')))
    | inr u ↦ rw u (same_selector s g)
  ])

  iteration_loop-GoesOn :
      (n i : ℕ) (s : Selector)
      → Good handlers waiting also s
      → i + n ≤ s.fd_size
      → GoesOn handlers waiting also s (iteration_loop handlers n i s)
  unfolding iteration_loop
  iteration_loop-GoesOn zero i s g h = same_selector s g
  iteration_loop-GoesOn (suc n) i s g h =
      then_on s (handle_item handlers i s) (iteration_loop handlers n (i + 1))
        (handle_item-GoesOn i s g (omega arith))
        (λ t g' le. iteration_loop-GoesOn n (i + 1) t g' (omega arith))

  jobs_loop-GoesOn :
      (jobs : List ℕ) (s : Selector)
      → Good handlers waiting also s
      → AllWaiting waiting s.fd_size jobs
      → GoesOn handlers waiting also s (jobs_loop handlers jobs s)
  unfolding jobs_loop
  jobs_loop-GoesOn [] s g b = same_selector s g
  jobs_loop-GoesOn (fd ∷ jobs) s g b = at_item fd s _ g b.0 (
      then_on s _ (jobs_loop handlers jobs)
        (elim (Bool-cases (used (look s fd))) [
          | inl u ↦ rw u (
              called (handlers (look s fd).handler).handle_block (key_of (look s fd)) s
                (keep.block (look s fd).handler) (g.blocks fd b.1 u) g)
          | inr u ↦ rw u (same_selector s g)
        ])
        (λ t g' le.
          jobs_loop-GoesOn jobs t g' (waiting_more waiting s.fd_size t.fd_size jobs le b.2)))

-- The sets for `select` and the jobs are no part of what is good.
pub refreshed :
    {handlers : Handlers} {waiting : ℕ → Bool} {also : Selector → Type 0} {s : Selector}
    (stable : Stable also) (r w : FdSet) (jobs : List ℕ)
    → Good handlers waiting also s
    → AllWaiting waiting s.fd_size jobs
    → Good handlers waiting also (record s { slave_r = r; slave_w = w; resolution_jobs = jobs })
refreshed {s = s} stable r w jobs g b = record {
  valid = record {
    sized = g.valid.sized;
    some_items = g.valid.some_items;
    bound = g.valid.bound;
    indexed = g.valid.indexed;
    below = g.valid.below;
    top = g.valid.top;
    read_set = g.valid.read_set;
    write_set = g.valid.write_set;
  };
  armed = g.armed;
  blocks = g.blocks;
  idle = g.idle;
  jobs = b;
  more = stable s r w jobs g.more;
}

-- What `selector_select` answers, and the jobs it leaves.
abbrev pub Answers : Selected → Selector → Status → Selector → Type 0
Answers (ready r w) s status t = (status ≡ success) × (t.resolution_jobs ≡ [])
Answers interrupted s status t = (status ≡ success) × (t.resolution_jobs ≡ [])
Answers bad_descriptor s status t = (status ≡ io) × (t.resolution_jobs ≡ s.resolution_jobs)
Answers other_error s status t = (status ≡ io) × (t.resolution_jobs ≡ s.resolution_jobs)

abbrev without_jobs : Option Selector → Option Selector
without_jobs o = o >>= λ s. some (record s { resolution_jobs = [] })

module _ (handlers : Handlers) (waiting : ℕ → Bool) (also : Selector → Type 0)
    (stable : Stable also) (keep : AllKeep handlers waiting also) where
  notified :
      (s : Selector)
      → Good handlers waiting also s
      → (t : Selector) × (handle_block_notifications handlers s ≡ some t)
        × Good handlers waiting also t
        × (t.resolution_jobs ≡ [])
  unfolding handle_block_notifications
  notified s g =
      let (t, e, g', le) =
        jobs_loop-GoesOn handlers waiting also keep s.resolution_jobs s g g.jobs in
      (
        record t { resolution_jobs = [] },
        ap without_jobs e,
        refreshed stable t.slave_r t.slave_w [] g' tt,
        refl,
      )

  -- A selector is good when it is valid, the items in use have the callbacks that their interests call
  -- for, those of the descriptors for which blocking jobs are done have `handle_block`, the finished
  -- jobs are for such descriptors, and it has what else the callbacks rely on, which is nothing about
  -- the sets of `pselect` or the jobs. For a good selector, and handlers whose callbacks keep it good,
  -- `selector_select` fails no assert, calls no null pointer and leaves `fds` at no point, whatever
  -- `pselect` says. It leaves a good selector, and answers success with no finished job left, when
  -- `pselect` has descriptors or is interrupted, and SELECTOR_IO with the jobs that were there otherwise.
  pub selector_select-Good :
      (selected : Selected) (s : Selector)
      → Good handlers waiting also s
      → (status : Status) × (t : Selector) × (selector_select handlers selected s
          ≡ some (status, t))
        × Good handlers waiting also t
        × Answers selected s status t
  unfolding selector_select
  selector_select-Good (ready r w) s g =
      let started : Selector = record (copy_sets s) { slave_r = r; slave_w = w } in
      let (t, e, g', le) =
        iteration_loop-GoesOn handlers waiting also keep (suc s.max_fd) 0 started
          (refreshed stable r w s.resolution_jobs g g.jobs)
          (omega (arith, max_fd_inside g.valid)) in
      let (u, e', g'', no_jobs) = notified t g' in
      (
        success,
        u,
        ap (λ o. answer_success (o >>= handle_block_notifications handlers)) e
            ∙ ap answer_success e',
        g'',
        (refl, no_jobs),
      )
  selector_select-Good interrupted s g =
      let (u, e', g'', no_jobs) =
        notified (copy_sets s)
          (refreshed stable s.master_r s.master_w s.resolution_jobs g g.jobs) in
      (success, u, ap answer_success e', g'', (refl, no_jobs))
  selector_select-Good bad_descriptor s g = (
    io,
    copy_sets s,
    refl,
    refreshed stable s.master_r s.master_w s.resolution_jobs g g.jobs,
    (refl, refl),
  )
  selector_select-Good other_error s g = (
    io,
    copy_sets s,
    refl,
    refreshed stable s.master_r s.master_w s.resolution_jobs g g.jobs,
    (refl, refl),
  )
