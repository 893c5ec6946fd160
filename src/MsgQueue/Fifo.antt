-- ===== src/MsgQueue/Fifo.antt =====
-- The queue of msg_queue.c against a list of the messages.
use http_proxy.Base.{
  ℕ, zero, suc, ◌<◌, ◌≤◌, ◌≡◌, ◌≢◌, ◌∙◌, refl, sym, ap, Bool, true, false, Option, none, some, List,
  [], ◌∷◌, ◌++◌, ◌==◌, if◌then◌else◌, ℤ, pos, negsuc, length, arith,
}
use http_proxy.Serializer.{Msg}
use http_proxy.MsgQueue.{Node, Queue, node_at, link, q_is_empty, q_poll, append, q_offer}

abbrev node : Msg → Option ℕ → Node
node m next = record { msg = m; next = next }

-- The nodes from `p` to `l` hold `m` and then `ms`, each allocated behind the one before it.
abbrev pub Chain : List Node → ℕ → ℕ → Msg → List Msg → Type 0
Chain ns p l m [] = (p ≡ l) × (node_at ns p ≡ some (node m none))
Chain ns p l m (m' ∷ ms) =
    (p' : ℕ) × (p < p') × (node_at ns p ≡ some (node m (some p'))) × Chain ns p' l m' ms

-- The queue holds the messages `ms`.
abbrev pub Holds : Queue → List Msg → Type 0
Holds q [] = (q.first ≡ none) × (q.last ≡ none)
Holds q (m ∷ ms) =
    (p : ℕ) × (l : ℕ) × (q.first ≡ some p) × (q.last ≡ some l) × Chain q.nodes p l m ms

node_at_inside : (ns : List Node) (p : ℕ) (n : Node) → node_at ns p ≡ some n → p < length ns
node_at_inside [] p n e = absurd (cc)
node_at_inside (x ∷ ns) zero n e = omega arith
node_at_inside (x ∷ ns) (suc p) n e = omega (arith, node_at_inside ns p n e)

node_at-append :
    (ns : List Node) (x : Node) (p : ℕ) → p < length ns → node_at (ns ++ (x ∷ [])) p ≡ node_at ns p
node_at-append [] x p h = absurd (omega arith)
node_at-append (n ∷ ns) x zero h = refl
node_at-append (n ∷ ns) x (suc p) h = node_at-append ns x p (omega arith)

node_at-end : (ns : List Node) (x : Node) → node_at (ns ++ (x ∷ [])) (length ns) ≡ some x
node_at-end [] x = refl
node_at-end (n ∷ ns) x = node_at-end ns x

node_at-link_ne :
    (ns : List Node) (p k : ℕ) (next : Option ℕ) → p ≢ k → node_at (link ns p next) k ≡ node_at ns k
node_at-link_ne [] p k next h = refl
node_at-link_ne (n ∷ ns) zero zero next h = absurd (h refl)
node_at-link_ne (n ∷ ns) zero (suc k) next h = refl
node_at-link_ne (n ∷ ns) (suc p) zero next h = refl
node_at-link_ne (n ∷ ns) (suc p) (suc k) next h = node_at-link_ne ns p k next (λ e. h (ap suc e))

node_at-link_self :
    (ns : List Node) (p : ℕ) (m : Msg) (old next : Option ℕ)
    → node_at ns p ≡ some (node m old)
    → node_at (link ns p next) p ≡ some (node m next)
node_at-link_self [] p m old next e = absurd (cc)
node_at-link_self (n ∷ ns) zero m old next e = cc
node_at-link_self (n ∷ ns) (suc p) m old next e = node_at-link_self ns p m old next e

Chain-order : (ns : List Node) (p l : ℕ) (m : Msg) (ms : List Msg) → Chain ns p l m ms → p ≤ l
Chain-order ns p l m [] c = omega (arith, c.0)
Chain-order ns p l m (m' ∷ ms) (p', h, e, c) = omega (arith, Chain-order ns p' l m' ms c)

Chain-end :
    (ns : List Node) (p l : ℕ) (m : Msg) (ms : List Msg)
    → Chain ns p l m ms
    → (z : Msg) × (node_at ns l ≡ some (node z none))
Chain-end ns p l m [] c = (m, cc)
Chain-end ns p l m (m' ∷ ms) (p', h, e, c) = Chain-end ns p' l m' ms c

Chain-extended :
    (ns : List Node) (p l : ℕ) (m x : Msg) (ms : List Msg)
    → Chain ns p l m ms
    → Chain (link (ns ++ (node x none ∷ [])) l (some (length ns))) p (length ns) m (ms ++ (x ∷ []))
Chain-extended ns p l m x [] c =
    let new : List Node = ns ++ (node x none ∷ []) in
    let inside : p < length ns = node_at_inside ns p (node m none) c.1 in
    let held : node_at new p ≡ some (node m none) =
      node_at-append ns (node x none) p inside ∙ c.1 in
    let apart : l ≢ length ns = λ e. ground (arith, c.0) in
    (
      length ns,
      inside,
      ap (λ k. node_at (link new k (some (length ns))) p) (sym c.0)
          ∙ node_at-link_self new p m none (some (length ns)) held,
      (
        refl,
        node_at-link_ne new l (length ns) (some (length ns)) apart ∙ node_at-end ns (node x none),
      ),
    )
Chain-extended ns p l m x (m' ∷ ms) (p', h, e, c) =
    let new : List Node = ns ++ (node x none ∷ []) in
    let inside : p < length ns = node_at_inside ns p (node m (some p')) e in
    let apart : l ≢ p = λ q. ground (arith, Chain-order ns p' l m' ms c) in
    (
      p',
      h,
      node_at-link_ne new l p (some (length ns)) apart
          ∙ node_at-append ns (node x none) p inside
          ∙ e,
      Chain-extended ns p' l m' x ms c,
    )

-- The operations, and the answers.
pub data Op : Type 0 where
  offer : Bool → Msg → Op
  poll ask_empty : Op

pub data Reply : Type 0 where
  result : ℤ → Reply
  message : Option Msg → Reply
  emptiness : Bool → Reply

abbrev replying {ℓ} : {A : Type ℓ} → (A → Reply) → Option (A × Queue) → Option (Reply × Queue)
replying f none = none
replying f (some (a, q)) = some (f a, q)

abbrev pub do_op : Op → Queue → Option (Reply × Queue)
do_op (offer allocated msg) q = replying result (q_offer allocated msg q)
do_op poll q = replying message (q_poll q)
do_op ask_empty q = some (emptiness (q_is_empty q), q)

-- A list of messages, the next one in front.
abbrev pub fifo_op : Op → List Msg → Reply × List Msg
fifo_op (offer allocated msg) ms =
    if allocated then (result (pos 0), ms ++ (msg ∷ [])) else (result (negsuc 0), ms)
fifo_op poll [] = (message none, [])
fifo_op poll (m ∷ ms) = (message (some m), ms)
fifo_op ask_empty [] = (emptiness true, [])
fifo_op ask_empty (m ∷ ms) = (emptiness false, m ∷ ms)

abbrev pub run : List Op → Queue → Option (List Reply)
run [] q = some []
run (o ∷ os) q = elim (do_op o q) [
  | none ↦ none
  | some (r, q') ↦ elim (run os q') [ none ↦ none | some rs ↦ some (r ∷ rs) ]
]

abbrev pub fifo_run : List Op → List Msg → List Reply
fifo_run [] ms = []
fifo_run (o ∷ os) ms = (fifo_op o ms).0 ∷ fifo_run os (fifo_op o ms).1

-- What an operation on a queue that holds `ms` gives.
abbrev Follows : Op → Queue → List Msg → Type 0
Follows o q ms =
    (q' : Queue) × (do_op o q ≡ some ((fifo_op o ms).0, q')) × Holds q' (fifo_op o ms).1

pub q_offer-Holds :
    (x : Msg) (q : Queue) (ms : List Msg)
    → Holds q ms
    → (q' : Queue) × (q_offer true x q ≡ some (pos 0, q')) × Holds q' (ms ++ (x ∷ []))
unfolding q_offer
q_offer-Holds x q [] h = (
  record {
    nodes = q.nodes ++ (node x none ∷ []);
    first = some (length q.nodes);
    last = some (length q.nodes);
  },
  (let e : q.first ≡ none = h.0 in rw e refl),
  (length q.nodes, length q.nodes, refl, refl, (refl, node_at-end q.nodes (node x none))),
)
q_offer-Holds x q (m ∷ ms) (p, l, ef, el, c) =
    let new : List Node = q.nodes ++ (node x none ∷ []) in
    let (z, e) = Chain-end q.nodes p l m ms c in
    let there : node_at new l ≡ some (node z none) =
      node_at-append q.nodes (node x none) l (node_at_inside q.nodes l (node z none) e) ∙ e in
    (
      record {
        nodes = link new l (some (length q.nodes));
        first = some p;
        last = some (length q.nodes);
      },
      rw (ef, el, append, there) refl,
      (p, length q.nodes, refl, refl, Chain-extended q.nodes p l m x ms c),
    )

-- `first == last` for the pointers of a queue of one message, and of more.
equal_addresses : (p l : ℕ) → p ≡ l → (p == l) ≡ true
equal_addresses p l e = ground arith

lower_address : (p l : ℕ) → p < l → (p == l) ≡ false
lower_address p l e = ground arith

-- The message that `q_poll` gives, and what the queue holds behind it.
abbrev pub front : List Msg → Option Msg
front [] = none
front (m ∷ ms) = some m

abbrev pub behind_front : List Msg → List Msg
behind_front [] = []
behind_front (m ∷ ms) = ms

pub q_poll-Holds :
    (q : Queue) (ms : List Msg)
    → Holds q ms
    → (q' : Queue) × (q_poll q ≡ some (front ms, q')) × Holds q' (behind_front ms)
unfolding q_poll
q_poll-Holds q [] h = (q, (let e : q.first ≡ none = h.0 in rw e refl), h)
q_poll-Holds q (m ∷ []) (p, l, ef, el, c) = (
  record q { last = none; first = none },
  rw (ef, c.1, ef, el, equal_addresses p l c.0) refl,
  (refl, refl),
)
q_poll-Holds q (m ∷ m' ∷ ms) (p, l, ef, el, (p', h, e, c)) = (
  record q { last = some l; first = some p' },
  rw (ef, e, ef, el, lower_address p l (omega (arith, Chain-order q.nodes p' l m' ms c))) refl,
  (p', l, refl, refl, c),
)

op-Follows : (o : Op) (q : Queue) (ms : List Msg) → Holds q ms → Follows o q ms
unfolding q_offer
op-Follows (offer false x) q ms h = (q, refl, h)
op-Follows (offer true x) q ms h =
    let (q', e, h') = q_offer-Holds x q ms h in (q', ap (replying result) e, h')
op-Follows poll q [] h = let (q', e, h') = q_poll-Holds q [] h in (q', ap (replying message) e, h')
op-Follows poll q (m ∷ ms) h =
    let (q', e, h') = q_poll-Holds q (m ∷ ms) h in (q', ap (replying message) e, h')
op-Follows ask_empty q [] h = (q, (let e : q.first ≡ none = h.0 in rw e refl), h)
op-Follows ask_empty q (m ∷ ms) (p, l, ef, el, c) = (q, rw ef refl, (p, l, ef, el, c))

-- On a queue that holds the messages `ms`, every sequence of `q_offer`, with `malloc` succeeding or
-- not, of `q_poll` and of `q_is_empty` follows no pointer to nothing and gives the answers that a
-- first-in first-out list with the elements `ms` gives, in which an offer without memory changes
-- nothing and is answered with -1.
pub run-fifo_run :
    (os : List Op) (q : Queue) (ms : List Msg) → Holds q ms → run os q ≡ some (fifo_run os ms)
run-fifo_run [] q ms h = refl
run-fifo_run (o ∷ os) q ms h =
    let (q', e, h') = op-Follows o q ms h in
    rw (e, run, run-fifo_run os q' (fifo_op o ms).1 h') refl
