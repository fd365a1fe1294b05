-- ===== src/Queue/Dispatch/Process.antt =====
-- `thread_libevent_process` of thread.cpp.
use prefix_match_server.Prelude.{
  ℕ, Bool, true, Option, ◌==◌, if◌then◌else◌, ◌≡◌, ◌≢◌, refl, sym, ap, ◌∙◌, false, none, some, List,
  [], ◌∷◌, Bool-cases, inl, inr, arith, subst,
}
use prefix_match_server.Queue.{Pointer, CqItem, Heap, set_next, Cq, cq_pop, cqi_free}
use prefix_match_server.Queue.Fifo.{Fresh, Holds, Pops, Links-other, next-same, cq_pop-Holds}
use prefix_match_server.Queue.Dispatch.{Threads, put_queue}
use prefix_match_server.Queue.Dispatch.Turns.{IsApart, AllHold}

-- What a wake-up does: nothing for `conn_new`, or a call of it with what the item says, and a `close`
-- of the socket if it returns NULL.
pub data Woken : Type 0 where
  idle : Woken
  opens : CqItem → Option ℕ → Woken

-- The socket that is closed, if `conn_new` returns NULL.
unfoldable pub close_refused : Bool → ℕ → Option ℕ
close_refused true sfd = none
close_refused false sfd = some sfd

-- From the item that `cq_pop` returns on; `opened` says whether `conn_new` returns a connection, and
-- the item is freed in either case.
unfoldable pub take_item : Bool → Pointer × Cq → ℕ → Threads → Woken × Threads
unfolding put_queue cqi_free close_refused
take_item opened (none, cq) me s = (idle, record s { queues = put_queue me cq s.queues })
take_item opened (some item, cq) me s =
    let (heap, freelist) = cqi_free s.heap s.cqi_freelist item in
    (
      opens (s.heap item) (close_refused opened (s.heap item).sfd),
      record s { heap = heap; cqi_freelist = freelist; queues = put_queue me cq s.queues },
    )

-- `buf` is the byte from the pipe, and `me` the number of the thread.
unfoldable pub thread_libevent_process : Bool → ℕ → ℕ → Threads → Woken × Threads
unfolding take_item cq_pop
thread_libevent_process opened buf me s =
    if buf == 99 then take_item opened (cq_pop s.heap (s.queues me)) me s else (idle, s)

-- The items after the first one of a thread.
unfoldable pub items_after : ℕ → List ℕ → (ℕ → List ℕ) → ℕ → List ℕ
items_after me xs items t = if t == me then xs else items t

-- What a wake-up of a thread leaves, by the items of its queue.
abbrev pub Wakes : Bool → ℕ → Threads → (ℕ → List ℕ) → List ℕ → Woken × Threads → Type 0
Wakes opened me s items [] (w, u) =
    (w ≡ idle) × AllHold u.heap u.queues items × (u.cqi_freelist ≡ s.cqi_freelist)
Wakes opened me s items (x ∷ xs) (w, u) =
    (w ≡ opens (s.heap x) (close_refused opened (s.heap x).sfd))
    × AllHold u.heap u.queues (items_after me xs items)
    × (u.cqi_freelist ≡ some x)
    × ((u.heap x).next ≡ s.cqi_freelist)

IsApart-tail : (zs : List ℕ) (x : ℕ) (xs : List ℕ) → IsApart zs (x ∷ xs) → IsApart zs xs
IsApart-tail [] x xs a = tt
IsApart-tail (z ∷ zs) x xs a = (a.0.1, IsApart-tail zs x xs a.1)

IsApart-items_after :
    (me x : ℕ) (xs : List ℕ) (items : ℕ → List ℕ)
    → items me ≡ x ∷ xs
    → ((t u : ℕ) → t ≢ u → IsApart (items t) (items u))
    → (t u : ℕ) → t ≢ u
    → IsApart (items_after me xs items t) (items_after me xs items u)
unfolding items_after
IsApart-items_after me x xs items e a t u ne = elim (Bool-cases (t == me)) [
  | inl f ↦
      let g : (u == me) ≡ false = ground (arith, ne) in
      let d : me ≢ u = λ z. absurd (ground arith) in
      rw (f, g) (subst (λ l. IsApart l (items u)) e (a me u d)).1
  | inr f ↦ rw f (elim (Bool-cases (u == me)) [
    | inl g ↦
        let d : t ≢ me = λ z. absurd (ground arith) in
        rw g (IsApart-tail (items t) x xs (subst (IsApart (items t)) e (a t me d)))
    | inr g ↦ rw g (a t u ne)
  ])
]

Holds-free :
    (h : Heap) (a : ℕ) (q : Pointer) (cq : Cq) (ys : List ℕ)
    → Fresh a ys
    → Holds h cq ys
    → Holds (set_next h a q) cq ys
Holds-free h a q cq ys f r = record {
  links = Links-other h a q cq.head ys f r.links;
  ends = r.ends;
  distinct = r.distinct;
}

wake_idle :
    (me : ℕ) (s : Threads) (items : ℕ → List ℕ) (cq : Cq)
    → items me ≡ []
    → AllHold s.heap s.queues items
    → Holds s.heap cq []
    → AllHold s.heap (put_queue me cq s.queues) items
unfolding put_queue
wake_idle me s items cq e q r = record { holds = holds; apart = q.apart }
  where
    holds : (t : ℕ) → Holds s.heap (if t == me then cq else s.queues t) (items t)
    holds t = elim (Bool-cases (t == me)) [
      | inl f ↦
          let z : me ≡ t = ground arith in rw f (subst (Holds s.heap cq) (sym e ∙ ap items z) r)
      | inr f ↦ rw f (q.holds t)
    ]

wake_first :
    (me : ℕ) (s : Threads) (items : ℕ → List ℕ) (x : ℕ) (xs : List ℕ) (cq : Cq)
    → items me ≡ x ∷ xs
    → AllHold s.heap s.queues items
    → Holds s.heap cq xs
    → AllHold
        (set_next s.heap x s.cqi_freelist)
        (put_queue me cq s.queues)
        (items_after me xs items)
unfolding put_queue items_after
wake_first me s items x xs cq e q r = record {
  holds = holds;
  apart = unfold items_after in IsApart-items_after me x xs items e q.apart;
}
  where
    holds :
        (t : ℕ)
        → Holds
            (set_next s.heap x s.cqi_freelist)
            (if t == me then cq else s.queues t)
            (if t == me then xs else items t)
    holds t = elim (Bool-cases (t == me)) [
      | inl f ↦
          let own : Holds s.heap (s.queues me) (x ∷ xs) =
            subst (Holds s.heap (s.queues me)) e (q.holds me) in
          rw f (Holds-free s.heap x s.cqi_freelist cq xs own.distinct.0 r)
      | inr f ↦
          let d : me ≢ t = λ z. absurd (ground arith) in
          rw f (
            Holds-free s.heap x s.cqi_freelist (s.queues t) (items t)
              (subst (λ l. IsApart l (items t)) e (q.apart me t d)).0 (q.holds t))
    ]

take_item-Wakes :
    (opened : Bool) (me : ℕ) (s : Threads) (items : ℕ → List ℕ) (xs : List ℕ) (p : Pointer × Cq)
    → items me ≡ xs
    → AllHold s.heap s.queues items
    → Pops s.heap xs p
    → Wakes opened me s items xs (take_item opened p me s)
unfolding take_item cqi_free
take_item-Wakes opened me s items [] (p, cq) e q (n, r) =
    rw n (refl, wake_idle me s items cq e q r, refl)
take_item-Wakes opened me s items (x ∷ xs) (p, cq) e q (n, r) =
    rw n (refl, wake_first me s items x xs cq e q r, refl, next-same s.heap x s.cqi_freelist)

-- For queues of which no two share an item, a thread that is woken by the byte `c`: if its queue holds
-- items, it opens the connection that the first one describes, and closes its socket if `conn_new`
-- returns NULL; its queue holds the others, those of
-- the other threads what they held, and the item is the first free one, in front of those from before;
-- and if its queue holds none, nothing changes.
pub thread_libevent_process-Wakes :
    (opened : Bool) (me : ℕ) (s : Threads) (items : ℕ → List ℕ)
    → AllHold s.heap s.queues items
    → Wakes opened me s items (items me) (thread_libevent_process opened 99 me s)
unfolding thread_libevent_process
thread_libevent_process-Wakes opened me s items q =
    take_item-Wakes opened me s items (items me) (cq_pop s.heap (s.queues me)) refl q
      (cq_pop-Holds s.heap (s.queues me) (items me) (q.holds me))
