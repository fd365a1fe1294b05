-- ===== src/Queue/Dispatch/Turns.antt =====
-- What the queues of the threads hold after a connection has been handed over.
use prefix_match_server.Prelude.{
  ℕ, zero, suc, ◌<◌, Option, ◌==◌, if◌then◌else◌, ◌≡◌, ◌≢◌, refl, sym, ◌∙◌, false, none, some, List,
  [], ◌∷◌, ◌++◌, Bool-cases, inl, inr, arith, subst,
}
use prefix_match_server.Queue.{
  Pointer, CqItem, Heap, set_next, Cq, NewBlock, link, cq_push, cqi_new,
}
use prefix_match_server.Queue.Fifo.{
  Links, Fresh, last, Holds, Links-other, last-cons, Fresh-append, cq_push-Holds,
}
use prefix_match_server.Queue.Dispatch.Contents.{
  told, told-cq_push, told-cqi_new, told-set_item, told-set_other, IsOutside, Holds-cqi_new,
}
use prefix_match_server.Queue.Dispatch.{
  Threads, turn_of, set_item, put_queue, hand_over, dispatch_conn_new,
}

-- Each item of a list is not in another.
abbrev pub IsApart : List ℕ → List ℕ → Type 0
IsApart [] ys = Unit {0}
IsApart (x ∷ xs) ys = Fresh x ys × IsApart xs ys

-- The queues hold these items, and no item is in two of them.
pub record AllHold (h : Heap) (queues : ℕ → Cq) (items : ℕ → List ℕ) : Type 0 where
  pub holds : (t : ℕ) → Holds h (queues t) (items t)
  pub apart : (t u : ℕ) → t ≢ u → IsApart (items t) (items u)

-- The items after one has been put behind those of a thread.
unfoldable pub behind_turn : ℕ → ℕ → (ℕ → List ℕ) → ℕ → List ℕ
behind_turn tid item items t = if t == tid then items t ++ item ∷ [] else items t

Links-item :
    (h : Heap) (item : ℕ) (says : CqItem) (p : Pointer) (xs : List ℕ)
    → Links h p xs
    → Links (set_item h item says) p xs
Links-item h item says p [] l = l
Links-item h item says p (x ∷ xs) (e, l) = (
  e,
  subst (λ q. Links (set_item h item says) q xs) (sym (same x))
      (Links-item h item says (h x).next xs l),
)
  where
    same : (x : ℕ) → (set_item h item says x).next ≡ (h x).next
    same x =
        unfold set_item in elim (Bool-cases (x == item)) [ inl e ↦ rw e refl | inr e ↦ rw e refl ]

Holds-item :
    (h : Heap) (item : ℕ) (says : CqItem) (cq : Cq) (xs : List ℕ)
    → Holds h cq xs
    → Holds (set_item h item says) cq xs
Holds-item h item says cq xs q = record {
  links = Links-item h item says cq.head xs q.links;
  ends = q.ends;
  distinct = q.distinct;
}

Fresh-last_item : (xs ys : List ℕ) (l : ℕ) → IsApart xs ys → last xs ≡ some l → Fresh l ys
Fresh-last_item [] ys l a e = absurd (cc)
Fresh-last_item (x ∷ []) ys l a e = let q : x ≡ l = cc in subst (λ z. Fresh z ys) q a.0
Fresh-last_item (x ∷ y ∷ xs) ys l a e = Fresh-last_item (y ∷ xs) ys l a.1 e

-- A push to another queue.
Holds-push :
    (h : Heap) (cq other : Cq) (xs ys : List ℕ) (item : ℕ)
    → Holds h cq xs
    → Holds h other ys
    → IsApart xs ys
    → Fresh item ys
    → Holds (cq_push h cq item).0 other ys
unfolding cq_push link
Holds-push h cq other [] ys item q r a f = rw q.ends (record {
  links = Links-other h item none other.head ys f r.links;
  ends = r.ends;
  distinct = r.distinct;
})
Holds-push h cq other (x ∷ xs) ys item q r a f =
    let (l, e) = last-cons x xs in
    rw (q.ends ∙ e) (record {
      links =
          Links-other (set_next h item none) l (some item) other.head ys
            (Fresh-last_item (x ∷ xs) ys l a e) (Links-other h item none other.head ys f r.links);
      ends = r.ends;
      distinct = r.distinct;
    })

IsApart-append :
    (xs ys : List ℕ) (item : ℕ) → IsApart xs ys → Fresh item xs → IsApart xs (ys ++ item ∷ [])
IsApart-append [] ys item a f = tt
IsApart-append (x ∷ xs) ys item (fx, a) (ne, f) =
    (Fresh-append x ys item fx (λ e. ne (sym e)), IsApart-append xs ys item a f)

append-IsApart :
    (xs ys : List ℕ) (item : ℕ) → IsApart xs ys → Fresh item ys → IsApart (xs ++ item ∷ []) ys
append-IsApart [] ys item a f = (f, tt)
append-IsApart (x ∷ xs) ys item (fx, a) f = (fx, append-IsApart xs ys item a f)

-- The lists stay apart when an item that is in none of them is added to one.
IsApart-behind :
    (tid item : ℕ) (items : ℕ → List ℕ)
    → ((t u : ℕ) → t ≢ u → IsApart (items t) (items u))
    → ((t : ℕ) → Fresh item (items t))
    → (t u : ℕ) → t ≢ u
    → IsApart (behind_turn tid item items t) (behind_turn tid item items u)
unfolding behind_turn
IsApart-behind tid item items a f t u ne = elim (Bool-cases (t == tid)) [
  | inl e ↦
      let g : (u == tid) ≡ false = ground (arith, ne) in
      rw (e, g) (append-IsApart (items t) (items u) item (a t u ne) (f u))
  | inr e ↦ rw e (elim (Bool-cases (u == tid)) [
    | inl g ↦ rw g (IsApart-append (items t) (items u) item (a t u ne) (f t))
    | inr g ↦ rw g (a t u ne)
  ])
]

turn_of-some : (last : Option ℕ) (n : ℕ) → 0 < n → (tid : ℕ) × (turn_of last n ≡ some tid)
unfolding turn_of
turn_of-some last zero lt = absurd (omega arith)
turn_of-some none (suc n) lt = (_, refl)
turn_of-some (some t) (suc n) lt = (_, refl)

-- The threads after an item has been handed over to one.
handed : Heap → ℕ → CqItem → Pointer → ℕ → Threads → Threads
handed h item says freelist tid s =
    let (heap, cq) = cq_push (set_item h item says) (s.queues tid) item in
    record {
      heap = heap;
      cqi_freelist = freelist;
      queues = put_queue tid cq s.queues;
      last_thread = some tid;
    }

handed-AllHold :
    (h : Heap) (item : ℕ) (says : CqItem) (freelist : Pointer) (tid : ℕ) (s : Threads)
    (items : ℕ → List ℕ)
    → AllHold h s.queues items
    → ((t : ℕ) → Fresh item (items t))
    → AllHold
        (handed h item says freelist tid s).heap
        (handed h item says freelist tid s).queues
        (behind_turn tid item items)
unfolding handed
handed-AllHold h item says freelist tid s items q f = record {
  holds = holds;
  apart = IsApart-behind tid item items q.apart f;
}
  where
    g : Heap
    g = set_item h item says

    holds :
        (t : ℕ)
        → Holds
            (cq_push g (s.queues tid) item).0
            (put_queue tid (cq_push g (s.queues tid) item).1 s.queues t)
            (behind_turn tid item items t)
    holds t =
        unfold put_queue in
        unfold behind_turn in
        elim (Bool-cases (t == tid)) [
          | inl z ↦
              let w : t ≡ tid = ground arith in
              rw (z, w)
                (cq_push-Holds g (s.queues tid) (items tid) item
                  (Holds-item h item says (s.queues tid) (items tid) (q.holds tid)) (f tid))
          | inr z ↦ rw z (
              Holds-push g (s.queues tid) (s.queues t) (items tid) (items t) item
                (Holds-item h item says (s.queues tid) (items tid) (q.holds tid))
                (Holds-item h item says (s.queues t) (items t) (q.holds t))
                (q.apart tid t (λ w. absurd (ground arith))) (f t))
        ]

-- What `dispatch_conn_new` leaves: the item is behind those of the thread whose turn it is, the queues
-- of all other threads hold what they held, the item says what it was told, and all other items say
-- what they said.
pub record Hands (num_threads : ℕ) (says : CqItem) (s : Threads) (items : ℕ → List ℕ) (item : ℕ)
    (u : Threads) : Type 0 where
  pub tid : ℕ
  pub turn : turn_of s.last_thread num_threads ≡ some tid
  pub latest : u.last_thread ≡ some tid
  pub all : AllHold u.heap u.queues (behind_turn tid item items)
  pub says_it : told (u.heap item) ≡ told says
  pub others : (a : ℕ) → a ≢ item → told (u.heap a) ≡ told (s.heap a)

-- For at least one thread, queues of which no two share an item, and an item that `cqi_new` returns and
-- that is in none of them, while memory that `malloc` returns has no item of a queue either:
-- `dispatch_conn_new` ends with the item behind those of the thread whose turn it is, and the queues of
-- all other threads hold what they held; the item says the socket, the state, the flags and the size
-- that were given, and all other items say what they said.
pub dispatch_conn_new-AllHold :
    (b : NewBlock) (num_threads : ℕ) (says : CqItem) (s : Threads) (items : ℕ → List ℕ) (item : ℕ)
    (h : Heap) (freelist : Pointer)
    → 0 < num_threads
    → cqi_new b s.heap s.cqi_freelist ≡ (some item, h, freelist)
    → AllHold s.heap s.queues items
    → ((t : ℕ) → Fresh item (items t))
    → ((t : ℕ) → IsOutside b.block (items t))
    → (u : Threads) × (dispatch_conn_new b num_threads says s ≡ some u)
      × Hands num_threads says s items item u
unfolding dispatch_conn_new hand_over
dispatch_conn_new-AllHold b num_threads says s items item h freelist lt e q f out =
    let (tid, turn) = turn_of-some s.last_thread num_threads lt in
    (
      handed h item says freelist tid s,
      rw (e, turn) (unfold handed in refl),
      record {
        tid = tid;
        turn = turn;
        latest = unfold handed in refl;
        all = handed-AllHold h item says freelist tid s items before f;
        says_it =
            unfold handed in
            told-cq_push (set_item h item says) (s.queues tid) item item
            ∙ told-set_item h item says;
        others = λ a ne.
            unfold handed in
            told-cq_push (set_item h item says) (s.queues tid) item a
            ∙ told-set_other h item says a ne
            ∙ subst (λ (g : Pointer × Heap × Pointer). told (g.1 a) ≡ told (s.heap a)) e
                (told-cqi_new b s.heap s.cqi_freelist a);
      },
    )
  where
    before : AllHold h s.queues items
    before = record {
      holds = λ t.
          subst (λ (g : Pointer × Heap × Pointer). Holds g.1 (s.queues t) (items t)) e
            (Holds-cqi_new b s.heap s.cqi_freelist (s.queues t) (items t) (out t) (q.holds t));
      apart = q.apart;
    }
