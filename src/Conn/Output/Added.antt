-- ===== src/Conn/Output/Added.antt =====
-- The bytes of the messages before and after `add_iov`.
use prefix_match_server.Prelude.{
  ℕ, zero, suc, ◌≡◌, ◌≢◌, refl, sym, ap, ◌∙◌, inl, inr, Bool, true, false, List, [], ◌∷◌, ◌++◌,
  append-nil, append_assoc, arith, Bytes, ltb, ◌==◌, if◌then◌else◌, length, take, drop, Bool-cases,
  take-append-drop, drop_all, ltb→ge,
}
use prefix_match_server.Conn.State.{Conn, World, Message, head_flag}
use prefix_match_server.Conn.Output.{
  Ret, ret_ok, ret_error, ret_unfinished, add_msghdr, ensure_iov_space, push_chunk, limit_to_mtu,
  message_full, start_message, chunk_length, put_chunk, add_iov,
}

-- The bytes of a message, and of messages in order.
unfoldable pub join : Message → Bytes
join [] = []
join (chunk ∷ m) = chunk ++ join m

unfoldable pub payload : List Message → Bytes
unfolding join
payload [] = []
payload (m ∷ ms) = join m ++ payload ms

pub join-append : (m n : Message) → join (m ++ n) ≡ join m ++ join n
unfolding join
join-append [] n = refl
join-append (chunk ∷ m) n = rw (join-append m n) (sym (append_assoc chunk (join m) (join n)))

payload-append : (ms ns : List Message) → payload (ms ++ ns) ≡ payload ms ++ payload ns
unfolding payload
payload-append [] ns = refl
payload-append (m ∷ ms) ns = rw (payload-append ms ns) (sym (append_assoc (join m) _ _))

payload-push_chunk :
    (ms : List Message) (chunk : Bytes)
    → ms ≢ []
    → payload (push_chunk ms chunk) ≡ payload ms ++ chunk
unfolding payload push_chunk join
payload-push_chunk [] chunk h = absurd (h refl)
payload-push_chunk (m ∷ []) chunk h =
    rw (append-nil (join (m ++ chunk ∷ [])), append-nil (join m))
      (join-append m (chunk ∷ []) ∙ ap (◌++◌ (join m)) (append-nil chunk))
payload-push_chunk (m ∷ n ∷ ms) chunk h =
    ap (◌++◌ (join m)) (payload-push_chunk (n ∷ ms) chunk (λ e. cc))
    ∙ sym (append_assoc (join m) _ chunk)

pub push_chunk-ne-nil : (ms : List Message) (chunk : Bytes) → ms ≢ [] → push_chunk ms chunk ≢ []
unfolding push_chunk
push_chunk-ne-nil [] chunk h e = h refl
push_chunk-ne-nil (m ∷ []) chunk h e = cc
push_chunk-ne-nil (m ∷ n ∷ ms) chunk h e = cc

-- A new message or more room leaves the bytes alone.
pub append-ne-nil : (ms : List Message) (m : Message) → ms ++ m ∷ [] ≢ []
append-ne-nil [] m e = cc
append-ne-nil (n ∷ ms) m e = cc

record Keeps (c d : Conn) : Type 0 where
  same : payload d.messages ≡ payload c.messages
  some_message : d.messages ≢ []

new-Keeps : (ms : List Message) → payload (ms ++ [] ∷ []) ≡ payload ms
new-Keeps ms = payload-append ms ([] ∷ []) ∙ unfold payload in append-nil (payload ms)

add_msghdr-Keeps : (c : Conn) (w : World) → c.messages ≢ [] → Keeps c (add_msghdr c w).1
unfolding add_msghdr
add_msghdr-Keeps c w h = elim (Bool-cases (c.msgsize == length c.messages)) [
  | inl e ↦ elim (Bool-cases (head_flag w.allocs)) [
    | inl a ↦
        rw (e, a)
          (record { same = new-Keeps c.messages; some_message = append-ne-nil c.messages [] })
    | inr a ↦ rw (e, a) (record { same = refl; some_message = h })
  ]
  | inr e ↦
      rw e (record { same = new-Keeps c.messages; some_message = append-ne-nil c.messages [] })
]

start_message-Keeps : (c : Conn) (w : World) → c.messages ≢ [] → Keeps c (start_message c w).0
unfolding start_message
start_message-Keeps c w h = elim (Bool-cases (message_full c)) [
  | inl e ↦ rw e (add_msghdr-Keeps c w h)
  | inr e ↦ rw e (record { same = refl; some_message = h })
]

messages-ensure : (c : Conn) (w : World) → (ensure_iov_space c w).1.messages ≡ c.messages
unfolding ensure_iov_space
messages-ensure c w = ground arith

-- What a successful return says of the bytes.
abbrev pub Adds : Conn → Bytes → Ret → Type 0
Adds c buf (ret_ok d w) = payload d.messages ≡ payload c.messages ++ buf
Adds c buf (ret_error d w) = Unit
Adds c buf (ret_unfinished d w) = Unit

Adds-weaken :
    (c d : Conn) (buf rest : Bytes) (r : Ret)
    → payload d.messages ++ rest ≡ payload c.messages ++ buf
    → Adds d rest r
    → Adds c buf r
Adds-weaken c d buf rest (ret_ok x w) e h = h ∙ e
Adds-weaken c d buf rest (ret_error x w) e h = tt
Adds-weaken c d buf rest (ret_unfinished x w) e h = tt

put_chunk-payload :
    (c d : Conn) (buf : Bytes) (n : ℕ)
    → Keeps c d
    → payload (put_chunk d (take n buf)).messages ++ drop n buf ≡ payload c.messages ++ buf
unfolding put_chunk
put_chunk-payload c d buf n k =
    rw (payload-push_chunk d.messages (take n buf) k.some_message, k.same)
      (append_assoc (payload c.messages) (take n buf) (drop n buf)
        ∙ ap (◌++◌ (payload c.messages)) (take-append-drop n buf))

-- Every way out of a round adds the buffer.
pick-Adds :
    (c : Conn) (buf : Bytes) (ok more : Bool) (x y z : Ret)
    → Adds c buf x
    → (more ≡ false → Adds c buf y)
    → Adds c buf z
    → Adds c buf (if ok then (if more then x else y) else z)
pick-Adds c buf true true x y z hx hy hz = hx
pick-Adds c buf true false x y z hx hy hz = hy refl
pick-Adds c buf false more x y z hx hy hz = hz

-- For a connection with a message, if `add_iov` returns 0, then the bytes of all messages are those
-- from before, with the buffer behind them: chunks and new messages lose and reorder nothing.
pub add_iov-Adds :
    (fuel : ℕ) (c : Conn) (w : World) (buf : Bytes)
    → c.messages ≢ []
    → Adds c buf (add_iov fuel c w buf)
unfolding add_iov
add_iov-Adds zero c w buf h = tt
add_iov-Adds (suc fuel) c w buf h =
    pick-Adds c buf (ensure_iov_space c₁ w₁).0 (ltb n (length buf))
      (add_iov fuel c₃ (ensure_iov_space c₁ w₁).2 (drop n buf)) (ret_ok c₃ _) (ret_error _ _)
      (Adds-weaken c c₃ buf (drop n buf) _ chunk (add_iov-Adds fuel c₃ _ (drop n buf) ne))
      (λ e.
        sym (append-nil _)
        ∙ ap (◌++◌ (payload c₃.messages)) (sym (drop_all buf n (ltb→ge n (length buf) e)))
        ∙ chunk)
      tt
  where
    c₁ : Conn
    c₁ = (start_message c w).0

    w₁ : World
    w₁ = (start_message c w).1

    c₂ : Conn
    c₂ = (ensure_iov_space c₁ w₁).1

    n : ℕ
    n = chunk_length (limit_to_mtu c) c₂ (length buf)

    c₃ : Conn
    c₃ = put_chunk c₂ (take n buf)

    kept : Keeps c c₂
    kept =
        let k = start_message-Keeps c w h in
        let e = messages-ensure c₁ w₁ in
        record { same = ap payload e ∙ k.same; some_message = λ z. k.some_message (sym e ∙ z) }

    chunk : payload c₃.messages ++ drop n buf ≡ payload c.messages ++ buf
    chunk = put_chunk-payload c c₂ buf n kept

    ne : c₃.messages ≢ []
    ne = unfold put_chunk in push_chunk-ne-nil c₂.messages (take n buf) kept.some_message
