-- ===== src/Conn/Output.antt =====
-- The messages to send: `add_msghdr`, `ensure_iov_space`, `add_iov`, `out_string`,
-- `add_bin_header`, `write_bin_error`, `write_bin_response` and `transmit` of server.cpp.
pub mod Added
pub mod Ends
pub mod Finishes
pub mod Sent
use prefix_match_server.Prelude.{
  ℕ, zero, suc, ◌+◌, ◌-◌, ◌*◌, Bool, true, false, ◌&&◌, ◌||◌, not, Option, none, some, List, [],
  ◌∷◌, ◌++◌, Bytes, codes, ltb, leb, ◌==◌, if◌then◌else◌, length, take, drop, get_elem?, set,
}
use prefix_match_server.Wire.Response.{response_header}
use prefix_match_server.Conn.State.{
  ConnStates, conn_write, conn_mwrite, conn_new_cmd, conn_swallow, conn_closing, Message, Conn,
  World, SendReply, sent, send_blocks, send_fails, head_flag, tail_flags, conn_set_state,
  update_event, write_at, ev_write_persist,
}

-- `IOV_MAX` and `UDP_MAX_PAYLOAD_SIZE`
abbrev pub iov_max : ℕ
iov_max = 1024

abbrev pub udp_max_payload_size : ℕ
udp_max_payload_size = 1400

-- The return value with the connection and the system behind the call.
pub data Ret : Type 0 where
  ret_ok ret_error ret_unfinished : Conn → World → Ret

unfoldable pub add_msghdr : Conn → World → Bool × Conn × World
add_msghdr c w =
    if c.msgsize == length c.messages
    then (
      head_flag w.allocs,
      if head_flag w.allocs
          then record c { msgsize = c.msgsize * 2; messages = c.messages ++ [] ∷ []; msgbytes = 0 }
          else c,
      record w { allocs = tail_flags w.allocs },
    )
    else (true, record c { messages = c.messages ++ [] ∷ []; msgbytes = 0 }, w)

unfoldable pub ensure_iov_space : Conn → World → Bool × Conn × World
ensure_iov_space c w =
    if leb c.iovsize c.iovused
    then (
      head_flag w.allocs,
      if head_flag w.allocs then record c { iovsize = c.iovsize * 2 } else c,
      record w { allocs = tail_flags w.allocs },
    )
    else (true, c, w)

-- The last message, `msglist[msgused - 1]`, with a chunk behind it.
unfoldable pub push_chunk : List Message → Bytes → List Message
push_chunk [] chunk = []
push_chunk (m ∷ []) chunk = (m ++ chunk ∷ []) ∷ []
push_chunk (m ∷ n ∷ ms) chunk = m ∷ push_chunk (n ∷ ms) chunk

unfoldable pub last_length : List Message → ℕ
last_length [] = 0
last_length (m ∷ []) = length m
last_length (m ∷ n ∷ ms) = last_length (n ∷ ms)

-- `limit_to_mtu`, and whether a new message is started.
unfoldable pub limit_to_mtu : Conn → Bool
limit_to_mtu c = length c.messages == 1

unfoldable pub message_full : Conn → Bool
unfolding last_length limit_to_mtu
message_full c =
    last_length c.messages == iov_max || (limit_to_mtu c && leb udp_max_payload_size c.msgbytes)

-- The start of a round; the return value of `add_msghdr` is not looked at.
unfoldable pub start_message : Conn → World → Conn × World
unfolding message_full add_msghdr
start_message c w =
    if message_full c then (let (ok, c', w') = add_msghdr c w in (c', w')) else (c, w)

-- The length of the chunk of a round, and the chunk.
unfoldable pub chunk_length : Bool → Conn → ℕ → ℕ
chunk_length limit c len =
    if limit && ltb udp_max_payload_size (len + c.msgbytes)
    then udp_max_payload_size - c.msgbytes
    else len

unfoldable pub put_chunk : Conn → Bytes → Conn
unfolding push_chunk
put_chunk c chunk = record c {
  messages = push_chunk c.messages chunk;
  msgbytes = c.msgbytes + length chunk;
  iovused = c.iovused + 1;
}

-- `do … while (leftover > 0)`, on fuel.
unfoldable pub add_iov : ℕ → Conn → World → Bytes → Ret
unfolding limit_to_mtu start_message ensure_iov_space chunk_length put_chunk
add_iov zero c w buf = ret_unfinished c w
add_iov (suc fuel) c w buf =
    let (c₁, w₁) = start_message c w in
    let (ok, c₂, w₂) = ensure_iov_space c₁ w₁ in
    let n = chunk_length (limit_to_mtu c) c₂ (length buf) in
    let c₃ = put_chunk c₂ (take n buf) in
    let more = add_iov fuel c₃ w₂ (drop n buf) in
    if ok then if ltb n (length buf) then more else ret_ok c₃ w₂ else ret_error c₂ w₂

-- A call whose return value is not looked at.
unfoldable pub settle : Ret → Conn × World
settle (ret_ok c w) = (c, w)
settle (ret_error c w) = (c, w)
settle (ret_unfinished c w) = (c, w)

-- `add_iov` with as many rounds as it can take: three, and one for each allocation that may fail.
unfoldable pub add_iov_all : Conn → World → Bytes → Ret
unfolding add_iov
add_iov_all c w buf = add_iov (suc (suc (suc (length w.allocs)))) c w buf

-- No message, as at the start of an answer.
unfoldable pub clear_messages : Conn → Conn
clear_messages c = record c { messages = []; msgcurr = 0; iovused = 0 }

-- The line that `out_string` writes.
unfoldable pub out_line : Conn → Bytes → Bytes
out_line c str =
    if ltb c.wsize (length str + 2) then codes "SERVER_ERROR output line too long" else str

unfoldable pub out_string : Conn → World → Bytes → Conn × World
unfolding clear_messages add_msghdr out_line
out_string c w str =
    let (ok, d, w') = add_msghdr (clear_messages c) w in
    let line = out_line c str ++ 13 ∷ 10 ∷ [] in
    (
      record d {
        wbuf = write_at d.wbuf 0 line;
        wpending = line;
        state = conn_write;
        write_and_go = conn_new_cmd;
      },
      w',
    )

-- The header goes to the front of `wbuf`.
unfoldable pub add_bin_header : Conn → World → ℕ → ℕ → Conn × World
unfolding clear_messages add_msghdr out_string add_iov_all settle
add_bin_header c w err body_len =
    let (ok, d, w') = add_msghdr (clear_messages c) w in
    let header = response_header err body_len (drop 2 d.wbuf) in
    if ok
    then settle (add_iov_all (record d { wbuf = write_at d.wbuf 0 header }) w' header)
    else out_string d w' (codes "SERVER_ERROR out of memory")

-- `add_iov` for a part that may be empty.
unfoldable pub add_part : Conn × World → Bytes → Conn × World
unfolding add_iov_all settle
add_part (c, w) [] = (c, w)
add_part (c, w) (b ∷ buf) = settle (add_iov_all c w (b ∷ buf))

-- `RESPONSE_ENOMEM`
abbrev pub response_enomem : ℕ
response_enomem = 0x82

-- `write_bin_error(c, RESPONSE_ENOMEM, swallow)`, the only error that is written.
unfoldable pub write_bin_error : Conn → World → ℕ → Conn × World
unfolding add_bin_header add_part
write_bin_error c w swallow =
    let text = codes "Out of memory" in
    let (d, w') = add_part (add_bin_header c w response_enomem (length text)) text in
    if ltb 0 swallow
    then (record d { state = conn_mwrite; sbytes = swallow; write_and_go = conn_swallow }, w')
    else (record d { state = conn_mwrite; write_and_go = conn_new_cmd }, w')

unfoldable pub write_bin_response : Conn → World → Bytes → Conn × World
unfolding add_bin_header add_part
write_bin_response c w body =
    let (d, w') = add_part (add_bin_header c w 0 (length body)) body in
    (record d { state = conn_mwrite; write_and_go = conn_new_cmd }, w')

-- `enum transmit_result`
pub data TransmitResult : Type 0 where
  transmit_complete transmit_incomplete transmit_soft_error transmit_hard_error : TransmitResult

-- The loop that removes sent chunks, and the cut of the chunk that was sent in part.
unfoldable pub take_sent : ℕ → Message → Message
take_sent res [] = []
take_sent res (chunk ∷ m) =
    if leb (length chunk) res then take_sent (res - length chunk) m else drop res chunk ∷ m

-- The bytes of a message.
unfoldable pub message_size : Message → ℕ
message_size [] = 0
message_size (chunk ∷ m) = length chunk + message_size m

-- `msglist[msgcurr]`, if it is below `msgused`.
unfoldable pub current : Conn → Option Message
current c = get_elem? c.messages c.msgcurr

unfoldable pub is_done : Option Message → Bool
is_done none = false
is_done (some []) = true
is_done (some (chunk ∷ m)) = false

-- A finished message is passed over.
unfoldable pub advance : Conn → Conn
unfolding current is_done
advance c = if is_done (current c) then record c { msgcurr = c.msgcurr + 1 } else c

-- The answer of `sendmsg` for the current message: at most its bytes are sent.
unfoldable pub after_send : Conn → World → Message → SendReply → TransmitResult × Conn × World
unfolding take_sent message_size
after_send c w m (sent n) =
    let res = if ltb (message_size m) n then message_size m else n in
    if res == 0 then (transmit_hard_error, conn_set_state c conn_closing, w) else (
      transmit_incomplete,
      record c { messages = set c.messages c.msgcurr (take_sent res m) },
      w,
    )
after_send c w m send_blocks =
    let (ok, d, w') = update_event c ev_write_persist w in
    if ok
    then (transmit_soft_error, d, w')
    else (transmit_hard_error, conn_set_state d conn_closing, w')
after_send c w m send_fails = (transmit_hard_error, conn_set_state c conn_closing, w)

abbrev pub next_send : List SendReply → SendReply
next_send [] = send_blocks
next_send (s ∷ ss) = s

abbrev pub later_sends : List SendReply → List SendReply
later_sends [] = []
later_sends (s ∷ ss) = ss

unfoldable pub transmit : Conn → World → TransmitResult × Conn × World
unfolding advance after_send
transmit c w = elim (current (advance c)) [
  | none ↦ (transmit_complete, advance c, w)
  | some m ↦ after_send (advance c) (record w { sends = later_sends w.sends }) m (next_send w.sends)
]
