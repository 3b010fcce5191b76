-- ===== src/Net/Tests.antt =====
-- Runs of the ring buffer and of a connection on concrete bytes.
use rpg_server.Base.{ℕ, suc, ◌≡◌, refl, inl, true, false, List, [], ◌∷◌, arith, nat_eq, sub32}
use rpg_server.Net.Ring.{
  write, put, copy_in, peek, consume, copy_out, writable_bytes, consume, peek, copy_in, put, write,
  readable_bytes, RingBuffer, new,
}
use rpg_server.Net.Ring.Invariant.{IsValid, new-IsValid}
use rpg_server.Net.Ring.Contents.{contents, contents-new}
use rpg_server.Net.Ring.Refine.{Op, run, queue_run, run-new_refines, writes, peeks, reads}
use rpg_server.Net.Connection.{
  Message, Connection, sent, received, recv_again, queue_msg, write_out, read_in, process_messages,
  header,
}
use rpg_server.Net.Connection.Framing.{frames, frame}
use rpg_server.Net.Connection.Delivery.{Delivers, process_messages-Delivers}
use rpg_server.Net.Connection.Sending.{IsOpen}
use rpg_server.Net.Connection.Receiving.{arrivals, read_in_loses}
use rpg_server.Net.Connection.Transfer.{queue_all, transfer-Delivers}

-- Five bytes through a buffer of four, across its end.
abbrev script : List Op
script =
    writes (1 ∷ 2 ∷ 3 ∷ []) ∷ reads 2 ∷ writes (4 ∷ 5 ∷ []) ∷ peeks 3 ∷ writes (6 ∷ 7 ∷ []) ∷ []

run-new_refines_example : run (new 4) script ≡ queue_run 4 [] script
run-new_refines_example = run-new_refines 4 script (omega arith) (omega arith)

abbrev login : Message
login = record { module_id = 1; sub_id = 2; body = 65 ∷ 66 ∷ [] }

abbrev ping : Message
ping = record { module_id = 3; sub_id = 4; body = [] }

-- Two frames, ten bytes, in a buffer of sixteen, and the first byte of a third.
abbrev filled : RingBuffer
filled = record {
  buf = 2 ∷ 0 ∷ 1 ∷ 2 ∷ 65 ∷ 66 ∷ 0 ∷ 0 ∷ 3 ∷ 4 ∷ 9 ∷ 0 ∷ 0 ∷ 0 ∷ 0 ∷ 0 ∷ [];
  capacity = 16;
  read_pos = 0;
  write_pos = 11;
  size = 11;
}

filled-IsValid : IsValid filled
filled-IsValid = record {
  has_room = omega arith;
  no_wrap = omega arith;
  stored = refl;
  read_in = omega arith;
  fits = omega arith;
  ahead = refl;
}

process_messages-Delivers_example :
    Delivers (process_messages 12 filled) (login ∷ ping ∷ []) (9 ∷ [])
unfolding contents frames frame header
process_messages-Delivers_example =
    process_messages-Delivers (login ∷ ping ∷ []) (9 ∷ []) filled-IsValid refl (inl (omega arith))

abbrev idle : Connection
idle = record {
  recv_buf = new 16;
  send_buf = new 16;
  ready = true;
  closed = false;
  in_read_handler = false;
}

empty-IsValid : IsValid (new 16)
empty-IsValid = new-IsValid 16 (omega arith) (omega arith)

idle-IsOpen : IsOpen idle
idle-IsOpen = record { not_closed = refl; is_ready = refl; send_valid = empty-IsValid }

abbrev loaded : Connection
loaded = record idle { send_buf = filled }

abbrev full : Connection
full = record idle { recv_buf = filled }

read_in_loses_example :
    read_in (received (1 ∷ 2 ∷ 3 ∷ 4 ∷ 5 ∷ 6 ∷ []) ∷ recv_again ∷ []) full
    ≡ read_in (recv_again ∷ []) full
read_in_loses_example =
    read_in_loses (1 ∷ 2 ∷ 3 ∷ 4 ∷ 5 ∷ 6 ∷ []) (recv_again ∷ []) full filled-IsValid (omega arith)

abbrev both : List Message
both = login ∷ ping ∷ []

-- Two messages, in one call of send, received in pieces of four and six bytes.
abbrev pieces : List (List ℕ)
pieces = (2 ∷ 0 ∷ 1 ∷ 2 ∷ []) ∷ (65 ∷ 66 ∷ 0 ∷ 0 ∷ 3 ∷ 4 ∷ []) ∷ []

transfer-Delivers_example :
    Delivers
      (process_messages
        (suc (read_in (arrivals pieces) idle).recv_buf.size)
        (read_in (arrivals pieces) idle).recv_buf)
      both
      []
unfolding new contents frames frame header queue_all queue_msg write_out writable_bytes
    readable_bytes write put copy_in peek consume copy_out sub32
transfer-Delivers_example =
    transfer-Delivers both idle idle (sent 10 ∷ []) pieces idle-IsOpen empty-IsValid
      (contents-new 16) (contents-new 16) (omega arith, (omega arith, tt)) (omega arith)
      (omega arith) (omega arith, tt) refl refl
