-- ===== src/Socket/Server/Calm.antt =====
-- What sending and closing leave alone: the buffers, the states, and who is not connected.
use ix_library.Base.{
  ℕ, ◌+◌, ◌%◌, ◌≤◌, ◌≡◌, refl, ◌∙◌, Bool, true, false, List, [], ◌∷◌, ◌==◌, Bool-cases, ◌⊎◌, inl,
  inr, arith,
}
use ix_library.Wire.{Bytes}
use ix_library.Socket.Packets.{queue_send}
use ix_library.Socket.Server.{
  Peer, live, gone, failing, Server, close_client, send_to_client, send_packets, queue_send_new,
}

abbrev pub seat : Bool → ℕ
seat true = 1
seat false = 0

-- From `s` to `t` the buffers and the states stay, and no client comes in.
pub record IsCalm {V : Type 0} (fd : ℕ) (s t : Server V) : Type 0 where
  pub buffers : t.recv_buffer ≡ s.recv_buffer
  pub data_kept : t.clients_data ≡ s.clients_data
  pub seats : seat (t.clients fd) ≤ seat (s.clients fd)

pub seat_in : (b : Bool) → seat b ≤ 1
seat_in true = omega arith
seat_in false = omega arith

module _ (V : Type 0) (fd : ℕ) where
  pub IsCalm-refl : (s : Server V) → IsCalm fd s s
  IsCalm-refl s = record { buffers = refl; data_kept = refl; seats = omega arith }

  IsCalm-trans : (s t u : Server V) → IsCalm fd s t → IsCalm fd t u → IsCalm fd s u
  IsCalm-trans s t u a b = record {
    buffers = b.buffers ∙ a.buffers;
    data_kept = b.data_kept ∙ a.data_kept;
    seats = omega (arith, a.seats, b.seats);
  }

  pub close_client-IsCalm : (g : ℕ) (s : Server V) → IsCalm fd s (close_client V g s)
  unfolding close_client
  close_client-IsCalm g s = by_fd (Bool-cases (fd == g))
    where
      by_fd : (fd == g ≡ true) ⊎ (fd == g ≡ false) → IsCalm fd s (close_client V g s)
      by_fd (inl e) = record { buffers = refl; data_kept = refl; seats = rw e (omega arith) }
      by_fd (inr e) = record { buffers = refl; data_kept = refl; seats = rw e (omega arith) }

  module _ (peer : ℕ → Peer) where
    pub send_to_client-IsCalm :
        (g : ℕ) (bytes : Bytes) (s : Server V) → IsCalm fd s (send_to_client V peer g bytes s)
    unfolding send_to_client
    send_to_client-IsCalm g bytes s = by_client (s.clients g) refl
      where
        by_peer :
            (p : Peer)
            → peer g ≡ p
            → s.clients g ≡ true
            → IsCalm fd s (send_to_client V peer g bytes s)
        by_peer live e c =
            rw (c, e) (record { buffers = refl; data_kept = refl; seats = omega arith })
        by_peer gone e c = rw (c, e) (close_client-IsCalm g s)
        by_peer failing e c = rw (c, e) (IsCalm-refl s)

        by_client : (b : Bool) → s.clients g ≡ b → IsCalm fd s (send_to_client V peer g bytes s)
        by_client true c = by_peer (peer g) refl c
        by_client false c = rw c (IsCalm-refl s)

    send_packets-IsCalm :
        (g : ℕ) (ps : List Bytes) (s : Server V) → IsCalm fd s (send_packets V peer g ps s)
    unfolding send_packets
    send_packets-IsCalm g [] s = IsCalm-refl s
    send_packets-IsCalm g (p ∷ ps) s =
        let t = send_to_client V peer g p s in
        IsCalm-trans s t (send_packets V peer g ps t) (send_to_client-IsCalm g p s)
          (send_packets-IsCalm g ps t)

    pub queue_send_new-IsCalm :
        (g : ℕ) (header bytes : Bytes) (s t : Server V)
        → IsCalm fd s t
        → IsCalm fd s (queue_send_new V peer g header bytes t)
    unfolding queue_send_new
    queue_send_new-IsCalm g header bytes s t a =
        let counted = record t { packet_id = (t.packet_id + 1) % 4294967296 } in
        let sent = send_packets-IsCalm g (queue_send t.packet_id header bytes) counted in
        record {
          buffers = sent.buffers ∙ a.buffers;
          data_kept = sent.data_kept ∙ a.data_kept;
          seats = omega (arith, sent.seats, a.seats);
        }
