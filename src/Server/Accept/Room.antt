-- ===== src/Server/Accept/Room.antt =====
-- The second chance of a connection whose first mailbox is full.
use nexide.Prelude.{ℕ, ◌<◌, ◌≡◌, ◌≢◌, ◌⊎◌, refl, inl, inr, false, some, get_elem?}
use nexide.Prelude.Results.{ok, err, Result-cases}
use nexide.Server.Accept.{
  Channel, IsChannel, WorkerRuntime, Acceptor, full, closed, send_on, sent, try_send_stream,
  with_worker, after_secondary, after_primary, dispatch_stream, pick_worker, advanced,
}

-- A worker with a mailbox that is not closed.
pub record IsOpen {Conn : Type 0} (ch : Channel Conn) (w : WorkerRuntime ch) (tx : ch.Sender)
    : Type 0 where
  pub sender : w.stream_tx ≡ some tx
  pub alive : ch.is_closed tx ≡ false

module _ {Conn : Type 0} (ch : Channel Conn) (laws : IsChannel ch) where
  -- A mailbox with room takes a connection.
  takes :
      (w : WorkerRuntime ch) {tx : ch.Sender} (c : Conn)
      → IsOpen ch w tx
      → 0 < ch.capacity tx
      → (w' : WorkerRuntime ch) × (try_send_stream ch w c ≡ ok w')
  unfolding try_send_stream send_on sent
  takes w {tx} c is_up room =
      let (tx', done) = laws.has_room tx c is_up.alive room in
      (record w { stream_tx = some tx' }, rw (is_up.sender, send_on, done) refl)

  -- An open mailbox is never found closed.
  never_closed :
      (w : WorkerRuntime ch) {tx : ch.Sender} (c : Conn)
      → IsOpen ch w tx
      → try_send_stream ch w c ≢ err closed
  unfolding try_send_stream send_on sent
  never_closed w {tx} c is_up h = elim (Result-cases (ch.try_send tx c)) [
    | inl (tx', done) ↦
        let e : try_send_stream ch w c ≡ ok (record w { stream_tx = some tx' }) =
          rw (try_send_stream, is_up.sender, send_on, done) refl in
        absurd (cc)
    | inr (full, refused) ↦
        let e : try_send_stream ch w c ≡ err full =
          rw (try_send_stream, is_up.sender, send_on, refused) refl in
        absurd (cc)
    | inr (closed, refused) ↦ absurd (laws.closed_only tx c is_up.alive refused)
  ]

  -- If the mailboxes of both candidates of `pick_worker` are open and one of them has room, then
  -- `dispatch_stream` puts the connection into the mailbox of one of them, and drops nothing.
  pub dispatch_stream-delivers :
      (s : Acceptor ch) (c : Conn) (i j : ℕ) (w v : WorkerRuntime ch) (tx ux : ch.Sender)
      → pick_worker ch s ≡ some (i, j)
      → get_elem? s.workers i ≡ some w
      → get_elem? s.workers j ≡ some v
      → IsOpen ch w tx
      → IsOpen ch v ux
      → (0 < ch.capacity tx) ⊎ (0 < ch.capacity ux)
      → (k : ℕ) × (u : WorkerRuntime ch) × (u' : WorkerRuntime ch) × ((k ≡ i) ⊎ (k ≡ j))
        × (get_elem? s.workers k ≡ some u)
        × (try_send_stream ch u c ≡ ok u')
        × (dispatch_stream ch s c ≡ some (with_worker ch (advanced ch s) k u'))
  unfolding dispatch_stream after_primary after_secondary advanced
  dispatch_stream-delivers s c i j w v tx ux picked at jt w_up v_up room =
      elim (Result-cases (try_send_stream ch w c)) [
        | inl (w', done) ↦
            (i, w, w', inl refl, at, done, rw (dispatch_stream, picked, at, done) refl)
        | inr (closed, refused) ↦ absurd (never_closed w c w_up refused)
        | inr (full, refused) ↦ elim room [
          | inl first ↦ let (w', done) = takes w c w_up first in absurd (cc)
          | inr second ↦
              let (v', done) = takes v c v_up second in
              (
                j,
                v,
                v',
                inr refl,
                jt,
                done,
                rw (dispatch_stream, picked, at, refused, after_primary, jt, done) refl,
              )
        ]
      ]
