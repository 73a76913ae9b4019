-- ===== src/Proto/WriteState/Flush.antt =====
-- What a caller of the write half of connection_state.rs can rely on: the bytes that it gets are the
-- frames of the accepted items, in order.
use sansrpc.Prelude.{ℕ, ◌≡◌, sym, ap, ◌∙◌, List, [], ◌∷◌, ◌++◌, append-nil, Result}
use sansrpc.Proto.Message.{Message}
use sansrpc.Proto.Encoder.{SansEncoder}
use sansrpc.Proto.Buffer.{BytesMut}
use sansrpc.Proto.Wire.{wire}
use sansrpc.Proto.WriteState.{WriteConnectionConfig, process, consume_all}
use sansrpc.Proto.WriteState.Emits.{process-Sent}
use sansrpc.Proto.WriteState.Queue.{got, consume_all_lem}
use sansrpc.Proto.WriteState.Session.{
  WriteCall, processes, consumes_all, send_bytes, step, run, start, Conserves, AreCarried,
  run-Conserves, start-Conserves, processes-Conserves, process-wire,
}

module _ {Out Encoder E F Buffer : Type 0} (bytes : BytesMut Buffer)
    (encoder : SansEncoder Encoder Out E) (decode : List ℕ → Result F (Message Out))
    (config : WriteConnectionConfig Encoder) (calls : List (WriteCall Out))
    (h : AreCarried bytes encoder decode config calls) where
  open bytes use {as_slice}
  open encoder use {encode}

  pub after_calls :
      Conserves bytes encoder decode config (run bytes encoder (start bytes encoder config) calls)
  after_calls =
      run-Conserves bytes encoder decode config (start bytes encoder config) calls h
        (start-Conserves bytes encoder decode config)

  -- Feed the write half with messages that the coders carry, and call `process`, `consume_bytes` and
  -- `consume_all` at any time: the bytes consumed are a front of the frames of the accepted items,
  -- in order, and one `process` with one `consume_all` completes them.
  pub run-sends_wire :
      let x = run bytes encoder (start bytes encoder config) calls in
      ((rest : List ℕ) × (x.sent ++ rest ≡ wire (encode config.coder) x.accepted))
      × ((run bytes encoder x (processes ∷ consumes_all ∷ [])).sent
          ≡ wire (encode config.coder) x.accepted)
  unfolding run step send_bytes wire
  run-sends_wire =
      let x = run bytes encoder (start bytes encoder config) calls in
      let v = after_calls in
      let v' = processes-Conserves bytes encoder decode config x v in
      let q = (process bytes encoder x.writer).0 in
      let (_, no_queue, _) =
        process-wire bytes encoder decode config x v (process-Sent bytes encoder x.writer) in
      let (c, none_left) = consume_all_lem bytes q in
      let rest = got (consume_all bytes q).1 in
      let flushed : rest ≡ as_slice q.send_buffer ++ wire (encode config.coder) q.send_queue =
        sym (append-nil rest)
        ∙ ap (λ t. rest ++ t) (sym none_left)
        ∙ c.whole
        ∙ sym (append-nil (as_slice q.send_buffer))
        ∙ ap (λ t. as_slice q.send_buffer ++ wire (encode config.coder) t) (sym no_queue) in
      ((_, v.stream), ap (λ t. x.sent ++ t) flushed ∙ v'.stream)
