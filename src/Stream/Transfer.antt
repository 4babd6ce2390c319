-- ===== src/Stream/Transfer.antt =====
-- `send_data_stream` and `read_data_stream` of src/client.rs and src/server.rs, on the connection.
use bxp_core.Base.{
  ℕ, ◌<◌, ◌≡◌, refl, sym, ◌∙◌, inl, inr, Result-cases, true, false, some, none, List, [], ◌∷◌, ◌++◌,
  append_assoc, ok, err, length, take, arith,
}
use bxp_core.Base.Bytes.{u32_mod, to_le_bytes, from_le_bytes}
use bxp_core.Frame.Reading.{header}
use bxp_core.Protocol.{quic, io}
use bxp_core.Quic.{Quic, IsQuic}
use bxp_core.Stream.{write_stream, release, send_on, read_preamble, read_on}

module _ {q : Quic} (spec : IsQuic q) where
  -- What the calls on a new stream leave in it, if the source is read to its end.
  write_stream_complete :
      (req_id : ℕ) (reader : q.Source) (s : q.SendStream)
      → spec.healthy s ≡ true
      → spec.finished s ≡ false
      → spec.fails reader ≡ none
      → ((write_stream q req_id reader s).0 ≡ ok tt)
        × (spec.written (write_stream q req_id reader s).1
            ≡ spec.written s ++ (to_le_bytes req_id ++ spec.yields reader))
        × (spec.healthy (write_stream q req_id reader s).1 ≡ true)
  unfolding write_stream
  write_stream_complete req_id reader s up open_ whole =
      let (r₁, w₁, h₁, f₁) = spec.write_all-healthy (to_le_bytes req_id) s up open_ in
      let (r₂, w₂, h₂, f₂) =
        spec.copy-healthy reader (q.write_all (to_le_bytes req_id) s).1 h₁ f₁ whole in
      let (r₃, w₃, h₃) =
        spec.finish-healthy (q.copy reader (q.write_all (to_le_bytes req_id) s).1).1 h₂ f₂ in
      (
        ground arith,
        ground (arith, append_assoc (spec.written s) (to_le_bytes req_id) (spec.yields reader)),
        ground arith,
      )

  write_stream-broken :
      (req_id : ℕ) (reader : q.Source) (s : q.SendStream) (e : ℕ)
      → spec.healthy s ≡ true
      → spec.finished s ≡ false
      → spec.fails reader ≡ some e
      → (k : ℕ) × ((write_stream q req_id reader s).0 ≡ err (io e))
        × (spec.written (write_stream q req_id reader s).1
            ≡ spec.written s ++ (to_le_bytes req_id ++ take k (spec.yields reader)))
        × (spec.healthy (write_stream q req_id reader s).1 ≡ true)
  unfolding write_stream
  write_stream-broken req_id reader s e up open_ broken =
      let (r₁, w₁, h₁, f₁) = spec.write_all-healthy (to_le_bytes req_id) s up open_ in
      let (k, r₂, w₂, h₂) =
        spec.copy-fails reader (q.write_all (to_le_bytes req_id) s).1 e h₁ f₁ broken in
      (
        k,
        ground arith,
        ground (
          arith,
          append_assoc (spec.written s) (to_le_bytes req_id) (take k (spec.yields reader)),
        ),
        ground arith,
      )

  send_on_step :
      (req_id : ℕ) (reader : q.Source) (c : q.Connection) {s : q.SendStream}
      → (q.open_uni c).0 ≡ ok s
      → send_on q req_id reader c ≡ (
        (write_stream q req_id reader s).0,
        q.drop_send (write_stream q req_id reader s).1 (q.open_uni c).1,
      )
  unfolding send_on release
  send_on_step req_id reader c h = rw (h, send_on)

  -- On a live connection and with a source that is read to its end, `send_data_stream` succeeds,
  -- and the peer gets one more stream: the four bytes of the request id, then all that the source
  -- yields, then a clean end.
  pub send_on_complete :
      (req_id : ℕ) (reader : q.Source) (c : q.Connection)
      → spec.alive c ≡ true
      → spec.fails reader ≡ none
      → ((send_on q req_id reader c).0 ≡ ok tt)
        × (spec.delivered (send_on q req_id reader c).1
            ≡ spec.delivered c ++ ((to_le_bytes req_id ++ spec.yields reader) ∷ []))
        × (spec.alive (send_on q req_id reader c).1 ≡ true)
        × (spec.incoming (send_on q req_id reader c).1 ≡ spec.incoming c)
  send_on_complete req_id reader c up whole =
      let (s, opened, fresh, ready, open_) = spec.open_uni-alive c up in
      let (r, w, h) = write_stream_complete req_id reader s ready open_ whole in
      let (kept, old, inc) = spec.open_uni-keeps c in
      let (now, still, same) =
        spec.drop_send-healthy (write_stream q req_id reader s).1 (q.open_uni c).1 h in
      rw (send_on_step req_id reader c opened) (r, ground arith, ground arith, ground arith)

  -- If the connection is live and the source fails, `send_data_stream` returns that error, and yet
  -- the peer gets one more stream with a clean end: the request id, then some first part of what
  -- the source had yielded.
  pub send_on-truncates :
      (req_id : ℕ) (reader : q.Source) (c : q.Connection) (e : ℕ)
      → spec.alive c ≡ true
      → spec.fails reader ≡ some e
      → ((send_on q req_id reader c).0 ≡ err (io e))
        × (k : ℕ) × (spec.delivered (send_on q req_id reader c).1
            ≡ spec.delivered c ++ ((to_le_bytes req_id ++ take k (spec.yields reader)) ∷ []))
  send_on-truncates req_id reader c e up broken =
      let (s, opened, fresh, ready, open_) = spec.open_uni-alive c up in
      let (k, r, w, h) = write_stream-broken req_id reader s e ready open_ broken in
      let (kept, old, inc) = spec.open_uni-keeps c in
      let (now, still, same) =
        spec.drop_send-healthy (write_stream q req_id reader s).1 (q.open_uni c).1 h in
      rw (send_on_step req_id reader c opened) (r, k, ground arith)

  pub read_on_ok :
      (c : q.Connection) {s : q.RecvStream} {id_buf : List ℕ}
      → (q.accept_uni c).0 ≡ ok s
      → (q.read_exact 4 s).0 ≡ ok id_buf
      → read_on q c ≡ (ok (from_le_bytes id_buf, (q.read_exact 4 s).1), (q.accept_uni c).1)
  unfolding read_on
  read_on_ok c h k = rw (h, read_on) (rw (k, read_preamble))

  pub read_on_err :
      (c : q.Connection) {s : q.RecvStream} {e : ℕ}
      → (q.accept_uni c).0 ≡ ok s
      → (q.read_exact 4 s).0 ≡ err e
      → read_on q c ≡ (err (quic e), q.drop_recv (q.read_exact 4 s).1 (q.accept_uni c).1)
  unfolding read_on
  read_on_err c h k = rw (h, read_on) (rw (k, read_preamble))

  read_on_refused :
      (c : q.Connection) {e : ℕ}
      → (q.accept_uni c).0 ≡ err e
      → read_on q c ≡ (err (quic e), (q.accept_uni c).1)
  unfolding read_on
  read_on_refused c h = rw (h, read_on)

  -- If the next stream to be accepted begins with a request id below 2 ^ 32, `read_data_stream`
  -- returns that id and the stream at the byte behind it, and the streams behind it stay to be
  -- accepted.
  pub read_on-preamble :
      (c : q.Connection) (req_id : ℕ) (payload : List ℕ) (rest : List (List ℕ))
      → req_id < u32_mod
      → spec.incoming c ≡ (to_le_bytes req_id ++ payload) ∷ rest
      → (r : q.RecvStream) × ((read_on q c).0 ≡ ok (req_id, r))
        × (spec.pending r ≡ payload)
        × (spec.incoming (read_on q c).1 ≡ rest)
  read_on-preamble c req_id payload rest fits next =
      let (s, accepted, bytes, left) =
        spec.accept_uni-next c (to_le_bytes req_id ++ payload) rest next in
      let (long, got, after) = header req_id payload fits in
      let (r, p) = spec.read_exact-enough 4 s (rw bytes long) in
      rw (read_on_ok c accepted r) ((q.read_exact 4 s).1, rw (bytes, got), p ∙ rw bytes after, left)

  -- If the next stream ends within the first four bytes, `read_data_stream` fails with an error of
  -- the stream and gives that stream up: the streams behind it stay to be accepted.
  read_on-short :
      (c : q.Connection) (bytes : List ℕ) (rest : List (List ℕ))
      → length bytes < 4
      → spec.incoming c ≡ bytes ∷ rest
      → (e : ℕ) × ((read_on q c).0 ≡ err (quic e)) × (spec.incoming (read_on q c).1 ≡ rest)
  read_on-short c bytes rest short next =
      let (s, accepted, same, left) = spec.accept_uni-next c bytes rest next in
      let (e, r, p) = spec.read_exact-short 4 s (rw same short) in
      rw (read_on_err c accepted r)
        (e, refl, spec.drop_recv-keeps (q.read_exact 4 s).1 (q.accept_uni c).1 ∙ left)

  -- A stream that it returns goes on to a clean end, if all that arrive do.
  pub read_on-whole :
      (c : q.Connection) (req_id : ℕ) (r : q.RecvStream)
      → spec.whole c ≡ true
      → (read_on q c).0 ≡ ok (req_id, r)
      → (spec.clean r ≡ true) × (spec.whole (read_on q c).1 ≡ true)
  unfolding read_on read_preamble
  read_on-whole c req_id r up got = elim (Result-cases (q.accept_uni c).0) [
    | inl (s, accepted) ↦ elim (Result-cases (q.read_exact 4 s).0) [
      | inl (id_buf, filled) ↦
          let (clean, still) = spec.accept_uni-whole c s up accepted in
          let same : (q.read_exact 4 s).1 ≡ r = cc (read_on_ok c accepted filled, got) in
          rw (read_on_ok c accepted filled)
            (rw (sym same) (spec.read_exact-clean 4 s id_buf filled ∙ clean), still)
      | inr (e, failed) ↦ cc (read_on_err c accepted failed, got)
    ]
    | inr (e, failed) ↦ cc (read_on_refused c failed, got)
  ]
