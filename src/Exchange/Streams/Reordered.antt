-- ===== src/Exchange/Streams/Reordered.antt =====
-- Data streams that arrive in another order than they were sent (spec/spec.md, 5.1).
use bxp_core.Base.{ℕ, suc, ◌≡◌, refl, ap, ◌∙◌, true, List, [], ◌∷◌, ◌++◌, length}
use bxp_core.Base.Bytes.{to_le_bytes}
use bxp_core.Client.{ClientConnection}
use bxp_core.Exchange.Streams.{
  tagged, AllIds, AllWhole, Yields, contents, server_sends, client_sends, client_reads,
  server_reads, delivered-server_sends, delivered-client_sends, client_reads-tagged,
  server_reads-tagged,
}
use bxp_core.Quic.{Quic, IsQuic}
use bxp_core.Server.{ServerConnection}
use mathlib.Core.List.{Permᴰ}

-- A rearrangement of the same data streams, by their ids and payloads.
record Rearranged (ts : List (ℕ × List ℕ)) (streams : List (List ℕ)) : Type 0 where
  arrived : List (ℕ × List ℕ)
  perm : Permᴰ ts arrived
  bytes : streams ≡ tagged arrived
  ids : AllIds arrived
  size : length arrived ≡ length ts

rearranged :
    {xs ys : List (List ℕ)}
    → Permᴰ xs ys
    → (ts : List (ℕ × List ℕ)) → xs ≡ tagged ts
    → AllIds ts
    → Rearranged ts ys
unfolding tagged
rearranged Permᴰ.nil [] e h = record {
  arrived = [];
  perm = Permᴰ.nil;
  bytes = refl;
  ids = tt;
  size = refl;
}
rearranged Permᴰ.nil ((req_id, payload) ∷ ts) e h = cc
rearranged (Permᴰ.cons s p) [] e h = cc
rearranged (Permᴰ.cons {a} {b} {l₁} {l₂} s p) ((req_id, payload) ∷ ts) e (fits, more) =
    let first : a ≡ to_le_bytes req_id ++ payload = cc in
    let others : l₁ ≡ tagged ts = cc in
    let r = rearranged p ts others more in
    record {
      arrived = (req_id, payload) ∷ r.arrived;
      perm = Permᴰ.cons refl r.perm;
      bytes = cc (s, first, r.bytes);
      ids = (fits, r.ids);
      size = ap suc r.size;
    }
rearranged (Permᴰ.swap s t) [] e h = cc
rearranged (Permᴰ.swap s t) ((req_id, payload) ∷ []) e h = cc
rearranged (Permᴰ.swap {a} {b} {a'} {b'} {l} s t) ((i, p) ∷ ((j, r) ∷ ts)) e (fits, (other, more)) =
    let first : a ≡ to_le_bytes i ++ p = cc in
    let second : b ≡ to_le_bytes j ++ r = cc in
    let others : l ≡ tagged ts = cc in
    record {
      arrived = (j, r) ∷ ((i, p) ∷ ts);
      perm = Permᴰ.swap refl refl;
      bytes = cc (s, t, first, second, others);
      ids = (other, (fits, more));
      size = refl;
    }
rearranged (Permᴰ.trans p q) ts e h =
    let r = rearranged p ts e h in
    let u = rearranged q r.arrived r.bytes r.ids in
    record {
      arrived = u.arrived;
      perm = Permᴰ.trans r.perm u.perm;
      bytes = u.bytes;
      ids = u.ids;
      size = u.size ∙ r.size;
    }

module _ {q : Quic} (spec : IsQuic q) where
  pub client_reads-rearranged :
      (ts : List (ℕ × List ℕ)) (client : ClientConnection q)
      → AllIds ts
      → Permᴰ (tagged ts) (spec.incoming client.quic_conn)
      → (arrived : List (ℕ × List ℕ)) × Permᴰ ts arrived
        × Yields spec (client_reads q (length ts) client) arrived
  client_reads-rearranged ts client ids order =
      let r = rearranged order ts refl ids in
      (r.arrived, r.perm, rw (← r.size) (client_reads-tagged spec r.arrived client r.ids r.bytes))

  -- A server on a live connection that has delivered nothing yet calls `send_data_stream` for any
  -- number of ids below 2 ^ 32, from sources that are read to their end, and the streams arrive at
  -- the client in any order. Then as many calls of `read_data_stream` return each request id that
  -- was sent, as often as it was sent, each with the stream of its own payload.
  downloads :
      (ts : List (ℕ × q.Source)) (server : ServerConnection q) (client : ClientConnection q)
      → AllWhole spec ts
      → AllIds (contents spec ts)
      → spec.alive server.quic_conn ≡ true
      → spec.delivered server.quic_conn ≡ []
      → Permᴰ (spec.delivered (server_sends q ts server).quic_conn) (spec.incoming client.quic_conn)
      → (arrived : List (ℕ × List ℕ)) × Permᴰ (contents spec ts) arrived
        × Yields spec (client_reads q (length (contents spec ts)) client) arrived
  downloads ts server client whole ids up none_yet order =
      let sent =
        delivered-server_sends spec ts server whole up
        ∙ ap (λ d. d ++ tagged (contents spec ts)) none_yet in
      client_reads-rearranged (contents spec ts) client ids (rw sent at order)

  -- A client on a live connection that has delivered nothing yet calls `send_data_stream` for any
  -- number of ids below 2 ^ 32, from sources that are read to their end, and the streams arrive at
  -- the server in any order. Then as many calls of `read_data_stream` return each request id that
  -- was sent, as often as it was sent, each with the stream of its own payload.
  pub uploads :
      (ts : List (ℕ × q.Source)) (client : ClientConnection q) (server : ServerConnection q)
      → AllWhole spec ts
      → AllIds (contents spec ts)
      → spec.alive client.quic_conn ≡ true
      → spec.delivered client.quic_conn ≡ []
      → Permᴰ (spec.delivered (client_sends q ts client).quic_conn) (spec.incoming server.quic_conn)
      → (arrived : List (ℕ × List ℕ)) × Permᴰ (contents spec ts) arrived
        × Yields spec (server_reads q (length (contents spec ts)) server) arrived
  uploads ts client server whole ids up none_yet order =
      let sent =
        delivered-client_sends spec ts client whole up
        ∙ ap (λ d. d ++ tagged (contents spec ts)) none_yet in
      let r = rearranged order (contents spec ts) sent ids in
      (r.arrived, r.perm, rw (← r.size) (server_reads-tagged spec r.arrived server r.ids r.bytes))
