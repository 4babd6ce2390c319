-- ===== src/Exchange/Streams.antt =====
-- Several data streams on one connection, in both directions.
pub mod Reordered
use bxp_core.Base.{
  ℕ, zero, suc, ◌<◌, ◌≡◌, ap, ◌∙◌, sym, true, none, List, [], ◌∷◌, ◌++◌, append-nil, append_assoc,
  Result, ok, length,
}
use bxp_core.Base.Bytes.{u32_mod, to_le_bytes}
use bxp_core.Client
use bxp_core.Client.{ClientConnection}
use bxp_core.Protocol.{Error}
use bxp_core.Quic.{Quic, IsQuic}
use bxp_core.Server
use bxp_core.Server.{ServerConnection}
use bxp_core.Stream.Transfer.{send_on_complete, read_on-preamble}

-- The bytes of data streams with these request ids and payloads.
unfoldable pub tagged : List (ℕ × List ℕ) → List (List ℕ)
tagged [] = []
tagged ((req_id, payload) ∷ ts) = (to_le_bytes req_id ++ payload) ∷ tagged ts

abbrev pub AllIds : List (ℕ × List ℕ) → Type 0
AllIds [] = Unit
AllIds ((req_id, payload) ∷ ts) = (req_id < u32_mod) × AllIds ts

module _ (q : Quic) where
  -- A sender that calls `send_data_stream` once for each source, and a receiver that calls
  -- `read_data_stream` so many times.
  unfoldable pub server_sends : List (ℕ × q.Source) → ServerConnection q → ServerConnection q
  server_sends [] s = s
  server_sends ((req_id, src) ∷ ts) s = server_sends ts (Server.send_data_stream q req_id src s).1

  unfoldable pub client_sends : List (ℕ × q.Source) → ClientConnection q → ClientConnection q
  client_sends [] s = s
  client_sends ((req_id, src) ∷ ts) s = client_sends ts (Client.send_data_stream q req_id src s).1

  unfoldable pub client_reads : ℕ → ClientConnection q → List (Result Error (ℕ × q.RecvStream))
  client_reads zero s = []
  client_reads (suc n) s =
      (Client.read_data_stream q s).0 ∷ client_reads n (Client.read_data_stream q s).1

  unfoldable pub server_reads : ℕ → ServerConnection q → List (Result Error (ℕ × q.RecvStream))
  server_reads zero s = []
  server_reads (suc n) s =
      (Server.read_data_stream q s).0 ∷ server_reads n (Server.read_data_stream q s).1

module _ {q : Quic} (spec : IsQuic q) where
  abbrev pub contents : List (ℕ × q.Source) → List (ℕ × List ℕ)
  contents [] = []
  contents ((req_id, src) ∷ ts) = (req_id, spec.yields src) ∷ contents ts

  -- Every source is read to its end.
  abbrev pub AllWhole : List (ℕ × q.Source) → Type 0
  AllWhole [] = Unit
  AllWhole ((req_id, src) ∷ ts) = (spec.fails src ≡ none) × AllWhole ts

  -- The results are these request ids, in order, each with a stream that delivers the payload.
  abbrev pub Yields : List (Result Error (ℕ × q.RecvStream)) → List (ℕ × List ℕ) → Type 0
  Yields [] [] = Unit
  Yields (res ∷ results) ((req_id, payload) ∷ ts) =
      ((r : q.RecvStream) × (res ≡ ok (req_id, r)) × (spec.pending r ≡ payload)) × Yields results ts
  Yields _ _ = ⊥

  pub delivered-server_sends :
      (ts : List (ℕ × q.Source)) (s : ServerConnection q)
      → AllWhole ts
      → spec.alive s.quic_conn ≡ true
      → spec.delivered (server_sends q ts s).quic_conn
        ≡ spec.delivered s.quic_conn ++ tagged (contents ts)
  unfolding server_sends tagged Server.send_data_stream
  delivered-server_sends [] s h up = sym (append-nil _)
  delivered-server_sends ((req_id, src) ∷ ts) s (whole, more) up =
      let (res, now, still, same) = send_on_complete spec req_id src s.quic_conn up whole in
      delivered-server_sends ts (Server.send_data_stream q req_id src s).1 more still
      ∙ ap (λ d. d ++ tagged (contents ts)) now
      ∙ append_assoc {0} (spec.delivered s.quic_conn) ((to_le_bytes req_id ++ spec.yields src) ∷ [])
          (tagged (contents ts))

  pub delivered-client_sends :
      (ts : List (ℕ × q.Source)) (s : ClientConnection q)
      → AllWhole ts
      → spec.alive s.quic_conn ≡ true
      → spec.delivered (client_sends q ts s).quic_conn
        ≡ spec.delivered s.quic_conn ++ tagged (contents ts)
  unfolding client_sends tagged Client.send_data_stream
  delivered-client_sends [] s h up = sym (append-nil _)
  delivered-client_sends ((req_id, src) ∷ ts) s (whole, more) up =
      let (res, now, still, same) = send_on_complete spec req_id src s.quic_conn up whole in
      delivered-client_sends ts (Client.send_data_stream q req_id src s).1 more still
      ∙ ap (λ d. d ++ tagged (contents ts)) now
      ∙ append_assoc {0} (spec.delivered s.quic_conn) ((to_le_bytes req_id ++ spec.yields src) ∷ [])
          (tagged (contents ts))

  -- Whatever the order in which data streams arrive at the client, each call of
  -- `read_data_stream` returns the request id and the payload of one and the same stream.
  pub client_reads-tagged :
      (ts : List (ℕ × List ℕ)) (s : ClientConnection q)
      → AllIds ts
      → spec.incoming s.quic_conn ≡ tagged ts
      → Yields (client_reads q (length ts) s) ts
  unfolding client_reads tagged Client.read_data_stream
  client_reads-tagged [] s h p = tt
  client_reads-tagged ((req_id, payload) ∷ ts) s (fits, more) p =
      let (r, res, bytes, left) =
        read_on-preamble spec s.quic_conn req_id payload (tagged ts) fits p in
      ((r, res, bytes), client_reads-tagged ts (Client.read_data_stream q s).1 more left)

  pub server_reads-tagged :
      (ts : List (ℕ × List ℕ)) (s : ServerConnection q)
      → AllIds ts
      → spec.incoming s.quic_conn ≡ tagged ts
      → Yields (server_reads q (length ts) s) ts
  unfolding server_reads tagged Server.read_data_stream
  server_reads-tagged [] s h p = tt
  server_reads-tagged ((req_id, payload) ∷ ts) s (fits, more) p =
      let (r, res, bytes, left) =
        read_on-preamble spec s.quic_conn req_id payload (tagged ts) fits p in
      ((r, res, bytes), server_reads-tagged ts (Server.read_data_stream q s).1 more left)
