-- ===== src/Quic.antt =====
-- What src/client.rs and src/server.rs call of the crates quinn and tokio, which are not in the
-- repository: the operations as a parameter `Quic`, and their documented behaviour as the
-- hypotheses `IsQuic`, stated by what can be observed of a stream or a connection. A foreign
-- error is a number.
pub mod Memory
use bxp_core.Base.{
  ℕ, ◌≤◌, ◌<◌, ◌≡◌, Bool, true, false, Option, some, none, List, [], ◌∷◌, ◌++◌, Result, ok, err,
  length, take, drop,
}

pub record Quic : Type 1 where
  pub Connection : Type 0
  pub SendStream : Type 0
  pub RecvStream : Type 0
  -- A `tokio::io::AsyncRead`.
  pub Source : Type 0
  pub write_all : List ℕ → SendStream → Result ℕ (Unit {0}) × SendStream
  pub read_exact : ℕ → RecvStream → Result ℕ (List ℕ) × RecvStream
  pub finish : SendStream → Result ℕ (Unit {0}) × SendStream
  -- `tokio::io::copy`
  pub copy : Source → SendStream → Result ℕ ℕ × SendStream
  -- `tokio::io::copy` of a received stream to a `Vec`.
  pub copy_in : RecvStream → Result ℕ (List ℕ) × RecvStream
  pub open_uni : Connection → Result ℕ SendStream × Connection
  pub accept_uni : Connection → Result ℕ RecvStream × Connection
  pub open_bi : Connection → Result ℕ (SendStream × RecvStream) × Connection
  pub accept_bi : Connection → Result ℕ (SendStream × RecvStream) × Connection
  pub close : ℕ → List ℕ → Connection → Connection
  -- Waits until the connection is closed, and gives the reason.
  pub closed : Connection → ℕ × Connection
  pub Endpoint : Type 0
  pub Incoming : Type 0
  -- `Endpoint::accept`, whose end is `none`, and the handshake of what it accepts.
  pub accept : Endpoint → Option Incoming × Endpoint
  pub handshake : Incoming → Result ℕ Connection
  pub wait_idle : Endpoint → Endpoint
  -- `impl Drop for SendStream` and `impl Drop for RecvStream`
  pub drop_send : SendStream → Connection → Connection
  pub drop_recv : RecvStream → Connection → Connection

pub record IsQuic (q : Quic) : Type 0 where
  -- The bytes handed to a send stream so far, and whether it was finished.
  pub written : q.SendStream → List ℕ
  pub finished : q.SendStream → Bool
  -- Whether the peer neither stops the stream nor loses the connection.
  pub healthy : q.SendStream → Bool
  -- The bytes that a receive stream still delivers before it ends or fails.
  pub pending : q.RecvStream → List ℕ
  -- Whether what a receive stream still delivers goes on to a clean end: the peer does not reset
  -- the stream, and the connection stays up.
  pub clean : q.RecvStream → Bool
  -- What a source yields, and the error with which it then fails, if it does.
  pub yields : q.Source → List ℕ
  pub fails : q.Source → Option ℕ
  -- Whether the connection stays up and the peer lets streams be opened and takes them.
  pub alive : q.Connection → Bool
  -- The streams that the peer opened and that were not accepted yet, each by what it delivers.
  pub incoming : q.Connection → List (List ℕ)
  -- Whether all of them go on to a clean end.
  pub whole : q.Connection → Bool
  -- The streams that the peer reads to a clean end, each by its bytes.
  pub delivered : q.Connection → List (List ℕ)
  -- The code and the reason with which this side closed the connection.
  pub closed_with : q.Connection → Option (ℕ × List ℕ)
  -- `write_all` appends to an open stream.
  pub write_all-healthy :
      (bs : List ℕ) (s : q.SendStream)
      → healthy s ≡ true
      → finished s ≡ false
      → ((q.write_all bs s).0 ≡ ok tt)
        × (written (q.write_all bs s).1 ≡ written s ++ bs)
        × (healthy (q.write_all bs s).1 ≡ true)
        × (finished (q.write_all bs s).1 ≡ false)
  -- `read_exact` returns as many bytes as asked, or fails once the stream ends too early.
  pub read_exact-enough :
      (n : ℕ) (r : q.RecvStream)
      → n ≤ length (pending r)
      → ((q.read_exact n r).0 ≡ ok (take n (pending r)))
        × (pending (q.read_exact n r).1 ≡ drop n (pending r))
  pub read_exact-short :
      (n : ℕ) (r : q.RecvStream)
      → length (pending r) < n
      → (e : ℕ) × ((q.read_exact n r).0 ≡ err e) × (pending (q.read_exact n r).1 ≡ [])
  pub read_exact-clean :
      (n : ℕ) (r : q.RecvStream) (bs : List ℕ)
      → (q.read_exact n r).0 ≡ ok bs
      → clean (q.read_exact n r).1 ≡ clean r
  -- `copy` of a stream with a clean end takes all that it delivers.
  pub copy_in-clean : (r : q.RecvStream) → clean r ≡ true → (q.copy_in r).0 ≡ ok (pending r)
  -- `finish` succeeds once on an open stream.
  pub finish-healthy :
      (s : q.SendStream)
      → healthy s ≡ true
      → finished s ≡ false
      → ((q.finish s).0 ≡ ok tt)
        × (written (q.finish s).1 ≡ written s)
        × (healthy (q.finish s).1 ≡ true)
  -- `copy` moves all that the source yields; if the source fails, a part of that may be lost.
  pub copy-healthy :
      (src : q.Source) (s : q.SendStream)
      → healthy s ≡ true
      → finished s ≡ false
      → fails src ≡ none
      → ((q.copy src s).0 ≡ ok (length (yields src)))
        × (written (q.copy src s).1 ≡ written s ++ yields src)
        × (healthy (q.copy src s).1 ≡ true)
        × (finished (q.copy src s).1 ≡ false)
  pub copy-fails :
      (src : q.Source) (s : q.SendStream) (e : ℕ)
      → healthy s ≡ true
      → finished s ≡ false
      → fails src ≡ some e
      → (k : ℕ) × ((q.copy src s).0 ≡ err e)
        × (written (q.copy src s).1 ≡ written s ++ take k (yields src))
        × (healthy (q.copy src s).1 ≡ true)
  -- A new stream is empty and open.
  pub open_uni-alive :
      (c : q.Connection)
      → alive c ≡ true
      → (s : q.SendStream) × ((q.open_uni c).0 ≡ ok s)
        × (written s ≡ [])
        × (healthy s ≡ true)
        × (finished s ≡ false)
  pub open_uni-keeps :
      (c : q.Connection)
      → (alive (q.open_uni c).1 ≡ alive c)
        × (delivered (q.open_uni c).1 ≡ delivered c)
        × (incoming (q.open_uni c).1 ≡ incoming c)
  -- Streams are accepted in the order in which they arrived.
  pub accept_uni-next :
      (c : q.Connection) (bs : List ℕ) (rest : List (List ℕ))
      → incoming c ≡ bs ∷ rest
      → (r : q.RecvStream) × ((q.accept_uni c).0 ≡ ok r)
        × (pending r ≡ bs)
        × (incoming (q.accept_uni c).1 ≡ rest)
  pub accept_uni-whole :
      (c : q.Connection) (r : q.RecvStream)
      → whole c ≡ true
      → (q.accept_uni c).0 ≡ ok r
      → (clean r ≡ true) × (whole (q.accept_uni c).1 ≡ true)
  -- A send stream that is dropped and was not reset is finished implicitly: the peer reads what
  -- was written, and then a clean end.
  pub drop_send-healthy :
      (s : q.SendStream) (c : q.Connection)
      → healthy s ≡ true
      → (delivered (q.drop_send s c) ≡ delivered c ++ (written s ∷ []))
        × (alive (q.drop_send s c) ≡ alive c)
        × (incoming (q.drop_send s c) ≡ incoming c)
  pub drop_recv-keeps :
      (r : q.RecvStream) (c : q.Connection) → incoming (q.drop_recv r c) ≡ incoming c
  pub drop_recv-whole :
      (r : q.RecvStream) (c : q.Connection) → whole c ≡ true → whole (q.drop_recv r c) ≡ true
  pub close-records :
      (code : ℕ) (reason : List ℕ) (c : q.Connection)
      → closed_with (q.close code reason c) ≡ some (code, reason)
