-- ===== src/Quic/Memory.antt =====
-- A transport in memory that meets the assumptions on quinn and tokio, for tests and examples: a
-- send stream keeps what was written, a receive stream what is left to read.
use bxp_core.Base.{
  ℕ, ◌≤◌, ◌<◌, ◌≡◌, refl, Bool, true, false, Option, some, none, List, [], ◌∷◌, ◌++◌, Result, ok,
  err, length, take, drop, ltb, ltb-eq-true, ltb-eq-false, if◌then◌else◌, arith,
}
use bxp_core.Quic.{Quic, IsQuic}

pub record Sender : Type 0 where
  pub written : List ℕ
  pub finished : Bool

pub record Link : Type 0 where
  pub incoming : List (List ℕ)
  pub delivered : List (List ℕ)
  pub closed_with : Option (ℕ × List ℕ)

pub record Bytes : Type 0 where
  pub yields : List ℕ
  pub fails : Option ℕ

abbrev write_all : List ℕ → Sender → Result ℕ (Unit {0}) × Sender
write_all bs s = if s.finished then (err 1, s) else (ok tt, record s { written = s.written ++ bs })

abbrev read_exact : ℕ → List ℕ → Result ℕ (List ℕ) × List ℕ
read_exact n r = if ltb (length r) n then (err 2, []) else (ok (take n r), drop n r)

abbrev finish : Sender → Result ℕ (Unit {0}) × Sender
finish s = if s.finished then (err 1, s) else (ok tt, record s { finished = true })

-- The source's error is reported after all that it yielded was copied.
abbrev copy_result : Option ℕ → ℕ → Result ℕ ℕ
copy_result none n = ok n
copy_result (some e) n = err e

abbrev copy : Bytes → Sender → Result ℕ ℕ × Sender
copy b s =
    if s.finished
    then (err 1, s)
    else (copy_result b.fails (length b.yields), record s { written = s.written ++ b.yields })

abbrev accept_uni : List (List ℕ) → Link → Result ℕ (List ℕ) × Link
accept_uni [] c = (err 3, c)
accept_uni (bs ∷ rest) c = (ok bs, record c { incoming = rest })

abbrev next_incoming : List (Option Link) → Option (Option Link) × List (Option Link)
next_incoming [] = (none, [])
next_incoming (c ∷ rest) = (some c, rest)

abbrev connected : Option Link → Result ℕ Link
connected none = err 4
connected (some c) = ok c

abbrev pub fresh : Sender
fresh = record { written = []; finished = false }

abbrev pub memory : Quic
memory = record {
  Connection = Link;
  SendStream = Sender;
  RecvStream = List ℕ;
  Source = Bytes;
  write_all = write_all;
  read_exact = read_exact;
  finish = finish;
  copy = copy;
  copy_in = λ r. (ok r, []);
  open_uni = λ c. (ok fresh, c);
  accept_uni = λ c. accept_uni c.incoming c;
  open_bi = λ c. (ok (fresh, []), c);
  accept_bi = λ c. (ok (fresh, []), c);
  close = λ code reason c. record c { closed_with = some (code, reason) };
  closed = λ c. (0, c);
  Endpoint = List (Option Link);
  Incoming = Option Link;
  accept = next_incoming;
  handshake = connected;
  wait_idle = λ e. e;
  drop_send = λ s c. record c { delivered = c.delivered ++ (s.written ∷ []) };
  drop_recv = λ r c. c;
}

take-length : (xs : List ℕ) → take (length xs) xs ≡ xs
take-length [] = refl
take-length (x ∷ xs) = λ i. x ∷ take-length xs i

pub copy_fails :
    (b : Bytes) (s : Sender) (e : ℕ)
    → s.finished ≡ false
    → b.fails ≡ some e
    → (k : ℕ) × ((copy b s).0 ≡ err e)
      × ((copy b s).1.written ≡ s.written ++ take k b.yields)
      × (◌≡◌ {A = Bool} true true)
copy_fails b s e h f = (length b.yields, ground arith, ground (arith, take-length b.yields), refl)

pub accept_next :
    (c : Link) (bs : List ℕ) (rest : List (List ℕ))
    → c.incoming ≡ bs ∷ rest
    → (r : List ℕ) × ((accept_uni c.incoming c).0 ≡ ok r)
      × (r ≡ bs)
      × ((accept_uni c.incoming c).1.incoming ≡ rest)
accept_next c bs rest h = (bs, ground arith, refl, ground arith)

pub write_all_open :
    (bs : List ℕ) (s : Sender)
    → s.finished ≡ false
    → ((write_all bs s).0 ≡ ok tt)
      × ((write_all bs s).1.written ≡ s.written ++ bs)
      × (◌≡◌ {A = Bool} true true)
      × ((write_all bs s).1.finished ≡ false)
write_all_open bs s f = ground arith

pub read_exact_enough :
    (n : ℕ) (r : List ℕ)
    → n ≤ length r
    → ((read_exact n r).0 ≡ ok (take n r)) × ((read_exact n r).1 ≡ drop n r)
read_exact_enough n r h = ground (arith, ltb-eq-false (length r) n)

pub read_exact_short :
    (n : ℕ) (r : List ℕ)
    → length r < n
    → (e : ℕ) × ((read_exact n r).0 ≡ err e) × ((read_exact n r).1 ≡ [])
read_exact_short n r h = (2, ground (arith, ltb-eq-true (length r) n), ground arith)

pub finish_open :
    (s : Sender)
    → s.finished ≡ false
    → ((finish s).0 ≡ ok tt) × ((finish s).1.written ≡ s.written) × (◌≡◌ {A = Bool} true true)
finish_open s f = ground arith

pub copy_whole :
    (b : Bytes) (s : Sender)
    → s.finished ≡ false
    → b.fails ≡ none
    → ((copy b s).0 ≡ ok (length b.yields))
      × ((copy b s).1.written ≡ s.written ++ b.yields)
      × (◌≡◌ {A = Bool} true true)
      × ((copy b s).1.finished ≡ false)
copy_whole b s f e = ground arith

unfoldable pub memory-IsQuic : IsQuic memory
memory-IsQuic = record {
  written = λ s. s.written;
  finished = λ s. s.finished;
  healthy = λ s. true;
  pending = λ r. r;
  clean = λ r. true;
  yields = λ b. b.yields;
  fails = λ b. b.fails;
  alive = λ c. true;
  incoming = λ c. c.incoming;
  whole = λ c. true;
  delivered = λ c. c.delivered;
  closed_with = λ c. c.closed_with;
  write_all-healthy = λ bs s h f. write_all_open bs s f;
  read_exact-enough = read_exact_enough;
  read_exact-short = read_exact_short;
  read_exact-clean = λ n r bs h. refl;
  copy_in-clean = λ r h. refl;
  finish-healthy = λ s h f. finish_open s f;
  copy-healthy = λ src s h f e. copy_whole src s f e;
  copy-fails = λ src s e h f k. copy_fails src s e f k;
  open_uni-alive = λ c h. (fresh, refl, refl, refl, refl);
  open_uni-keeps = λ c. (refl, refl, refl);
  accept_uni-next = accept_next;
  accept_uni-whole = λ c r h k. (refl, refl);
  drop_send-healthy = λ s c h. (refl, refl, refl);
  drop_recv-keeps = λ r c. refl;
  drop_recv-whole = λ r c h. h;
  close-records = λ code reason c. refl;
}
